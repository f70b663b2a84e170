-- ===== src/Tests/Sockets.antt =====
-- The sockets of saturn/socket.cc and the servers of saturn/tcpserver.cc at concrete inputs.
use saturn.Base.{◌≡◌, refl, true, false, none, some, [], ◌∷◌}
use saturn.FdManager.{receive}
use saturn.Socket.{
  SockAddr, Calls, create_tcp, create_udp, new_socket, new_sock, connect, set_send_timeout,
  timeval_of,
}
use saturn.Socket.States.{HasDescriptor, created, connects, stepped, Reached-HasDescriptor}
use saturn.Socket.Servers.{TcpServer}

abbrev any_address : SockAddr
any_address = record { family = 2; contents = 0 ∷ 80 ∷ [] }

abbrev granted : Calls
granted = record {
  socket = some 5;
  bind = true;
  connect = true;
  listen = true;
  peer_name = some any_address;
  sock_name = some any_address;
}

abbrev refused : Calls
refused = record granted { bind = false }

-- 1500 milliseconds are set as a time-out for receiving, of a second and 1000 microseconds.
set_send_timeout_run : set_send_timeout 1500 ≡ (receive, (1, 1000))
unfolding set_send_timeout timeval_of
set_send_timeout_run = refl

-- A datagram socket that could not be made says that it is connected.
create_udp_run : (create_udp (record granted { socket = none }) 2).connected ≡ true
unfolding create_udp new_socket new_sock
create_udp_run = refl

Reached-HasDescriptor_example : HasDescriptor (connect any_address granted (create_tcp 2)).1
Reached-HasDescriptor_example =
    Reached-HasDescriptor (connect any_address granted (create_tcp 2)).1 (
      stepped (create_tcp 2) (connect any_address granted (create_tcp 2)).1 (created 2)
        (connects any_address granted (create_tcp 2)))

abbrev server : TcpServer
server = record { socks = []; is_stop = true }
