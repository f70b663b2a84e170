-- ===== src/Socket/Servers.antt =====
-- `TcpServer` of saturn/tcpserver.cc. The scheduler that runs its functions is a parameter: what is scheduled is
-- a result.
use saturn.Base.{Bool, true, false, Option, none, some, List, [], ◌∷◌, ◌++◌, map, if◌then◌else◌}
use saturn.Socket.{SockAddr, Socket, Calls, create_tcp, bind, listen, close}

pub record TcpServer : Type 0 where
  pub socks : List Socket
  pub is_stop : Bool

-- An address to bind and what the calls for it return.
abbrev pub Request : Type 0
Request = SockAddr × Calls

-- A round of the loop of `bind`: the socket, if it is bound and listens.
unfoldable pub bind_one : Request → Option Socket
bind_one (addr, c) =
    let (bound, s) = bind addr c (create_tcp addr.family) in
    if bound then (if listen c s then some s else none) else none

-- The loop: `m_socks` and `fails`.
unfoldable pub bind_loop : List Request → List Socket → List SockAddr → List Socket × List SockAddr
bind_loop [] socks fails = (socks, fails)
bind_loop (r ∷ rs) socks fails = elim (bind_one r) [
  | none ↦ bind_loop rs socks (fails ++ r.0 ∷ [])
  | some s ↦ bind_loop rs (socks ++ s ∷ []) fails
]

-- `bind`: what it returns, `fails` and the server.
unfoldable pub bind_server :
    List Request → List SockAddr → TcpServer → Bool × List SockAddr × TcpServer
bind_server rs fails server = finished (bind_loop rs server.socks fails)
  where
    finished : List Socket × List SockAddr → Bool × List SockAddr × TcpServer
    finished (socks, []) = (true, [], record server { socks = socks })
    finished (socks, f ∷ fs) = (false, f ∷ fs, record server { socks = [] })

-- `start`: the sockets for which `startAccept` is scheduled.
unfoldable pub start : TcpServer → List Socket × TcpServer
start server =
    if server.is_stop then (server.socks, record server { is_stop = false }) else ([], server)

-- `stop`, and what it schedules: the sockets are closed and forgotten.
unfoldable pub stop : TcpServer → TcpServer
stop server = record server { is_stop = true }

unfoldable pub close_all : TcpServer → List Socket × TcpServer
unfolding close
close_all server = (map (λ s. (close s).2) server.socks, record server { socks = [] })

-- What a round of `startAccept` meets: whether the server has been stopped, and what `accept` returns.
abbrev pub Turn : Type 0
Turn = Bool × Option Socket

-- `startAccept`, over the rounds to come: the clients that are scheduled for `handleClient`, in order.
unfoldable pub start_accept : List Turn → List Socket
start_accept [] = []
start_accept ((stopped, client) ∷ turns) =
    let rest = start_accept turns in
    if stopped then [] else elim client [ none ↦ rest | some s ↦ s ∷ rest ]

-- The sockets of the addresses that can be bound, and the addresses that cannot.
unfoldable pub bound_sockets : List Request → List Socket
bound_sockets [] = []
bound_sockets (r ∷ rs) = elim (bind_one r) [
  | none ↦ bound_sockets rs
  | some s ↦ s ∷ bound_sockets rs
]

unfoldable pub failed_addresses : List Request → List SockAddr
failed_addresses [] = []
failed_addresses (r ∷ rs) = elim (bind_one r) [
  | none ↦ r.0 ∷ failed_addresses rs
  | some s ↦ failed_addresses rs
]
