-- ===== src/Socket.antt =====
-- saturn/socket.cc: a socket's descriptor, flag and cached addresses, and what each operation does to them. What
-- the system calls return is a parameter.
pub mod States
pub mod Servers
use saturn.Base.{
  ℕ, zero, suc, ◌+◌, ◌-◌, ◌*◌, ◌/◌, ◌%◌, ◌^◌, Bool, true, false, not, ◌&&◌, Option, none, some,
  List, [], ◌∷◌, ◌++◌, ◌==◌, ltb, if◌then◌else◌,
}
use saturn.FdManager.{TimeoutType, receive, send}

-- An address: its family and its bytes.
pub record SockAddr : Type 0 where
  pub family : ℕ
  pub contents : List ℕ

-- `descriptor` is `m_sock`, which is none at -1.
pub record Socket : Type 0 where
  pub descriptor : Option ℕ
  pub family : ℕ
  pub type : ℕ
  pub protocol : ℕ
  pub connected : Bool
  pub local_address : Option SockAddr
  pub remote_address : Option SockAddr

-- What the system calls return in an operation: the descriptor of `socket`, whether the call of that name
-- succeeds, and the addresses of `getpeername` and `getsockname`.
pub record Calls : Type 0 where
  pub socket : Option ℕ
  pub bind : Bool
  pub connect : Bool
  pub listen : Bool
  pub peer_name : Option SockAddr
  pub sock_name : Option SockAddr

unfoldable pub new_socket : ℕ → ℕ → ℕ → Socket
new_socket family type protocol = record {
  descriptor = none;
  family = family;
  type = type;
  protocol = protocol;
  connected = false;
  local_address = none;
  remote_address = none;
}

unfoldable pub is_valid : Socket → Bool
is_valid s = elim s.descriptor [ none ↦ false | some fd ↦ true ]

-- `newSock`, whose options change nothing here.
unfoldable pub new_sock : Calls → Socket → Socket
new_sock c s = record s { descriptor = c.socket }

abbrev pub stream_type : ℕ
stream_type = 1

abbrev pub datagram_type : ℕ
datagram_type = 2

-- `CreateTCP` and its kin, and `CreateUDP` and its.
unfoldable pub create_tcp : ℕ → Socket
unfolding new_socket
create_tcp family = new_socket family stream_type 0

unfoldable pub create_udp : Calls → ℕ → Socket
unfolding new_socket new_sock
create_udp c family = record (new_sock c (new_socket family datagram_type 0)) { connected = true }

unfoldable pub get_remote_address : Calls → Socket → SockAddr × Socket
get_remote_address c s = elim s.remote_address [
  | some a ↦ (a, s)
  | none ↦ elim c.peer_name [
    | none ↦ (record { family = s.family; contents = [] }, s)
    | some a ↦ (a, record s { remote_address = some a })
  ]
]

unfoldable pub get_local_address : Calls → Socket → SockAddr × Socket
get_local_address c s = elim s.local_address [
  | some a ↦ (a, s)
  | none ↦ elim c.sock_name [
    | none ↦ (record { family = s.family; contents = [] }, s)
    | some a ↦ (a, record s { local_address = some a })
  ]
]

-- A socket that is not valid is made.
unfoldable pub made_valid : Calls → Socket → Socket
made_valid c s = if is_valid s then s else new_sock c s

unfoldable pub bind : SockAddr → Calls → Socket → Bool × Socket
bind addr c s =
    let s' = made_valid c s in
    if not (is_valid s')
    then (false, s')
    else if not (addr.family == s'.family)
    then (false, s')
    else if not c.bind
    then (false, s')
    else (true, (get_local_address c s').1)

-- `close`, with the descriptor that it closes.
unfoldable pub close : Socket → Bool × Option ℕ × Socket
close s =
    if not s.connected && not (is_valid s)
    then (true, none, s)
    else (false, s.descriptor, record s { connected = false; descriptor = none })

-- `connect`, with or without a time-out: they differ in the call.
unfoldable pub connect : SockAddr → Calls → Socket → Bool × Socket
connect addr c s =
    let s' = made_valid c (record s { remote_address = some addr }) in
    if not (is_valid s')
    then (false, s')
    else if not (addr.family == s'.family)
    then (false, s')
    else if not c.connect
    then (false, (close s').2)
    else (true, (get_local_address c (get_remote_address c (record s' { connected = true })).1).1)

unfoldable pub listen : Calls → Socket → Bool
listen c s = is_valid s && c.listen

-- `init`, on whether the manager has the descriptor as an open socket.
unfoldable pub init : ℕ → Bool → Calls → Socket → Bool × Socket
init fd is_open c s =
    if is_open
    then (
      true,
      (get_remote_address c
          (get_local_address c (record s { descriptor = some fd; connected = true })).1).1,
    )
    else (false, s)

-- `accept`: the socket of the descriptor that the call gives.
unfoldable pub accept : Option ℕ → Bool → Calls → Socket → Option Socket
unfolding new_socket
accept newsock is_open c s = elim newsock [
  | none ↦ none
  | some fd ↦
      let r = init fd is_open c (new_socket s.family s.type s.protocol) in
      if r.0 then some r.1 else none
]

-- What `send`, `recv` and their kin do: the call, or -1 where the socket is not connected.
unfoldable pub transfer {ℓ κ} :
    {W : Type ℓ} {R : Type κ} → R → (Option ℕ → W → R × W) → Socket → W → R × W
transfer minus_one call s w = if s.connected then call s.descriptor w else (minus_one, w)

-- The `timeval` of `v` milliseconds, seconds and microseconds.
unfoldable pub timeval_of : ℕ → ℕ × ℕ
timeval_of v = (v / 1000, v / 1000 * 1000)

-- `setSendTimeOut` and `setRecvTimeout`: the option and the time that they set.
unfoldable pub set_send_timeout : ℕ → TimeoutType × (ℕ × ℕ)
set_send_timeout v = (receive, timeval_of v)

unfoldable pub set_recv_timeout : ℕ → TimeoutType × (ℕ × ℕ)
set_recv_timeout v = (receive, timeval_of v)
