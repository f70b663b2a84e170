-- ===== src/Http/Pool.antt =====
-- `HttpConnectionPool` of saturn/http/http_connection.cc: `getConnection` and `ReleasePtr`.
use saturn.Base.{
  ℕ, suc, ◌+◌, ◌-◌, ◌^◌, ◌%◌, Bool, true, not, ◌||◌, Option, none, some, List, [], ◌∷◌, ◌++◌, ltb,
  leb, if◌then◌else◌,
}

-- Whether the socket is connected is what it is when the pool looks at it.
pub record Connection : Type 0 where
  pub is_connected : Bool
  pub create_time : ℕ
  pub request : ℕ

-- `total` counts the connections that the pool has or has given away.
pub record ConnectionPool : Type 0 where
  pub max_alive_time : ℕ
  pub max_request : ℕ
  pub conns : List Connection
  pub total : ℕ

unfoldable pub new_pool : ℕ → ℕ → ConnectionPool
new_pool max_alive_time max_request = record {
  max_alive_time = max_alive_time;
  max_request = max_request;
  conns = [];
  total = 0;
}

-- `new HttpConnection(sock)`: nothing sets `m_createTime`.
abbrev pub new_connection : Connection
new_connection = record { is_connected = true; create_time = 0; request = 0 }

-- The search under the lock: the connection that is found, those that are left, and how many are deleted.
unfoldable pub search : ℕ → ℕ → List Connection → Option Connection × List Connection × ℕ
search now_ms max_alive_time [] = (none, [], 0)
search now_ms max_alive_time (conn ∷ conns) =
    let rest = search now_ms max_alive_time conns in
    if not conn.is_connected || ltb now_ms ((conn.create_time + max_alive_time) % 2 ^ 64)
    then (rest.0, rest.1, suc rest.2)
    else (some conn, conns, 0)

-- `getConnection`. `dials` is whether the address is found and a socket connects to it.
unfoldable pub get_connection : ℕ → Bool → ConnectionPool → Option Connection × ConnectionPool
get_connection now_ms dials p =
    let r = search now_ms p.max_alive_time p.conns in
    let found = record p { conns = r.1; total = p.total - r.2 } in
    elim r.0 [
      | some conn ↦ (some conn, found)
      | none ↦
          if dials
          then (some new_connection, record found { total = suc found.total })
          else (none, found)
    ]

-- `ReleasePtr`.
unfoldable pub release : ℕ → Connection → ConnectionPool → ConnectionPool
release now_ms conn p =
    let request = suc conn.request in
    if not conn.is_connected
      || (leb now_ms ((conn.create_time + p.max_alive_time) % 2 ^ 64) || leb p.max_request request)
    then record p { total = p.total - 1 }
    else record p { conns = p.conns ++ record conn { request = request } ∷ [] }
