-- ===== src/Http/Requests.antt =====
-- `DoRequest` of `HttpConnection` and `doRequest` of `HttpConnectionPool` in saturn/http/http_connection.cc: the
-- request that is built, what is sent, and the results. The URI, the address and the socket are parameters.
use saturn.Base.{
  ℕ, ◌^◌, Bool, true, false, not, ◌&&◌, Option, none, some, List, [], ◌∷◌, ◌++◌, bytes, leb, ◌==◌,
  if◌then◌else◌,
}
use saturn.Stream.{Sent, write_fix_size}
use saturn.Http.Messages.{
  HttpRequest, HttpResponse, new_request, set_header, connection, nocase_equal, dump_request,
  dump_response, marked,
}
use saturn.Http.Receive.{
  Result, message_received, stream_closed, buffer_overrun, fuel_spent, resize_threw,
}

-- `HttpResult::Error`.
pub data Error : Type 0 where
  ok invalid_url invalid_host connect_fail send_close_by_peer send_socket_error timeout
        create_socket_error pool_get_connection pool_invalid_connection :
      Error

-- An `HttpResult` without its text.
abbrev pub HttpResult : Type 0
HttpResult = Error × Option HttpResponse

pub record Uri : Type 0 where
  pub path : List ℕ
  pub query : List ℕ
  pub fragment : List ℕ
  pub host : List ℕ

abbrev pub host_key : List ℕ
host_key = bytes "Host"

abbrev pub is_empty : List ℕ → Bool
is_empty [] = true
is_empty (c ∷ cs) = false

-- A name and a value of `headers`, on the request and `has_host`.
unfoldable pub add_header : List ℕ × List ℕ → HttpRequest × Bool → HttpRequest × Bool
add_header (k, v) (r, has_host) =
    if nocase_equal k connection
    then (if nocase_equal v (bytes "keep-alive") then record r { close = false } else r, has_host)
    else (
      set_header k v r,
      if not has_host && nocase_equal k (bytes "host") then not (is_empty v) else has_host,
    )

unfoldable pub add_headers : List (List ℕ × List ℕ) → HttpRequest × Bool → HttpRequest × Bool
add_headers [] s = s
add_headers (h ∷ hs) s = add_headers hs (add_header h s)

-- The end of both: the host where none has been given, and the body.
unfoldable pub add_host : List ℕ → List ℕ → HttpRequest × Bool → HttpRequest
add_host host body (r, has_host) = record (if has_host then r else set_header host_key host r) {
  body = body;
}

-- `HttpConnection::DoRequest` up to the request.
unfoldable pub request_for : ℕ → Uri → List (List ℕ × List ℕ) → List ℕ → HttpRequest
unfolding new_request
request_for method uri headers body = add_host uri.host body (
    add_headers headers (
      record (new_request 0x11 true) {
        path = uri.path;
        query = uri.query;
        fragment = uri.fragment;
        method = method;
      },
      false,
    ))

-- `HttpConnectionPool::doRequest` up to the request.
unfoldable pub pool_request_for :
    ℕ → List ℕ → List ℕ → List ℕ → List (List ℕ × List ℕ) → List ℕ → HttpRequest
unfolding new_request
pool_request_for method url pool_host vhost headers body =
    add_host (if is_empty vhost then pool_host else vhost) body (
      add_headers headers
        (record (new_request 0x11 true) { path = url; method = method; close = false }, false))

-- The `url` of a URI, for a pool.
unfoldable pub uri_text : Uri → List ℕ
uri_text uri = uri.path ++ (marked b'?' uri.query ++ marked b'#' uri.fragment)

-- `sendRequest` and `sendResponse`.
unfoldable pub send_request {ℓ} : {W : Type ℓ} → (List ℕ → W → Sent × W) → HttpRequest → W → ℕ × W
send_request write r w = write_fix_size write (dump_request r) w

unfoldable pub send_response {ℓ} : {W : Type ℓ} → (List ℕ → W → Sent × W) → HttpResponse → W → ℕ × W
send_response write r w = write_fix_size write (dump_response r) w

-- What is returned for what `recvResponse` has returned; `none` where it has not.
unfoldable pub result_of {ℓ} : {W : Type ℓ} → Result HttpResponse W → Option (HttpResult × W)
result_of (message_received r w) = some ((ok, some r), w)
result_of (stream_closed w) = some ((timeout, none), w)
result_of buffer_overrun = none
result_of (resize_threw w) = none
result_of fuel_spent = none

-- The exchange over a connection: `rt` is an `int`, which is negative from 2 ^ 31 on.
unfoldable pub exchange {ℓ} :
    {W : Type ℓ}
    → (List ℕ → W → Sent × W)
    → (W → Result HttpResponse W)
    → HttpRequest
    → W
    → Option (HttpResult × W)
exchange write recv r w =
    let (rt, w') = send_request write r w in
    elim (rt == 0) [
      | true ↦ some ((send_close_by_peer, none), w')
      | false ↦ elim (leb (2 ^ 31) rt) [
        | true ↦ some ((send_socket_error, none), w')
        | false ↦ result_of (recv w')
      ]
    ]

-- The calls of a client: `createAddress`, `CreateTCP`, `connect` and `setRecvTimeout`.
pub record Dialer {ℓ} (W : Type ℓ) : Type ℓ where
  pub create_address : W → Bool × W
  pub create_tcp : W → Bool × W
  pub connect : W → Bool × W
  pub set_recv_timeout : ℕ → W → W

-- `HttpConnection::DoRequest` on a request.
unfoldable pub do_request {ℓ} :
    {W : Type ℓ}
    → Dialer W
    → (List ℕ → W → Sent × W)
    → (W → Result HttpResponse W)
    → ℕ
    → HttpRequest
    → W
    → Option (HttpResult × W)
do_request dial write recv timeout_ms r w =
    let (found, w₁) = dial.create_address w in
    elim found [
      | false ↦ some ((invalid_host, none), w₁)
      | true ↦
          let (made, w₂) = dial.create_tcp w₁ in
          elim made [
            | false ↦ some ((create_socket_error, none), w₂)
            | true ↦
                let (connected, w₃) = dial.connect w₂ in
                elim connected [
                  | false ↦ some ((connect_fail, none), w₃)
                  | true ↦ exchange write recv r (dial.set_recv_timeout timeout_ms w₃)
                ]
          ]
    ]

-- `DoRequest` on a URL, which `Uri::Create` reads.
unfoldable pub do_url_request {ℓ} :
    {W : Type ℓ}
    → (List ℕ → Option Uri)
    → Dialer W
    → (List ℕ → W → Sent × W)
    → (W → Result HttpResponse W)
    → ℕ
    → List ℕ
    → ℕ
    → List (List ℕ × List ℕ)
    → List ℕ
    → W
    → Option (HttpResult × W)
do_url_request create dial write recv method url timeout_ms headers body w = elim (create url) [
  | none ↦ some ((invalid_url, none), w)
  | some uri ↦ do_request dial write recv timeout_ms (request_for method uri headers body) w
]

-- `HttpConnectionPool::doRequest` on a request: `get_connection` gives no connection or one with or without a
-- socket.
unfoldable pub pool_do_request {ℓ} :
    {W : Type ℓ}
    → (W → Option Bool × W)
    → (ℕ → W → W)
    → (List ℕ → W → Sent × W)
    → (W → Result HttpResponse W)
    → ℕ
    → HttpRequest
    → W
    → Option (HttpResult × W)
pool_do_request get_connection set_recv_timeout write recv timeout_ms r w =
    let (conn, w') = get_connection w in
    elim conn [
      | none ↦ some ((pool_get_connection, none), w')
      | some sock ↦ elim sock [
        | false ↦ some ((pool_invalid_connection, none), w')
        | true ↦ exchange write recv r (set_recv_timeout timeout_ms w')
      ]
    ]
