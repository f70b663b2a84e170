-- ===== src/Http/RequestLaws.antt =====
-- What the requests of saturn/http/http_connection.cc hold, and what becomes of them.
use saturn.Base.{
  ℕ, ◌^◌, ◌<◌, ◌≡◌, inl, inr, refl, ap, ap₂, ◌∙◌, Bool, true, false, not, ◌&&◌, Option, none, some,
  List, [], ◌∷◌, ◌++◌, bytes, length, length-append, leb, lt→leb, ◌==◌, arith, Bool-cases,
  if◌then◌else◌,
}
use saturn.Stream.{Sent, write_fix_size}
use saturn.Stream.Whole.{IsWriter, write_fix_size-WroteAll}
use saturn.Http.Fields.{find, same_key}
use saturn.Http.FieldLaws.{find-assign}
use saturn.Http.Messages.{
  HttpRequest, HttpResponse, new_request, set_header, connection, dump_request, dump_request_line,
}
use saturn.Http.{http_method_to_string}
use saturn.Http.Receive.{Result}
use saturn.Http.Requests.{
  Uri, host_key, is_empty, add_header, add_headers, add_host, request_for, send_request, exchange,
  result_of, Dialer, do_request,
}

-- The value that the headers give to a name last, whatever its case, those of the connection left out.
unfoldable pub last_value : List ℕ → List (List ℕ × List ℕ) → Option (List ℕ) → Option (List ℕ)
last_value j [] d = d
last_value j ((k, v) ∷ hs) d =
    last_value j hs (if same_key k connection then d else if same_key j k then some v else d)

-- Some header for the host is not empty, before one that is may override it.
unfoldable pub gives_host : List (List ℕ × List ℕ) → Bool → Bool
gives_host [] b = b
gives_host ((k, v) ∷ hs) b = gives_host hs (
    if same_key k connection
    then b
    else if not b && same_key k (bytes "host")
    then not (is_empty v)
    else b)

kept_alive-headers :
    (b : Bool) (r : HttpRequest) → (if b then record r { close = false } else r).headers ≡ r.headers
kept_alive-headers true r = refl
kept_alive-headers false r = refl

find-add_header :
    (j k v : List ℕ) (r : HttpRequest) (b : Bool)
    → find j (add_header (k, v) (r, b)).0.headers ≡ (
        if same_key k connection
        then find j r.headers
        else if same_key j k
        then some v
        else find j r.headers)
unfolding add_header set_header
find-add_header j k v r b = elim (Bool-cases (same_key k connection)) [
  | inl y ↦
      rw (y, add_header) (ap (find j) (kept_alive-headers (same_key v (bytes "keep-alive")) r))
  | inr n ↦ rw (n, add_header) (find-assign j k v r.headers)
]

host-add_header :
    (k v : List ℕ) (r : HttpRequest) (b : Bool)
    → (add_header (k, v) (r, b)).1 ≡ (
        if same_key k connection
        then b
        else if not b && same_key k (bytes "host")
        then not (is_empty v)
        else b)
unfolding add_header set_header
host-add_header k v r b = elim (Bool-cases (same_key k connection)) [
  | inl y ↦ rw (y, add_header) refl
  | inr n ↦ rw (n, add_header) refl
]

add_headers-find :
    (j : List ℕ) (hs : List (List ℕ × List ℕ)) (s : HttpRequest × Bool)
    → (find j (add_headers hs s).0.headers ≡ last_value j hs (find j s.0.headers))
      × ((add_headers hs s).1 ≡ gives_host hs s.1)
unfolding add_headers last_value gives_host
add_headers-find j [] s = (refl, refl)
add_headers-find j ((k, v) ∷ hs) (r, b) =
    let (fields, host) = add_headers-find j hs (add_header (k, v) (r, b)) in
    (
      fields ∙ ap (last_value j hs) (find-add_header j k v r b),
      host ∙ ap (gives_host hs) (host-add_header k v r b),
    )

find-add_host :
    (host body j : List ℕ) (s : HttpRequest × Bool)
    → find j (add_host host body s).headers ≡ (
        if s.1
        then find j s.0.headers
        else if same_key j host_key
        then some host
        else find j s.0.headers)
unfolding add_host set_header
find-add_host host body j (r, true) = refl
find-add_host host body j (r, false) = find-assign j host_key host r.headers

find-added :
    (host body j : List ℕ) (headers : List (List ℕ × List ℕ)) (r : HttpRequest)
    → find j (add_host host body (add_headers headers (r, false))).headers ≡ (
        if gives_host headers false
        then last_value j headers (find j r.headers)
        else if same_key j host_key
        then some host
        else last_value j headers (find j r.headers))
find-added host body j headers r =
    let (fields, given) = add_headers-find j headers (r, false) in
    find-add_host host body j (add_headers headers (r, false))
    ∙ ap₂ (λ b f. if b then f else if same_key j host_key then some host else f) given fields

-- A field of the request that is built has the value that the headers give to its name last, whatever its
-- case, those of the connection left out; but where they name no host, or only empty ones, the host is the
-- URI's.
pub request_for-find :
    (method : ℕ) (uri : Uri) (headers : List (List ℕ × List ℕ)) (body j : List ℕ)
    → find j (request_for method uri headers body).headers ≡ (
        if gives_host headers false
        then last_value j headers none
        else if same_key j host_key
        then some uri.host
        else last_value j headers none)
unfolding request_for new_request find
request_for-find method uri headers body j = find-added uri.host body j headers _

length-append_pos : (xs ys : List ℕ) (c : ℕ) → 0 < length (xs ++ c ∷ ys)
length-append_pos xs ys c = let all = length-append xs (c ∷ ys) in omega arith

append_pos : (xs ys : List ℕ) → 0 < length xs → 0 < length (xs ++ ys)
append_pos xs ys h = let all = length-append xs ys in omega arith

-- The request line has a blank.
dump_request_pos : (r : HttpRequest) → 0 < length (dump_request r)
unfolding dump_request dump_request_line
dump_request_pos r =
    append_pos (dump_request_line r) _ (length-append_pos (http_method_to_string r.method) _ 32)

-- The client has its address and its socket, and is connected.
abbrev pub IsConnected {ℓ} : {W : Type ℓ} → Dialer W → W → Type 0
IsConnected dial w =
    ((dial.create_address w).0 ≡ true)
    × ((dial.create_tcp (dial.create_address w).1).0 ≡ true)
    × ((dial.connect (dial.create_tcp (dial.create_address w).1).1).0 ≡ true)

-- The state in which it sends.
abbrev pub dialled {ℓ} : {W : Type ℓ} → Dialer W → ℕ → W → W
dialled dial timeout_ms w =
    dial.set_recv_timeout timeout_ms (dial.connect (dial.create_tcp (dial.create_address w).1).1).1

-- A connected client whose stream takes at least one byte each time, and no more than it is given, has the
-- request, of fewer than 2 ^ 31 bytes, written whole, and returns what is received then.
pub do_request-written {ℓ} :
    {W : Type ℓ} (dial : Dialer W) (write : List ℕ → W → Sent × W)
    (recv : W → Result HttpResponse W) (written : W → List ℕ) (timeout_ms : ℕ) (r : HttpRequest)
    (w : W)
    → IsWriter write written
    → IsConnected dial w
    → length (dump_request r) < 2 ^ 31
    → (w' : W) × (do_request dial write recv timeout_ms r w ≡ result_of (recv w'))
      × (written w' ≡ written (dialled dial timeout_ms w) ++ dump_request r)
unfolding do_request exchange send_request
do_request-written dial write recv written timeout_ms r w g (e, e', e'') short =
    let start = dialled dial timeout_ms w in
    let (code, all) = write_fix_size-WroteAll write written g (dump_request r) start short in
    let some_bytes = dump_request_pos r in
    let x : ((write_fix_size write (dump_request r) start).0 == 0) ≡ false =
      rw code (ground arith) in
    let y : leb (2 ^ 31) (write_fix_size write (dump_request r) start).0 ≡ false =
      rw code (lt→leb (2 ^ 31) (length (dump_request r)) short) in
    (
      (write_fix_size write (dump_request r) start).1,
      rw (e, e', e'', x, y, do_request, exchange, send_request) refl,
      all,
    )
