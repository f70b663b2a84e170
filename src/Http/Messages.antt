-- ===== src/Http/Messages.antt =====
-- `HttpRequest` and `HttpResponse` of saturn/http/http.h and saturn/http/http.cc.
use saturn.Base.{
  ℕ, zero, suc, ◌+◌, ◌/◌, ◌%◌, Bool, true, false, not, List, [], ◌∷◌, ◌++◌, bytes, length, ltb,
  if◌then◌else◌,
}
use saturn.Http.{http_method_to_string, http_status_to_string}
use saturn.Http.Fields.{MapType, same_key, assign, erase, get_field}

-- `query_done`, `body_done` and `cookies_done` are the bits 0x1, 0x2 and 0x4 of `m_parserParamFlag`.
pub record HttpRequest : Type 0 where
  pub method : ℕ
  pub version : ℕ
  pub close : Bool
  pub websocket : Bool
  pub query_done : Bool
  pub body_done : Bool
  pub cookies_done : Bool
  pub path : List ℕ
  pub query : List ℕ
  pub fragment : List ℕ
  pub body : List ℕ
  pub headers : MapType
  pub params : MapType
  pub cookies : MapType

-- The constructor leaves `m_websocket` as the memory has it.
pub record HttpResponse : Type 0 where
  pub status : ℕ
  pub version : ℕ
  pub close : Bool
  pub websocket : Bool
  pub body : List ℕ
  pub reason : List ℕ
  pub headers : MapType

unfoldable pub new_request : ℕ → Bool → HttpRequest
new_request version close = record {
  method = 1;
  version = version;
  close = close;
  websocket = false;
  query_done = false;
  body_done = false;
  cookies_done = false;
  path = bytes "/";
  query = [];
  fragment = [];
  body = [];
  headers = [];
  params = [];
  cookies = [];
}

unfoldable pub new_response : Bool → ℕ → Bool → HttpResponse
new_response memory version close = record {
  status = 200;
  version = version;
  close = close;
  websocket = memory;
  body = [];
  reason = [];
  headers = [];
}

unfoldable pub create_response : Bool → HttpRequest → HttpResponse
unfolding new_response
create_response memory r = new_response memory r.version r.close

unfoldable pub set_header : List ℕ → List ℕ → HttpRequest → HttpRequest
set_header key val r = record r { headers = assign key val r.headers }

unfoldable pub set_param : List ℕ → List ℕ → HttpRequest → HttpRequest
set_param key val r = record r { params = assign key val r.params }

unfoldable pub set_cookie : List ℕ → List ℕ → HttpRequest → HttpRequest
set_cookie key val r = record r { cookies = assign key val r.cookies }

unfoldable pub del_header : List ℕ → HttpRequest → HttpRequest
del_header key r = record r { headers = erase key r.headers }

unfoldable pub del_param : List ℕ → HttpRequest → HttpRequest
del_param key r = record r { params = erase key r.params }

unfoldable pub del_cookie : List ℕ → HttpRequest → HttpRequest
del_cookie key r = record r { cookies = erase key r.cookies }

-- The functions of the response on its headers.
unfoldable pub set_response_header : List ℕ → List ℕ → HttpResponse → HttpResponse
set_response_header key val r = record r { headers = assign key val r.headers }

unfoldable pub del_response_header : List ℕ → HttpResponse → HttpResponse
del_response_header key r = record r { headers = erase key r.headers }

-- A number as the stream prints it.
unfoldable pub decimal_loop : ℕ → ℕ → List ℕ → List ℕ
decimal_loop zero n acc = acc
decimal_loop (suc f) n acc = elim (ltb n 10) [
  | true ↦ (48 + n) ∷ acc
  | false ↦ decimal_loop f (n / 10) ((48 + n % 10) ∷ acc)
]

unfoldable pub decimal : ℕ → List ℕ
unfolding decimal_loop
decimal n = decimal_loop (suc n) n []

abbrev pub crlf : List ℕ
crlf = 13 ∷ 10 ∷ []

abbrev pub connection : List ℕ
connection = bytes "connection"

-- `strcasecmp(a, b) == 0`.
abbrev pub nocase_equal : List ℕ → List ℕ → Bool
nocase_equal a b = same_key a b

-- The lines of the headers but the one of the connection, where `sep` stands between name and value.
unfoldable pub dump_headers : List ℕ → MapType → List ℕ
dump_headers sep [] = []
dump_headers sep ((k, v) ∷ m) =
    (if nocase_equal k connection then [] else k ++ (sep ++ (v ++ crlf))) ++ dump_headers sep m

unfoldable pub dump_connection : Bool → List ℕ
dump_connection close =
    bytes "connection: " ++ ((if close then bytes "close" else bytes "keep-alive") ++ crlf)

unfoldable pub dump_body : List ℕ → List ℕ
unfolding decimal
dump_body [] = crlf
dump_body (b ∷ bs) =
    bytes "content-length: " ++ (decimal (length (b ∷ bs)) ++ (crlf ++ (crlf ++ b ∷ bs)))

-- `(m_query.empty() ? "" : "?") << m_query`, and the same for the fragment.
abbrev pub marked : ℕ → List ℕ → List ℕ
marked c [] = []
marked c (x ∷ xs) = c ∷ x ∷ xs

unfoldable pub dump_version : ℕ → List ℕ
unfolding decimal
dump_version v = decimal (v / 16) ++ 46 ∷ decimal (v % 16)

unfoldable pub dump_request_line : HttpRequest → List ℕ
unfolding dump_version
dump_request_line r =
    http_method_to_string r.method
    ++ (32 ∷ r.path
        ++ (marked 63 r.query
            ++ (marked 35 r.fragment ++ (bytes " HTTP/" ++ (dump_version r.version ++ crlf)))))

unfoldable pub dump_request : HttpRequest → List ℕ
unfolding dump_request_line dump_connection dump_headers dump_body
dump_request r =
    dump_request_line r
    ++ (dump_connection r.close ++ (dump_headers (bytes ":") r.headers ++ dump_body r.body))

unfoldable pub dump_status_line : HttpResponse → List ℕ
unfolding dump_version decimal
dump_status_line r =
    bytes "HTTP/"
    ++ (dump_version r.version
        ++ (32 ∷ decimal r.status
            ++ (32 ∷ elim r.reason [ [] ↦ http_status_to_string r.status | c ∷ cs ↦ c ∷ cs ]
                ++ crlf)))

unfoldable pub dump_response : HttpResponse → List ℕ
unfolding dump_status_line dump_connection dump_headers dump_body
dump_response r =
    dump_status_line r
    ++ (dump_headers (bytes ": ") r.headers ++ (dump_connection r.close ++ dump_body r.body))

-- `HttpRequest::init`.
unfoldable pub init : HttpRequest → HttpRequest
init r = elim (get_field r.headers connection []) [
  | [] ↦ r
  | c ∷ cs ↦ record r { close = not (nocase_equal (c ∷ cs) (bytes "keep-alive")) }
]
