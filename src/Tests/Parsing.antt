-- ===== src/Tests/Parsing.antt =====
-- The callbacks of saturn/http/http_parser.cc at concrete inputs.
use saturn.Base.{ℕ, ◌≡◌, refl, List, [], ◌∷◌, bytes}
use saturn.Http.{chars_to_http_method}
use saturn.Http.Parser.{
  RequestEvent, method_found, path_found, version_found, field_found, new_request_parser,
  on_request, on_requests, on_request_method, on_request_path, strncmp_equal,
}

abbrev line : List ℕ
line = bytes "PUT /a HTTP/1.0"

abbrev events : List RequestEvent
events =
    method_found line 3
    ∷ path_found (bytes "/a HTTP/1.0") 2
    ∷ version_found (bytes "HTTP/1.0") 8
    ∷ field_found (bytes "host: b") 4 (bytes "b") 1
    ∷ []

-- A version that is cut short is taken.
strncmp_equal_run :
    strncmp_equal 6 (bytes "HTTP/1") (bytes "HTTP/1.1")
    ≡ strncmp_equal 8 (bytes "HTTP/1.1") (bytes "HTTP/1.1")
unfolding strncmp_equal
strncmp_equal_run = refl

on_requests_run :
    (on_requests
      (method_found (bytes "GOT /") 3 ∷ path_found (bytes "/a ") 2 ∷ [])
      new_request_parser).error
    ≡ 1000
unfolding on_requests on_request on_request_method on_request_path chars_to_http_method
    new_request_parser
on_requests_run = refl
