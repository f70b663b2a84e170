-- ===== src/Http/Parser.antt =====
-- The callbacks of saturn/http/http_parser.cc, which the parser of saturn/http/external calls. A text is what
-- stands from `at` on, with the length that the parser has found.
use saturn.Base.{
  ℕ, zero, suc, Bool, true, false, not, ◌||◌, List, [], ◌∷◌, bytes, take, ◌==◌, if◌then◌else◌,
}
use saturn.Http.{chars_to_http_method, invalid_method}
use saturn.Http.Messages.{
  HttpRequest, HttpResponse, new_request, new_response, set_header, set_response_header,
}

-- `error` is `m_error`: 0, or 1000 for the method, 1001 for the version and 1002 for a field.
pub record HttpRequestParser : Type 0 where
  pub message : HttpRequest
  pub error : ℕ

pub record HttpResponseParser : Type 0 where
  pub message : HttpResponse
  pub error : ℕ

-- `strncmp(a, b, n) == 0`; a list ends with a 0 that is not written.
unfoldable pub strncmp_equal : ℕ → List ℕ → List ℕ → Bool
strncmp_equal zero a b = true
strncmp_equal (suc n) [] [] = true
strncmp_equal (suc n) [] (b ∷ bs) = b == 0
strncmp_equal (suc n) (a ∷ as') [] = a == 0
strncmp_equal (suc n) (a ∷ as') (b ∷ bs) =
    let rest = strncmp_equal n as' bs in if a == b then (if a == 0 then true else rest) else false

unfoldable pub new_request_parser : HttpRequestParser
unfolding new_request
new_request_parser = record { message = new_request 0x11 true; error = 0 }

unfoldable pub new_response_parser : Bool → HttpResponseParser
unfolding new_response
new_response_parser memory = record { message = new_response memory 0x11 true; error = 0 }

unfoldable pub on_request_method : List ℕ → ℕ → HttpRequestParser → HttpRequestParser
on_request_method at length p =
    let m = chars_to_http_method at in
    if m == invalid_method
    then record p { error = 1000 }
    else record p { message = record p.message { method = m } }

unfoldable pub on_request_fragment : List ℕ → ℕ → HttpRequestParser → HttpRequestParser
on_request_fragment at length p = record p {
  message = record p.message { fragment = take length at };
}

unfoldable pub on_request_path : List ℕ → ℕ → HttpRequestParser → HttpRequestParser
on_request_path at length p = record p { message = record p.message { path = take length at } }

unfoldable pub on_request_query : List ℕ → ℕ → HttpRequestParser → HttpRequestParser
on_request_query at length p = record p { message = record p.message { query = take length at } }

unfoldable pub on_request_version : List ℕ → ℕ → HttpRequestParser → HttpRequestParser
on_request_version at length p =
    if strncmp_equal length at (bytes "HTTP/1.1")
    then record p { message = record p.message { version = 0x11 } }
    else if strncmp_equal length at (bytes "HTTP/1.0")
    then record p { message = record p.message { version = 0x10 } }
    else record p { error = 1001 }

unfoldable pub on_request_http_field :
    List ℕ → ℕ → List ℕ → ℕ → HttpRequestParser → HttpRequestParser
unfolding set_header
on_request_http_field field flen value vlen p =
    if flen == 0
    then record p { error = 1002 }
    else record p { message = set_header (take flen field) (take vlen value) p.message }

-- A call of the parser; the callbacks of the whole URI and of the end of the header do nothing.
pub data RequestEvent : Type 0 where
  method_found uri_found fragment_found path_found query_found version_found header_done :
      (at : List ℕ) (length : ℕ) → RequestEvent
  field_found : (field : List ℕ) (flen : ℕ) (value : List ℕ) (vlen : ℕ) → RequestEvent

unfoldable pub on_request : RequestEvent → HttpRequestParser → HttpRequestParser
on_request (method_found at length) p = on_request_method at length p
on_request (uri_found at length) p = p
on_request (fragment_found at length) p = on_request_fragment at length p
on_request (path_found at length) p = on_request_path at length p
on_request (query_found at length) p = on_request_query at length p
on_request (version_found at length) p = on_request_version at length p
on_request (header_done at length) p = p
on_request (field_found field flen value vlen) p = on_request_http_field field flen value vlen p

-- `execute`, by the calls that the parser makes.
unfoldable pub on_requests : List RequestEvent → HttpRequestParser → HttpRequestParser
on_requests [] p = p
on_requests (e ∷ es) p = on_requests es (on_request e p)

-- `hasError`, with what the parser itself says.
unfoldable pub has_error : Bool → HttpRequestParser → Bool
has_error parser_error p = not (p.error == 0) || parser_error

unfoldable pub on_response_reason : List ℕ → ℕ → HttpResponseParser → HttpResponseParser
on_response_reason at length p = record p { message = record p.message { reason = take length at } }

-- `atoi` is the C library's.
unfoldable pub on_response_status :
    (List ℕ → ℕ) → List ℕ → ℕ → HttpResponseParser → HttpResponseParser
on_response_status atoi at length p = record p { message = record p.message { status = atoi at } }

unfoldable pub on_response_version : List ℕ → ℕ → HttpResponseParser → HttpResponseParser
on_response_version at length p =
    if strncmp_equal length at (bytes "HTTP/1.1")
    then record p { message = record p.message { version = 0x11 } }
    else if strncmp_equal length at (bytes "HTTP/1.0")
    then record p { message = record p.message { version = 0x10 } }
    else record p { error = 1001 }

unfoldable pub on_response_http_field :
    List ℕ → ℕ → List ℕ → ℕ → HttpResponseParser → HttpResponseParser
unfolding set_response_header
on_response_http_field field flen value vlen p =
    if flen == 0
    then p
    else record p { message = set_response_header (take flen field) (take vlen value) p.message }
