-- ===== src/Http.antt =====
-- The methods and statuses of saturn/http/http.h, and their conversions in saturn/http/http.cc. A method
-- or a status is its number.
pub mod Methods
pub mod Fields
pub mod FieldLaws
pub mod Messages
pub mod Params
pub mod Parser
pub mod Receive
pub mod ReceiveLaws
pub mod HeadLaws
pub mod BodyReads
pub mod BodyLaws
pub mod Chunks
pub mod ChunkLaws
pub mod Requests
pub mod RequestLaws
pub mod Server
pub mod ServerLaws
pub mod Pool
pub mod PoolLaws
pub mod ParamLaws
pub mod DumpLaws
use saturn.Base.{
  ℕ, List, [], ◌∷◌, Option, none, some, bytes, c_str, equal, starts, leb, length, get_elem?, map,
  ◌==◌, if◌then◌else◌,
}

-- `HTTP_METHOD_MAP`: the number and the text of each method.
unfoldable pub http_method_map : List (ℕ × List ℕ)
http_method_map =
    (0, bytes "DELETE")
    ∷ (1, bytes "GET")
    ∷ (2, bytes "HEAD")
    ∷ (3, bytes "POST")
    ∷ (4, bytes "PUT")
    ∷ (5, bytes "CONNECT")
    ∷ (6, bytes "OPTIONS")
    ∷ (7, bytes "TRACE")
    ∷ (8, bytes "COPY")
    ∷ (9, bytes "LOCK")
    ∷ (10, bytes "MKCOL")
    ∷ (11, bytes "MOVE")
    ∷ (12, bytes "PROPFIND")
    ∷ (13, bytes "PROPPATCH")
    ∷ (14, bytes "SEARCH")
    ∷ (15, bytes "UNLOCK")
    ∷ (16, bytes "BIND")
    ∷ (17, bytes "REBIND")
    ∷ (18, bytes "UNBIND")
    ∷ (19, bytes "ACL")
    ∷ (20, bytes "REPORT")
    ∷ (21, bytes "MKACTIVITY")
    ∷ (22, bytes "CHECKOUT")
    ∷ (23, bytes "MERGE")
    ∷ (24, bytes "M-SEARCH")
    ∷ (25, bytes "NOTIFY")
    ∷ (26, bytes "SUBSCRIBE")
    ∷ (27, bytes "UNSUBSCRIBE")
    ∷ (28, bytes "PATCH")
    ∷ (29, bytes "PURGE")
    ∷ (30, bytes "MKCALENDAR")
    ∷ (31, bytes "LINK")
    ∷ (32, bytes "UNLINK")
    ∷ (33, bytes "SOURCE")
    ∷ []

-- `HTTP_STATUS_MAP`: the code and the message of each status.
unfoldable pub http_status_map : List (ℕ × List ℕ)
http_status_map =
    (100, bytes "Continue")
    ∷ (101, bytes "Switching Protocols")
    ∷ (102, bytes "Processing")
    ∷ (200, bytes "OK")
    ∷ (201, bytes "Created")
    ∷ (202, bytes "Accepted")
    ∷ (203, bytes "Non-Authoritative Information")
    ∷ (204, bytes "No Content")
    ∷ (205, bytes "Reset Content")
    ∷ (206, bytes "Partial Content")
    ∷ (207, bytes "Multi-Status")
    ∷ (208, bytes "Already Reported")
    ∷ (226, bytes "IM Used")
    ∷ (300, bytes "Multiple Choices")
    ∷ (301, bytes "Moved Permanently")
    ∷ (302, bytes "Found")
    ∷ (303, bytes "See Other")
    ∷ (304, bytes "Not Modified")
    ∷ (305, bytes "Use Proxy")
    ∷ (307, bytes "Temporary Redirect")
    ∷ (308, bytes "Permanent Redirect")
    ∷ (400, bytes "Bad Request")
    ∷ (401, bytes "Unauthorized")
    ∷ (402, bytes "Payment Required")
    ∷ (403, bytes "Forbidden")
    ∷ (404, bytes "Not Found")
    ∷ (405, bytes "Method Not Allowed")
    ∷ (406, bytes "Not Acceptable")
    ∷ (407, bytes "Proxy Authentication Required")
    ∷ (408, bytes "Request Timeout")
    ∷ (409, bytes "Conflict")
    ∷ (410, bytes "Gone")
    ∷ (411, bytes "Length Required")
    ∷ (412, bytes "Precondition Failed")
    ∷ (413, bytes "Payload Too Large")
    ∷ (414, bytes "URI Too Long")
    ∷ (415, bytes "Unsupported Media Type")
    ∷ (416, bytes "Range Not Satisfiable")
    ∷ (417, bytes "Expectation Failed")
    ∷ (421, bytes "Misdirected Request")
    ∷ (422, bytes "Unprocessable Entity")
    ∷ (423, bytes "Locked")
    ∷ (424, bytes "Failed Dependency")
    ∷ (426, bytes "Upgrade Required")
    ∷ (428, bytes "Precondition Required")
    ∷ (429, bytes "Too Many Requests")
    ∷ (431, bytes "Request Header Fields Too Large")
    ∷ (451, bytes "Unavailable For Legal Reasons")
    ∷ (500, bytes "Internal Server Error")
    ∷ (501, bytes "Not Implemented")
    ∷ (502, bytes "Bad Gateway")
    ∷ (503, bytes "Service Unavailable")
    ∷ (504, bytes "Gateway Timeout")
    ∷ (505, bytes "HTTP Version Not Supported")
    ∷ (506, bytes "Variant Also Negotiates")
    ∷ (507, bytes "Insufficient Storage")
    ∷ (508, bytes "Loop Detected")
    ∷ (510, bytes "Not Extended")
    ∷ (511, bytes "Network Authentication Required")
    ∷ []

-- `HttpMethod::INVALID_METHOD`, which follows the others.
abbrev pub invalid_method : ℕ
invalid_method = 34

unfoldable pub find_method : List (ℕ × List ℕ) → List ℕ → ℕ
find_method [] m = invalid_method
find_method ((n, s) ∷ rows) m = if equal s (c_str m) then n else find_method rows m

unfoldable pub string_to_http_method : List ℕ → ℕ
unfolding find_method http_method_map
string_to_http_method m = find_method http_method_map m

unfoldable pub find_prefix : List (ℕ × List ℕ) → List ℕ → ℕ
find_prefix [] m = invalid_method
find_prefix ((n, s) ∷ rows) m = if starts s m then n else find_prefix rows m

unfoldable pub chars_to_http_method : List ℕ → ℕ
unfolding find_prefix http_method_map
chars_to_http_method m = find_prefix http_method_map m

abbrev pub unknown : List ℕ
unknown = bytes "<unknown>"

-- `s_method_string`.
unfoldable pub method_string : List (List ℕ)
unfolding http_method_map
method_string = map (λ row. row.1) http_method_map

unfoldable pub http_method_to_string : ℕ → List ℕ
unfolding method_string
http_method_to_string m = elim (get_elem? method_string m) [ none ↦ unknown | some s ↦ s ]

unfoldable pub find_status : List (ℕ × List ℕ) → ℕ → List ℕ
find_status [] s = unknown
find_status ((code, msg) ∷ rows) s = if s == code then msg else find_status rows s

unfoldable pub http_status_to_string : ℕ → List ℕ
unfolding find_status http_status_map
http_status_to_string s = find_status http_status_map s
