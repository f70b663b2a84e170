-- ===== src/Servlet.antt =====
-- saturn/http/servlet.h and saturn/http/servlet.cc: the tables of a `ServletDispatch` and the search in
-- them. `fnmatch` is the C library's: it tells whether the pattern matches.
pub mod Routes
use saturn.Base.{
  ℕ, Bool, true, false, Option, none, some, List, [], ◌∷◌, ◌++◌, bytes, c_str, equal, if◌then◌else◌,
}
use saturn.Http.Fields.{assign}
use saturn.Http.Messages.{HttpResponse, set_response_header}

-- A servlet: the one of status 404, one of a callback, or a class of the client's.
pub data Servlet : Type 0 where
  not_found : Servlet
  function : ℕ → Servlet
  custom : ℕ → Servlet

-- A `Servlet::ptr` by its path, `none` for a null pointer.
abbrev pub Entries : Type 0
Entries = List (List ℕ × Option Servlet)

-- `datas` has each path once; `globs` are in the order of the vector.
pub record ServletDispatch : Type 0 where
  pub datas : Entries
  pub globs : Entries
  pub default : Option Servlet

-- The constructor.
unfoldable pub new_dispatch : ServletDispatch
new_dispatch = record { datas = []; globs = []; default = some not_found }

-- `find` in a table.
unfoldable pub find_entry : List ℕ → Entries → Option (Option Servlet)
find_entry uri [] = none
find_entry uri ((u, s) ∷ es) = if equal u uri then some s else find_entry uri es

-- `m_datas[uri] = slt`.
unfoldable pub assign_entry : List ℕ → Option Servlet → Entries → Entries
assign_entry uri slt [] = (uri, slt) ∷ []
assign_entry uri slt ((u, s) ∷ es) =
    if equal u uri then (u, slt) ∷ es else (u, s) ∷ assign_entry uri slt es

-- The loop that erases the first entry of the path.
unfoldable pub erase_entry : List ℕ → Entries → Entries
erase_entry uri [] = []
erase_entry uri ((u, s) ∷ es) = if equal u uri then es else (u, s) ∷ erase_entry uri es

unfoldable pub add_servlet : List ℕ → Option Servlet → ServletDispatch → ServletDispatch
add_servlet uri slt d = record d { datas = assign_entry uri slt d.datas }

unfoldable pub add_servlet_function : List ℕ → ℕ → ServletDispatch → ServletDispatch
unfolding add_servlet
add_servlet_function uri cb d = add_servlet uri (some (function cb)) d

unfoldable pub add_glob_servlet : List ℕ → Option Servlet → ServletDispatch → ServletDispatch
add_glob_servlet uri slt d = record d { globs = erase_entry uri d.globs ++ (uri, slt) ∷ [] }

unfoldable pub add_glob_servlet_function : List ℕ → ℕ → ServletDispatch → ServletDispatch
unfolding add_glob_servlet
add_glob_servlet_function uri cb d = add_glob_servlet uri (some (function cb)) d

unfoldable pub del_servlet : List ℕ → ServletDispatch → ServletDispatch
del_servlet uri d = record d { datas = erase_entry uri d.datas }

unfoldable pub del_glob_servlet : List ℕ → ServletDispatch → ServletDispatch
del_glob_servlet uri d = record d { globs = erase_entry uri d.globs }

unfoldable pub set_default : Option Servlet → ServletDispatch → ServletDispatch
set_default v d = record d { default = v }

unfoldable pub get_servlet : List ℕ → ServletDispatch → Option Servlet
get_servlet uri d = elim (find_entry uri d.datas) [ none ↦ none | some s ↦ s ]

unfoldable pub get_glob_servlet : List ℕ → ServletDispatch → Option Servlet
get_glob_servlet uri d = elim (find_entry uri d.globs) [ none ↦ none | some s ↦ s ]

-- The first pattern that matches the path.
unfoldable pub find_glob : (List ℕ → List ℕ → Bool) → List ℕ → Entries → Option (Option Servlet)
find_glob fnmatch uri [] = none
find_glob fnmatch uri ((u, s) ∷ es) =
    if fnmatch (c_str u) (c_str uri) then some s else find_glob fnmatch uri es

unfoldable pub get_matched_servlet :
    (List ℕ → List ℕ → Bool) → List ℕ → ServletDispatch → Option Servlet
get_matched_servlet fnmatch uri d = elim (find_entry uri d.datas) [
  | some s ↦ s
  | none ↦ elim (find_glob fnmatch uri d.globs) [ some s ↦ s | none ↦ d.default ]
]

abbrev pub not_found_body : List ℕ
not_found_body =
    bytes
      "<html><head><title>404 Not Found</title></head><body><center><h1>404 Not Found</h1></center>"
    ++ bytes "<hr><center>saturn/1.0.0</center></body></html>"

-- `NotFoundServlet::handle`.
unfoldable pub handle_not_found : HttpResponse → HttpResponse
unfolding set_response_header
handle_not_found response =
    record (set_response_header (bytes "Content-Type") (bytes "text/html") (
      set_response_header (bytes "Server") (bytes "saturn/1.0.0")
        (record response { status = 404 }))) { body = not_found_body }

-- `ServletDispatch::handle`: the servlet that is called, if any, with `run` for those of the client.
unfoldable pub handle :
    (List ℕ → List ℕ → Bool)
    → (Servlet → HttpResponse → HttpResponse)
    → List ℕ
    → ServletDispatch
    → HttpResponse
    → HttpResponse
unfolding handle_not_found
handle fnmatch run path d response = elim (get_matched_servlet fnmatch path d) [
  | none ↦ response
  | some not_found ↦ handle_not_found response
  | some (function cb) ↦ run (function cb) response
  | some (custom s) ↦ run (custom s) response
]
