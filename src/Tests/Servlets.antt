-- ===== src/Tests/Servlets.antt =====
-- The routes of saturn/http/servlet.cc at concrete inputs.
use saturn.Base.{ℕ, Bool, true, false, some, List, [], ◌∷◌, bytes, equal, if◌then◌else◌}
use saturn.Servlet.{custom, not_found, ServletDispatch}

-- A pattern that begins with `*` matches everything.
abbrev fnmatch : List ℕ → List ℕ → Bool
fnmatch [] s = false
fnmatch (c ∷ cs) s = if equal (c ∷ []) (bytes "*") then true else equal (c ∷ cs) s

abbrev routes : ServletDispatch
routes = record { datas = (bytes "/a", some (custom 1)) ∷ []; globs = []; default = some not_found }
