-- ===== src/Http/Params.antt =====
-- The parameters of a query, of a body and of cookies: `PARSE_PARAM` and the functions that use it in
-- saturn/http/http.cc.
use saturn.Base.{
  ℕ, zero, suc, Bool, true, false, ◌||◌, Option, none, some, List, [], ◌∷◌, bytes, c_str, starts,
  tolower, map, length, ◌==◌, if◌then◌else◌,
}
use saturn.StringUtil.{url_decode}
use saturn.StringUtil.Trim.{trim}
use saturn.Http.Fields.{MapType, insert_new, get_field}
use saturn.Http.Messages.{HttpRequest}

-- `find(c, pos)` on what stands from `pos` on: what is before the character and what is behind it.
unfoldable pub split_at : ℕ → List ℕ → Option (List ℕ × List ℕ)
split_at c [] = none
split_at c (x ∷ xs) =
    if x == c
    then some ([], xs)
    else elim (split_at c xs) [ none ↦ none | some (before, behind) ↦ some (x ∷ before, behind) ]

-- The pair that one round inserts.
unfoldable pub insert_param : (List ℕ → List ℕ) → List ℕ → List ℕ → MapType → MapType
insert_param trimmed key value m = insert_new (trimmed key) (url_decode value true) m

-- `PARSE_PARAM` on what stands from `pos` on, in `fuel` rounds.
unfoldable pub parse_param : ℕ → (List ℕ → List ℕ) → ℕ → List ℕ → MapType → MapType
parse_param flag trimmed zero str m = m
parse_param flag trimmed (suc fuel) str m = elim (split_at 61 str) [
  | none ↦ m
  | some (key, rest) ↦ elim (split_at flag rest) [
    | none ↦ insert_param trimmed key rest m
    | some (value, more) ↦ parse_param flag trimmed fuel more (insert_param trimmed key value m)
  ]
]

-- Each round passes a character, so as many rounds as characters are enough.
unfoldable pub parse_params : ℕ → (List ℕ → List ℕ) → List ℕ → MapType → MapType
parse_params flag trimmed str m = parse_param flag trimmed (length str) str m

unfoldable pub init_query_param : HttpRequest → HttpRequest
init_query_param r =
    if r.query_done
    then r
    else record r { params = parse_params 38 (λ key. key) r.query r.params; query_done = true }

-- `strcasestr(hay, needle) != nullptr`, for a needle that is not empty.
unfoldable pub contains_nocase : List ℕ → List ℕ → Bool
contains_nocase [] needle = false
contains_nocase (c ∷ cs) needle =
    starts (map tolower needle) (map tolower (c ∷ cs)) || contains_nocase cs needle

abbrev pub form : List ℕ
form = bytes "application/x-www-form-urlencoded"

unfoldable pub init_body_param : HttpRequest → HttpRequest
init_body_param r =
    if r.body_done
    then r
    else if contains_nocase (c_str (get_field r.headers (bytes "content-type") [])) form
    then record r { params = parse_params 38 (λ key. key) r.body r.params; body_done = true }
    else record r { body_done = true }

abbrev pub blanks : List ℕ
blanks = 32 ∷ 9 ∷ 13 ∷ 10 ∷ []

unfoldable pub init_cookies : HttpRequest → HttpRequest
init_cookies r = if r.cookies_done then r else elim (get_field r.headers (bytes "cookie") []) [
  | [] ↦ record r { cookies_done = true }
  | c ∷ cs ↦ record r {
    cookies = parse_params 59 (λ key. trim key blanks) (c ∷ cs) r.cookies;
    cookies_done = true;
  }
]

unfoldable pub init_param : HttpRequest → HttpRequest
init_param r = init_cookies (init_body_param (init_query_param r))
