-- ===== src/StringUtil.antt =====
-- `StringUtil` of saturn/util.cc: URL encoding and decoding, and trimming. A string is the list of its bytes.
pub mod Bytes
pub mod Url
pub mod Trim
pub mod TrimLaws
use saturn.Base.{
  ℕ, zero, suc, ◌+◌, ◌*◌, ◌/◌, ◌%◌, Bool, true, false, ◌&&◌, ◌||◌, not, Option, none, some, List,
  [], ◌∷◌, ◌++◌, reverse, get_elem?, replicate, leb, ◌==◌, if◌then◌else◌,
}
use Prim.Native.Nat.{bit_or, bit_and}

-- The rows of `uri_chars`: the first 128 entries; the others are 0.
abbrev uri_rows : List ℕ
uri_rows =
    replicate 32 0
    ++ (0 ∷ 0 ∷ 0 ∷ 0 ∷ 0 ∷ 0 ∷ 0 ∷ 0 ∷ 0 ∷ 0 ∷ 0 ∷ 0 ∷ 0 ∷ 1 ∷ 1 ∷ 0 ∷ [])
    ++ (1 ∷ 1 ∷ 1 ∷ 1 ∷ 1 ∷ 1 ∷ 1 ∷ 1 ∷ 1 ∷ 1 ∷ 0 ∷ 0 ∷ 0 ∷ 1 ∷ 0 ∷ 0 ∷ [])
    ++ (0 ∷ 1 ∷ 1 ∷ 1 ∷ 1 ∷ 1 ∷ 1 ∷ 1 ∷ 1 ∷ 1 ∷ 1 ∷ 1 ∷ 1 ∷ 1 ∷ 1 ∷ 1 ∷ [])
    ++ (1 ∷ 1 ∷ 1 ∷ 1 ∷ 1 ∷ 1 ∷ 1 ∷ 1 ∷ 1 ∷ 1 ∷ 1 ∷ 0 ∷ 0 ∷ 0 ∷ 0 ∷ 1 ∷ [])
    ++ (0 ∷ 1 ∷ 1 ∷ 1 ∷ 1 ∷ 1 ∷ 1 ∷ 1 ∷ 1 ∷ 1 ∷ 1 ∷ 1 ∷ 1 ∷ 1 ∷ 1 ∷ 1 ∷ [])
    ++ (1 ∷ 1 ∷ 1 ∷ 1 ∷ 1 ∷ 1 ∷ 1 ∷ 1 ∷ 1 ∷ 1 ∷ 1 ∷ 0 ∷ 0 ∷ 0 ∷ 1 ∷ 0 ∷ [])

unfoldable pub uri_chars : List ℕ
uri_chars = uri_rows ++ replicate 128 0

unfoldable pub xdigit_chars : List ℕ
xdigit_chars =
    replicate 48 0
    ++ (0 ∷ 1 ∷ 2 ∷ 3 ∷ 4 ∷ 5 ∷ 6 ∷ 7 ∷ 8 ∷ 9 ∷ 0 ∷ 0 ∷ 0 ∷ 0 ∷ 0 ∷ 0 ∷ [])
    ++ (0 ∷ 10 ∷ 11 ∷ 12 ∷ 13 ∷ 14 ∷ 15 ∷ 0 ∷ 0 ∷ 0 ∷ 0 ∷ 0 ∷ 0 ∷ 0 ∷ 0 ∷ 0 ∷ [])
    ++ replicate 16 0
    ++ (0 ∷ 10 ∷ 11 ∷ 12 ∷ 13 ∷ 14 ∷ 15 ∷ 0 ∷ 0 ∷ 0 ∷ 0 ∷ 0 ∷ 0 ∷ 0 ∷ 0 ∷ 0 ∷ [])
    ++ replicate 144 0

-- An entry of a table of 256; a byte has one.
abbrev pub entry : List ℕ → ℕ → ℕ
entry table c = elim (get_elem? table c) [ none ↦ 0 | some x ↦ x ]

-- `CHAR_IS_UNRESERVED`.
unfoldable pub char_is_unreserved : ℕ → Bool
char_is_unreserved c = not (entry uri_chars c == 0)

-- `hexdigits[i]`, of "0123456789ABCDEF".
unfoldable pub hexdigits : ℕ → ℕ
hexdigits i = if leb i 9 then 48 + i else 55 + i

unfoldable pub isxdigit : ℕ → Bool
isxdigit c = (leb 48 c && leb c 57) || (leb 65 c && leb c 70) || (leb 97 c && leb c 102)

-- The new string once there is one, begun with what was read before.
abbrev pub started : List ℕ → Option (List ℕ) → List ℕ
started before none = before
started before (some ss) = ss

-- `else if(ss) ss->append(1, *c)`.
abbrev pub append_if : Option (List ℕ) → ℕ → Option (List ℕ)
append_if none c = none
append_if (some ss) c = some (ss ++ c ∷ [])

-- What stands for a reserved character.
unfoldable pub escape : Bool → ℕ → List ℕ
escape space_as_plus c =
    if (c == 32) && space_as_plus
    then 43 ∷ []
    else 37 ∷ hexdigits (c / 16) ∷ hexdigits (bit_and c 0xf) ∷ []

unfoldable pub url_encode_step : Bool → List ℕ → Option (List ℕ) → ℕ → Option (List ℕ)
url_encode_step space_as_plus before ss c =
    if not (char_is_unreserved c)
    then some (started before ss ++ escape space_as_plus c)
    else append_if ss c

-- The loop over the characters; `before` are those that it has passed.
unfoldable pub url_encode_loop : Bool → List ℕ → Option (List ℕ) → List ℕ → Option (List ℕ)
url_encode_loop space_as_plus before ss [] = ss
url_encode_loop space_as_plus before ss (c ∷ cs) =
    url_encode_loop space_as_plus (before ++ c ∷ []) (url_encode_step space_as_plus before ss c) cs

unfoldable pub url_encode : List ℕ → Bool → List ℕ
url_encode str space_as_plus = started str (url_encode_loop space_as_plus [] none str)

-- `(c + 2) < end && isxdigit(*(c + 1)) && isxdigit(*(c + 2))`.
unfoldable pub two_xdigits : List ℕ → Bool
two_xdigits [] = false
two_xdigits (h ∷ []) = false
two_xdigits (h ∷ l ∷ cs) = isxdigit h && isxdigit l

-- `(char)(xdigit_chars[(int)*(c + 1)] << 4 | xdigit_chars[(int)*(c + 2)])`.
unfoldable pub unescape : List ℕ → ℕ
unescape [] = 0
unescape (h ∷ []) = 0
unescape (h ∷ l ∷ cs) = bit_or (entry xdigit_chars h * 16) (entry xdigit_chars l) % 256

-- The new string, and the number of characters that `c += 2` skips.
unfoldable pub url_decode_step : Bool → List ℕ → Option (List ℕ) → ℕ → List ℕ → Option (List ℕ) × ℕ
url_decode_step space_as_plus before ss c cs =
    if (c == 43) && space_as_plus
    then (some (started before ss ++ 32 ∷ []), 0)
    else if (c == 37) && two_xdigits cs
    then (some (started before ss ++ unescape cs ∷ []), 2)
    else (append_if ss c, 0)

unfoldable pub url_decode_loop : Bool → List ℕ → Option (List ℕ) → ℕ → List ℕ → Option (List ℕ)
url_decode_loop space_as_plus before ss skip [] = ss
url_decode_loop space_as_plus before ss (suc skip) (c ∷ cs) =
    url_decode_loop space_as_plus (before ++ c ∷ []) ss skip cs
url_decode_loop space_as_plus before ss zero (c ∷ cs) =
    let r = url_decode_step space_as_plus before ss c cs in
    url_decode_loop space_as_plus (before ++ c ∷ []) (r.0) (r.1) cs

unfoldable pub url_decode : List ℕ → Bool → List ℕ
url_decode str space_as_plus = started str (url_decode_loop space_as_plus [] none 0 str)
