-- ===== src/StringUtil/Url.antt =====
-- URL encoding and decoding of saturn/util.cc against each other.
use mathlib.Core.List.{append_assoc, append-nil}
use saturn.Base.{
  ℕ, ◌<◌, ◌≡◌, inl, inr, refl, sym, ap, ap₂, subst, ◌∙◌, Bool, true, ◌&&◌, not, Option, none, some,
  List, [], ◌∷◌, ◌++◌, All, ◌==◌, ==_iff, if◌then◌else◌, Bool-cases,
}
use saturn.StringUtil.{
  char_is_unreserved, isxdigit, started, append_if, escape, url_encode_step, url_encode_loop,
  url_encode, two_xdigits, unescape, url_decode_step, url_decode_loop, url_decode,
}
use saturn.StringUtil.Bytes.{
  and_left, and_right, not-true, all_below-at, byte_plain, plain, high_test, low_test, value_test,
  bytes_table,
}

-- What becomes of one character.
abbrev pub encoded : Bool → ℕ → List ℕ
encoded plus c = if not (char_is_unreserved c) then escape plus c else c ∷ []

-- The characters one by one.
abbrev pub encoded_all : Bool → List ℕ → List ℕ
encoded_all plus [] = []
encoded_all plus (c ∷ cs) = encoded plus c ++ encoded_all plus cs

started-append_if :
    (before : List ℕ) (ss : Option (List ℕ)) (c : ℕ)
    → started (before ++ c ∷ []) (append_if ss c) ≡ started before ss ++ c ∷ []
started-append_if before none c = refl
started-append_if before (some ss) c = refl

started-url_encode_step :
    (plus : Bool) (before : List ℕ) (ss : Option (List ℕ)) (c : ℕ)
    → started (before ++ c ∷ []) (url_encode_step plus before ss c)
      ≡ started before ss ++ encoded plus c
unfolding url_encode_step
started-url_encode_step plus before ss c = elim (Bool-cases (not (char_is_unreserved c))) [
  | inl e ↦ rw (e, url_encode_step) refl
  | inr e ↦ rw (e, url_encode_step) (started-append_if before ss c)
]

started-url_encode_loop :
    (plus : Bool) (before : List ℕ) (ss : Option (List ℕ)) (cs : List ℕ)
    → started (before ++ cs) (url_encode_loop plus before ss cs)
      ≡ started before ss ++ encoded_all plus cs
unfolding url_encode_loop
started-url_encode_loop plus before ss [] =
    ap (λ b. started b ss) (append-nil before) ∙ sym (append-nil (started before ss))
started-url_encode_loop plus before ss (c ∷ cs) =
    ap
      (λ b.
        started b (url_encode_loop plus (before ++ c ∷ []) (url_encode_step plus before ss c) cs))
      (sym (append_assoc before (c ∷ []) cs))
    ∙ started-url_encode_loop plus (before ++ c ∷ []) (url_encode_step plus before ss c) cs
    ∙ ap (λ t. t ++ encoded_all plus cs) (started-url_encode_step plus before ss c)
    ∙ append_assoc (started before ss) (encoded plus c) (encoded_all plus cs)

-- `UrlEncode`, which begins a new string only at the first character to escape, is the escaping of the
-- characters one by one.
pub url_encode_lem : (str : List ℕ) (plus : Bool) → url_encode str plus ≡ encoded_all plus str
unfolding url_encode
url_encode_lem str plus = started-url_encode_loop plus [] none str

-- What the decoding of one encoded character comes to.
abbrev Decoded : Bool → List ℕ → Option (List ℕ) → ℕ → List ℕ → List ℕ → Type 0
Decoded plus before ss c code rest =
    (ss' : Option (List ℕ)) × (url_decode_loop plus before ss 0 (code ++ rest)
      ≡ url_decode_loop plus (before ++ code) ss' 0 rest)
    × (started (before ++ code) ss' ≡ started before ss ++ c ∷ [])

step-plain :
    (plus : Bool) (before : List ℕ) (ss : Option (List ℕ)) (c : ℕ) (cs : List ℕ)
    → plain c ≡ true
    → url_decode_step plus before ss c cs ≡ (append_if ss c, 0)
unfolding url_decode_step
step-plain plus before ss c cs p =
    rw (not-true (c == 43) (and_right (not (c == 37)) _ p), url_decode_step)
      (rw (not-true (c == 37) (and_left (not (c == 37)) _ p), url_decode_step) refl)

Decoded-plain :
    (plus : Bool) (before : List ℕ) (ss : Option (List ℕ)) (c : ℕ) (rest : List ℕ)
    → plain c ≡ true
    → Decoded plus before ss c (c ∷ []) rest
unfolding url_decode_loop
Decoded-plain plus before ss c rest p = (
  append_if ss c,
  ap (λ (r : Option (List ℕ) × ℕ). url_decode_loop plus (before ++ c ∷ []) r.0 r.1 rest)
      (step-plain plus before ss c rest p),
  started-append_if before ss c,
)

step-escape :
    (plus : Bool) (before : List ℕ) (ss : Option (List ℕ)) (c h l : ℕ) (rest : List ℕ)
    → isxdigit h ≡ true
    → isxdigit l ≡ true
    → unescape (h ∷ l ∷ []) ≡ c
    → url_decode_step plus before ss 37 (h ∷ l ∷ rest) ≡ (some (started before ss ++ c ∷ []), 2)
unfolding url_decode_step two_xdigits unescape
step-escape plus before ss c h l rest xh xl u =
    rw xh (rw xl (ap (λ (k : ℕ). (some (started before ss ++ k ∷ []), 2)) u))

Decoded-escape :
    (plus : Bool) (before : List ℕ) (ss : Option (List ℕ)) (c h l : ℕ) (rest : List ℕ)
    → isxdigit h ≡ true
    → isxdigit l ≡ true
    → unescape (h ∷ l ∷ []) ≡ c
    → Decoded plus before ss c (37 ∷ h ∷ l ∷ []) rest
unfolding url_decode_loop
Decoded-escape plus before ss c h l rest xh xl u = (
  some (started before ss ++ c ∷ []),
  ap (λ (r : Option (List ℕ) × ℕ). url_decode_loop plus (before ++ 37 ∷ []) r.0 r.1 (h ∷ l ∷ rest))
        (step-escape plus before ss c h l rest xh xl u)
      ∙ ap (λ b. url_decode_loop plus b (some (started before ss ++ c ∷ [])) 0 rest)
          (append_assoc (before ++ 37 ∷ []) (h ∷ []) (l ∷ [])
            ∙ append_assoc before (37 ∷ []) (h ∷ l ∷ [])),
  refl,
)

Decoded-space :
    (before : List ℕ) (ss : Option (List ℕ)) (rest : List ℕ)
    → Decoded true before ss 32 (43 ∷ []) rest
unfolding url_decode_loop url_decode_step
Decoded-space before ss rest = (some (started before ss ++ 32 ∷ []), refl, refl)

Decoded-reserved :
    (plus : Bool) (before : List ℕ) (ss : Option (List ℕ)) (c : ℕ) (rest : List ℕ)
    → c < 256
    → Decoded plus before ss c (escape plus c) rest
unfolding escape
Decoded-reserved plus before ss c rest h = elim (Bool-cases ((c == 32) && plus)) [
  | inl e ↦
      rw (e, escape)
        (subst (λ (k : ℕ). Decoded plus before ss k (43 ∷ []) rest)
          (sym ((==_iff c 32).0 (and_left (c == 32) plus e)))
          (subst (λ (b : Bool). Decoded b before ss 32 (43 ∷ []) rest)
            (sym (and_right (c == 32) plus e)) (Decoded-space before ss rest)))
  | inr e ↦
      rw (e, escape)
        (Decoded-escape plus before ss c _ _ rest (all_below-at 256 high_test c bytes_table.1 h)
          (all_below-at 256 low_test c bytes_table.2 h)
          ((==_iff _ c).0 (all_below-at 256 value_test c bytes_table.3 h)))
]

Decoded-encoded :
    (plus : Bool) (before : List ℕ) (ss : Option (List ℕ)) (c : ℕ) (rest : List ℕ)
    → c < 256
    → Decoded plus before ss c (encoded plus c) rest
Decoded-encoded plus before ss c rest h = elim (Bool-cases (char_is_unreserved c)) [
  | inl e ↦ rw e (Decoded-plain plus before ss c rest (byte_plain c h e))
  | inr e ↦ rw e (Decoded-reserved plus before ss c rest h)
]

started-url_decode_loop :
    (plus : Bool) (before : List ℕ) (ss : Option (List ℕ)) (cs : List ℕ)
    → All (λ c. c < 256) cs
    → started
        (before ++ encoded_all plus cs)
        (url_decode_loop plus before ss 0 (encoded_all plus cs))
      ≡ started before ss ++ cs
unfolding url_decode_loop
started-url_decode_loop plus before ss [] h =
    ap (λ b. started b ss) (append-nil before) ∙ sym (append-nil (started before ss))
started-url_decode_loop plus before ss (c ∷ cs) h =
    let (ss', e, e') = Decoded-encoded plus before ss c (encoded_all plus cs) (h.0) in
    ap₂ started (sym (append_assoc before (encoded plus c) (encoded_all plus cs))) e
    ∙ started-url_decode_loop plus (before ++ encoded plus c) ss' cs h.1
    ∙ ap (λ t. t ++ cs) e'
    ∙ append_assoc (started before ss) (c ∷ []) cs

-- `UrlDecode` of what `UrlEncode` gives, with the same `space_as_plus`, is the string itself, for every
-- string of bytes.
pub url_decode-url_encode :
    (str : List ℕ) (plus : Bool)
    → All (λ c. c < 256) str
    → url_decode (url_encode str plus) plus ≡ str
unfolding url_decode
url_decode-url_encode str plus h =
    ap (λ s. url_decode s plus) (url_encode_lem str plus)
    ∙ started-url_decode_loop plus [] none str h
