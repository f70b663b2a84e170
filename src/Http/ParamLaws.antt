-- ===== src/Http/ParamLaws.antt =====
-- What `PARSE_PARAM` of saturn/http/http.cc makes of a printed list of parameters.
use mathlib.Core.List.{append-nil}
use saturn.Base.{
  ℕ, zero, suc, ◌≤◌, ◌<◌, ◌≡◌, ◌⊎◌, inl, inr, refl, sym, ap, subst, ◌∙◌, Bool, true, false, not,
  ◌&&◌, Option, none, some, List, [], ◌∷◌, ◌++◌, All, All-append, length, length-append, ◌==◌,
  ==_iff, arith, Bool-cases, Option-cases,
}
use saturn.StringUtil.{url_encode, url_decode, escape, char_is_unreserved, hexdigits, uri_chars}
use saturn.StringUtil.Url.{encoded, encoded_all, url_encode_lem, url_decode-url_encode}
use saturn.StringUtil.Bytes.{all_below, all_below-at, and_left, and_right, not-true}
use saturn.Http.Fields.{MapType, insert_new}
use saturn.Http.Params.{split_at, insert_param, parse_param, parse_params}

-- The character does not occur.
abbrev pub Free : ℕ → List ℕ → Type 0
Free c s = All (λ x. (x == c) ≡ false) s

split_at-some : (c : ℕ) (s rest : List ℕ) → Free c s → split_at c (s ++ c ∷ rest) ≡ some (s, rest)
unfolding split_at
split_at-some c [] rest h = rw ((==_iff c c).1 refl) refl
split_at-some c (x ∷ s) rest h = rw h.0 (rw (split_at-some c s rest h.1) refl)

split_at-none : (c : ℕ) (s : List ℕ) → Free c s → split_at c s ≡ none
unfolding split_at
split_at-none c [] h = refl
split_at-none c (x ∷ s) h = rw h.0 (rw (split_at-none c s h.1) refl)

split_hit : (c x : ℕ) (s : List ℕ) → (x == c) ≡ true → split_at c (x ∷ s) ≡ some ([], s)
unfolding split_at
split_hit c x s h = rw (h, split_at) refl

split_miss :
    (c x : ℕ) (s b r : List ℕ)
    → (x == c) ≡ false
    → split_at c s ≡ some (b, r)
    → split_at c (x ∷ s) ≡ some (x ∷ b, r)
unfolding split_at
split_miss c x s b r h k = rw (h, split_at) (rw (k, split_at) refl)

split_miss_none :
    (c x : ℕ) (s : List ℕ) → (x == c) ≡ false → split_at c s ≡ none → split_at c (x ∷ s) ≡ none
unfolding split_at
split_miss_none c x s h k = rw (h, split_at) (rw (k, split_at) refl)

abbrev behind_of : Option (List ℕ × List ℕ) → List ℕ
behind_of none = []
behind_of (some p) = p.1

split_at_shorter :
    (c : ℕ) (s before behind : List ℕ)
    → split_at c s ≡ some (before, behind)
    → length behind < length s
unfolding split_at
split_at_shorter c [] before behind e = absurd cc
split_at_shorter c (x ∷ s) before behind e = elim (Bool-cases (x == c)) [
  | inl h ↦ omega (arith, ap length (ap behind_of (sym (split_hit c x s h) ∙ e)))
  | inr h ↦ elim (Option-cases (split_at c s)) [
    | inl k ↦ absurd (cc (sym (split_miss_none c x s h k) ∙ e))
    | inr ((b, r), k) ↦ omega (
      arith,
      split_at_shorter c s b r k,
      ap length (ap behind_of (sym (split_miss c x s b r h k) ∙ e)),
    )
  ]
]

module _ (flag : ℕ) (trimmed : List ℕ → List ℕ) where
  parse_none :
      (f : ℕ) (str : List ℕ) (m : MapType)
      → split_at 61 str ≡ none
      → parse_param flag trimmed f str m ≡ m
  unfolding parse_param
  parse_none zero str m e = refl
  parse_none (suc f) str m e = rw (e, parse_param) refl

  parse_last :
      (f : ℕ) (str key rest : List ℕ) (m : MapType)
      → split_at 61 str ≡ some (key, rest)
      → split_at flag rest ≡ none
      → parse_param flag trimmed (suc f) str m ≡ insert_param trimmed key rest m
  unfolding parse_param
  parse_last f str key rest m e e' = rw (e, parse_param) (rw (e', parse_param) refl)

  parse_more :
      (f : ℕ) (str key rest value more : List ℕ) (m : MapType)
      → split_at 61 str ≡ some (key, rest)
      → split_at flag rest ≡ some (value, more)
      → parse_param flag trimmed (suc f) str m
        ≡ parse_param flag trimmed f more (insert_param trimmed key value m)
  unfolding parse_param
  parse_more f str key rest value more m e e' = rw (e, parse_param) (rw (e', parse_param) refl)

  -- As many rounds as characters are enough: with more of them the result is the same, so the loop has
  -- come to its `break`.
  pub parse_param_enough :
      (f g : ℕ) (str : List ℕ) (m : MapType)
      → length str ≤ f
      → length str ≤ g
      → parse_param flag trimmed f str m ≡ parse_param flag trimmed g str m
  unfolding split_at
  parse_param_enough f g [] m h k = parse_none f [] m refl ∙ sym (parse_none g [] m refl)
  parse_param_enough zero g (x ∷ str) m h k = absurd (omega arith)
  parse_param_enough (suc f) zero (x ∷ str) m h k = absurd (omega arith)
  parse_param_enough (suc f) (suc g) (x ∷ str) m h k = elim (Option-cases (split_at 61 (x ∷ str))) [
    | inl e ↦ parse_none (suc f) (x ∷ str) m e ∙ sym (parse_none (suc g) (x ∷ str) m e)
    | inr ((key, rest), e) ↦ elim (Option-cases (split_at flag rest)) [
      | inl e' ↦
          parse_last f (x ∷ str) key rest m e e' ∙ sym (parse_last g (x ∷ str) key rest m e e')
      | inr ((value, more), e') ↦
          let short = split_at_shorter 61 (x ∷ str) key rest e in
          let short' = split_at_shorter flag rest value more e' in
          parse_more f (x ∷ str) key rest value more m e e'
          ∙ parse_param_enough f g more (insert_param trimmed key value m) (omega arith)
              (omega arith)
          ∙ sym (parse_more g (x ∷ str) key rest value more m e e')
    ]
  ]

-- The entries as a query, a form or a cookie header holds them.
unfoldable pub print_more : ℕ → List (List ℕ × List ℕ) → List ℕ
print_more flag [] = []
print_more flag ((k, v) ∷ es) = flag ∷ (k ++ 61 ∷ (url_encode v true ++ print_more flag es))

unfoldable pub print_params : ℕ → List (List ℕ × List ℕ) → List ℕ
print_params flag [] = []
print_params flag ((k, v) ∷ es) = k ++ 61 ∷ (url_encode v true ++ print_more flag es)

-- What is inserted for them.
abbrev pub insert_all : (List ℕ → List ℕ) → List (List ℕ × List ℕ) → MapType → MapType
insert_all trimmed [] m = m
insert_all trimmed ((k, v) ∷ es) m = insert_all trimmed es (insert_new (trimmed k) v m)

-- Keys hold no '=', and values are bytes.
abbrev pub Printable : List (List ℕ × List ℕ) → Type 0
Printable es = All (λ (e : List ℕ × List ℕ). Free 61 e.0 × All (λ c. c < 256) e.1) es

abbrev pub Separator : ℕ → Type 0
Separator flag = (flag ≡ 38) ⊎ (flag ≡ 59)

abbrev absent : ℕ → List ℕ → Bool
absent flag [] = true
absent flag (x ∷ xs) = not (x == flag) && absent flag xs

separators_table :
    (all_below 256 (λ c. absent 38 (encoded true c)) ≡ true)
    × (all_below 256 (λ c. absent 59 (encoded true c)) ≡ true)
unfolding char_is_unreserved escape hexdigits uri_chars
separators_table = (refl, refl)

absent-Free : (flag : ℕ) (s : List ℕ) → absent flag s ≡ true → Free flag s
absent-Free flag [] h = tt
absent-Free flag (x ∷ s) h = (
  not-true (x == flag) (and_left (not (x == flag)) (absent flag s) h),
  absent-Free flag s (and_right (not (x == flag)) (absent flag s) h),
)

encoded-Free : (flag c : ℕ) → Separator flag → c < 256 → Free flag (encoded true c)
encoded-Free flag c (inl e) h = absent-Free flag (encoded true c) (
    subst (λ (f : ℕ). absent f (encoded true c) ≡ true) (sym e)
      (all_below-at 256 (λ c. absent 38 (encoded true c)) c separators_table.0 h))
encoded-Free flag c (inr e) h = absent-Free flag (encoded true c) (
    subst (λ (f : ℕ). absent f (encoded true c) ≡ true) (sym e)
      (all_below-at 256 (λ c. absent 59 (encoded true c)) c separators_table.1 h))

encoded_all-Free :
    (flag : ℕ) (v : List ℕ) → Separator flag → All (λ c. c < 256) v → Free flag (encoded_all true v)
encoded_all-Free flag [] s h = tt
encoded_all-Free flag (c ∷ v) s h =
    All-append (λ x. (x == flag) ≡ false) (encoded true c) (encoded_all true v)
      (encoded-Free flag c s h.0) (encoded_all-Free flag v s h.1)

url_encode-Free :
    (flag : ℕ) (v : List ℕ) → Separator flag → All (λ c. c < 256) v → Free flag (url_encode v true)
url_encode-Free flag v s h =
    subst (Free flag) (sym (url_encode_lem v true)) (encoded_all-Free flag v s h)

module _ (flag : ℕ) (trimmed : List ℕ → List ℕ) (sep : Separator flag) where
  parse_param-print_params :
      (fuel : ℕ) (es : List (List ℕ × List ℕ)) (m : MapType)
      → Printable es
      → length es ≤ fuel
      → parse_param flag trimmed fuel (print_params flag es) m ≡ insert_all trimmed es m
  unfolding print_params print_more insert_param split_at
  parse_param-print_params fuel [] m p l = parse_none flag trimmed fuel [] m refl
  parse_param-print_params zero (e ∷ es) m p l = absurd (omega arith)
  parse_param-print_params (suc f) ((k, v) ∷ []) m p l =
      parse_last flag trimmed f _ k (url_encode v true ++ []) m
        (split_at-some 61 k (url_encode v true ++ []) p.0.0)
        (split_at-none flag (url_encode v true ++ []) (
          subst (Free flag) (sym (append-nil (url_encode v true)))
            (url_encode-Free flag v sep p.0.1)))
      ∙ ap (λ t. insert_new (trimmed k) t m)
          (ap (λ t. url_decode t true) (append-nil (url_encode v true))
            ∙ url_decode-url_encode v true p.0.1)
  parse_param-print_params (suc f) ((k, v) ∷ (k', v') ∷ es) m p l =
      let rest = print_params flag ((k', v') ∷ es) in
      parse_more flag trimmed f _ k (url_encode v true ++ flag ∷ rest) (url_encode v true) rest m
        (split_at-some 61 k (url_encode v true ++ flag ∷ rest) p.0.0)
        (split_at-some flag (url_encode v true) rest (url_encode-Free flag v sep p.0.1))
      ∙ ap (λ t. parse_param flag trimmed f rest (insert_new (trimmed k) t m))
          (url_decode-url_encode v true p.0.1)
      ∙ parse_param-print_params f ((k', v') ∷ es) (insert_new (trimmed k) v m) p.1 (omega arith)

  length-print_more : (es : List (List ℕ × List ℕ)) → length es ≤ length (print_more flag es)
  unfolding print_more
  length-print_more [] = omega arith
  length-print_more ((k, v) ∷ es) = omega (
    arith,
    length-append k (61 ∷ (url_encode v true ++ print_more flag es)),
    length-append (url_encode v true) (print_more flag es),
    length-print_more es,
  )

  length-print_params : (es : List (List ℕ × List ℕ)) → length es ≤ length (print_params flag es)
  unfolding print_params
  length-print_params [] = omega arith
  length-print_params ((k, v) ∷ es) = omega (
    arith,
    length-append k (61 ∷ (url_encode v true ++ print_more flag es)),
    length-append (url_encode v true) (print_more flag es),
    length-print_more es,
  )

  -- Parameters that are printed as `key=value`, the values by `UrlEncode`, with '&' or ';' between them
  -- are all parsed back, in their order, into any map, where the keys hold no '=' and the values are bytes.
  pub parse_params-print_params :
      (es : List (List ℕ × List ℕ)) (m : MapType)
      → Printable es
      → parse_params flag trimmed (print_params flag es) m ≡ insert_all trimmed es m
  unfolding parse_params
  parse_params-print_params es m p =
      parse_param-print_params (length (print_params flag es)) es m p (length-print_params es)
