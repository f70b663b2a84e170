-- ===== src/StringUtil/Bytes.antt =====
-- The tables of `StringUtil` in saturn/util.cc, at every byte.
use saturn.Base.{
  ℕ, zero, suc, ◌/◌, ◌<◌, ◌≡◌, inl, inr, refl, sym, ap, subst, ◌∙◌, Bool, true, false, ◌&&◌, not,
  [], ◌∷◌, ◌==◌, ==_iff, if◌then◌else◌, arith, Bool-cases,
}
use Prim.Native.Nat.{bit_and}
use saturn.StringUtil.{uri_chars, xdigit_chars, char_is_unreserved, hexdigits, isxdigit, unescape}

-- The facts on one byte, as a test.
abbrev pub plain : ℕ → Bool
plain c = not (c == 37) && not (c == 43)

abbrev pub unreserved_test : ℕ → Bool
unreserved_test c = if char_is_unreserved c then plain c else true

abbrev pub high_test : ℕ → Bool
high_test c = isxdigit (hexdigits (c / 16))

abbrev pub low_test : ℕ → Bool
low_test c = isxdigit (hexdigits (bit_and c 0xf))

abbrev pub value_test : ℕ → Bool
value_test c = unescape (hexdigits (c / 16) ∷ hexdigits (bit_and c 0xf) ∷ []) == c

abbrev pub all_below : ℕ → (ℕ → Bool) → Bool
all_below zero p = true
all_below (suc n) p = p n && all_below n p

pub bytes_table :
    (all_below 256 unreserved_test ≡ true)
    × (all_below 256 high_test ≡ true)
    × (all_below 256 low_test ≡ true)
    × (all_below 256 value_test ≡ true)
unfolding char_is_unreserved isxdigit hexdigits unescape uri_chars xdigit_chars
bytes_table = (refl, refl, refl, refl)

pub and_left : (a b : Bool) → (a && b) ≡ true → a ≡ true
and_left true b h = refl
and_left false b h = h

pub and_right : (a b : Bool) → (a && b) ≡ true → b ≡ true
and_right true b h = h
and_right false b h = absurd cc

pub not-true : (b : Bool) → not b ≡ true → b ≡ false
not-true true h = absurd cc
not-true false h = refl

pub all_below-at : (n : ℕ) (p : ℕ → Bool) (x : ℕ) → all_below n p ≡ true → x < n → p x ≡ true
all_below-at zero p x h l = absurd (omega arith)
all_below-at (suc n) p x h l = elim (Bool-cases (x == n)) [
  | inl e ↦ subst (λ k. p k ≡ true) (sym ((==_iff x n).0 e)) (and_left (p n) (all_below n p) h)
  | inr e ↦ all_below-at n p x (and_right (p n) (all_below n p) h) (ground arith)
]

pub byte_plain : (c : ℕ) → c < 256 → char_is_unreserved c ≡ true → plain c ≡ true
byte_plain c h e =
    sym (ap (λ b. if b then plain c else true) e)
    ∙ all_below-at 256 unreserved_test c bytes_table.0 h
