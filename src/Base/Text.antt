-- ===== src/Base/Text.antt =====
-- Strings as lists of bytes, and the C functions on them.
use Prim.Native.Char.{code}
use Prim.Native.Nat.{ℕ, ◌+◌, compare, Ordering}
use Prim.Native.String.{String}
use mathlib.Core.Path.{◌≡◌, refl, sym}
use mathlib.Core.Logic.{◌↔◌}
use mathlib.Core.Bool.{Bool, true, false, ◌&&◌}
use mathlib.Core.List.{List, [], ◌∷◌, ◌++◌, map}
use mathlib.Core.Option.{Option, none, some}
use saturn.Base.Lists.{All}
use native.Mathlib.Omega.{arith}
use saturn.Base.Tests.{◌==◌, ==_iff, leb, if◌then◌else◌}

-- The bytes of a literal of ASCII characters.
abbrev pub bytes : String → List ℕ
bytes String.[] = []
bytes (String.◌∷◌ c s) = code c ∷ bytes s

-- What `c_str` shows to a C function: the bytes before the first 0.
abbrev pub c_str : List ℕ → List ℕ
c_str [] = []
c_str (c ∷ cs) = if c == 0 then [] else c ∷ c_str cs

-- `tolower` in the C locale.
abbrev pub tolower : ℕ → ℕ
tolower c = if leb 65 c && leb c 90 then c + 32 else c

-- `operator==` of two strings.
abbrev pub equal : List ℕ → List ℕ → Bool
equal [] [] = true
equal [] (b ∷ bs) = false
equal (a ∷ as') [] = false
equal (a ∷ as') (b ∷ bs) = (a == b) && equal as' bs

-- `strncmp(s, m, strlen(s)) == 0`.
abbrev pub starts : List ℕ → List ℕ → Bool
starts [] m = true
starts (a ∷ as') [] = false
starts (a ∷ as') (b ∷ bs) = (a == b) && starts as' bs

-- The order of two lists of bytes.
unfoldable pub compare_bytes : List ℕ → List ℕ → Ordering
compare_bytes [] [] = Ordering.eq
compare_bytes [] (b ∷ bs) = Ordering.lt
compare_bytes (a ∷ as') [] = Ordering.gt
compare_bytes (a ∷ as') (b ∷ bs) = elim (compare a b) [
  | Ordering.lt ↦ Ordering.lt
  | Ordering.eq ↦ compare_bytes as' bs
  | Ordering.gt ↦ Ordering.gt
]

-- The sign of `strcasecmp`.
unfoldable pub strcasecmp : List ℕ → List ℕ → Ordering
unfolding compare_bytes
strcasecmp a b = compare_bytes (map tolower (c_str a)) (map tolower (c_str b))

pub equal_iff : (a b : List ℕ) → (equal a b ≡ true) ↔ (a ≡ b)
equal_iff a b = (to a b, from a b)
  where
    to : (a b : List ℕ) → equal a b ≡ true → a ≡ b
    to [] [] h = refl
    to [] (b ∷ bs) h = absurd cc
    to (a ∷ as') [] h = absurd cc
    to (a ∷ as') (b ∷ bs) h = ground (arith, ==_iff a b, to as' bs)

    self : (a : List ℕ) → equal a a ≡ true
    self [] = refl
    self (a ∷ as') = ground (arith, ==_iff a a, self as')

    from : (a b : List ℕ) → a ≡ b → equal a b ≡ true
    from a b e = rw (sym e) (self a)

-- The text before the first `c` and the text behind it: what a search by index or by `memchr` finds.
unfoldable pub cut_at : ℕ → List ℕ → Option (List ℕ × List ℕ)
cut_at c [] = none
cut_at c (x ∷ xs) =
    let rest = cut_at c xs in
    if x == c
    then some ([], xs)
    else elim rest [ none ↦ none | some (before, behind) ↦ some (x ∷ before, behind) ]

-- The character does not occur.
abbrev pub Lacks : ℕ → List ℕ → Type 0
Lacks c s = All (λ x. (x == c) ≡ false) s

pub cut_at-append :
    (c : ℕ) (s rest : List ℕ) → Lacks c s → cut_at c (s ++ c ∷ rest) ≡ some (s, rest)
unfolding cut_at
cut_at-append c [] rest h = rw ((==_iff c c).1 refl) refl
cut_at-append c (x ∷ s) rest h = rw h.0 (rw (cut_at-append c s rest h.1) refl)

pub cut_at-Lacks : (c : ℕ) (s : List ℕ) → Lacks c s → cut_at c s ≡ none
unfolding cut_at
cut_at-Lacks c [] h = refl
cut_at-Lacks c (x ∷ s) h = rw h.0 (rw (cut_at-Lacks c s h.1) refl)
