-- ===== src/Base/Splice.antt =====
-- Overwriting a stretch of a list: what `memcpy` does to its destination.
use Prim.Native.Nat.{ℕ, ◌+◌, ◌-◌, ◌≤◌}
use mathlib.Core.Path.{◌≡◌, ap, ap₂, ◌∙◌}
use mathlib.Core.List.{List, ◌++◌, append_assoc, append-nil}
use native.Mathlib.Omega.{arith}
use saturn.Base.Lists.{
  length, take, drop, length-append, length-take_le, length-drop, take-append_le, drop-append_le,
  drop-append_ge, take-append_ge, drop_all,
}

module _ {ℓ} {A : Type ℓ} where
  -- `xs` with `ys` written over its elements from index `n` on.
  abbrev pub splice : ℕ → List A → List A → List A
  splice n ys xs = take n xs ++ (ys ++ drop (n + length ys) xs)

module _ {ℓ} {A : Type ℓ} where
  pub length-splice :
      (n : ℕ) (ys xs : List A) → n + length ys ≤ length xs → length (splice n ys xs) ≡ length xs
  length-splice n ys xs h =
      rw
        (
          length-append (take n xs) (ys ++ drop (n + length ys) xs),
          length-append ys (drop (n + length ys) xs),
        )
        (omega (arith, length-take_le n xs (omega arith), length-drop (n + length ys) xs))

  -- A write that ends inside the front part leaves the back part alone.
  pub splice_within :
      (n : ℕ) (ys xs zs : List A)
      → n + length ys ≤ length xs
      → splice n ys (xs ++ zs) ≡ splice n ys xs ++ zs
  splice_within n ys xs zs h =
      rw (take-append_le n xs zs (omega arith), drop-append_le (n + length ys) xs zs h)
        (simp append_assoc)

  -- A write over the end of the front part is a write to each part.
  pub splice_across :
      (n : ℕ) (ys₁ ys₂ xs zs : List A)
      → n + length ys₁ ≡ length xs
      → splice n (ys₁ ++ ys₂) (xs ++ zs) ≡ splice n ys₁ xs ++ splice 0 ys₂ zs
  splice_across n ys₁ ys₂ xs zs h =
      rw
        (
          take-append_le n xs zs (omega arith),
          length-append ys₁ ys₂,
          drop-append_ge (n + (length ys₁ + length ys₂)) xs zs (omega arith),
          drop_all (n + length ys₁) xs (omega arith),
        )
        (ap (λ (k : ℕ). take n xs ++ ((ys₁ ++ ys₂) ++ drop k zs))
            {x = n + (length ys₁ + length ys₂) - length xs} {y = 0 + length ys₂} (omega arith)
          ∙ simp (append_assoc, append-nil))

  -- The front part stays if the write begins behind it.
  pub splice_behind :
      (n : ℕ) (ys xs zs : List A) → splice (length xs + n) ys (xs ++ zs) ≡ xs ++ splice n ys zs
  splice_behind n ys xs zs =
      rw
        (
          take-append_ge (length xs + n) xs zs (omega arith),
          drop-append_ge (length xs + n + length ys) xs zs (omega arith),
        )
        (ap₂ (λ (j k : ℕ). (xs ++ take j zs) ++ (ys ++ drop k zs)) {x = length xs + n - length xs}
            {y = n} {u = length xs + n + length ys - length xs} {v = n + length ys} (omega arith)
            (omega arith)
          ∙ simp append_assoc)

  -- What was written is read back, and the elements before and behind it stay.
  pub drop-splice :
      (n : ℕ) (ys xs : List A)
      → n ≤ length xs
      → drop n (splice n ys xs) ≡ ys ++ drop (n + length ys) xs
  drop-splice n ys xs h =
      rw
        (drop-append_ge n (take n xs) (ys ++ drop (n + length ys) xs)
          (omega (arith, length-take_le n xs h)))
        (ap (λ (k : ℕ). drop k (ys ++ drop (n + length ys) xs)) {x = n - length (take n xs)} {y = 0}
          (omega (arith, length-take_le n xs h)))
