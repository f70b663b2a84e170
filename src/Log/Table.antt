-- ===== src/Log/Table.antt =====
-- The map of the loggers of saturn/log.h: what is found behind a write and an erasure.
use saturn.Base.{
  inl, inr, ◌≡◌, refl, sym, subst, ℕ, false, Bool-cases, none, some, List, [], ◌∷◌, equal,
  equal_iff,
}
use saturn.Log.Loggers.{Logger, find, store, erase}

pub find-store :
    (name : List ℕ) (lg : Logger) (ls : List (List ℕ × Logger))
    → find name (store name lg ls) ≡ some lg
unfolding find store
find-store name lg [] = rw ((equal_iff name name).1 refl) refl
find-store name lg ((n, l) ∷ rest) = elim (Bool-cases (equal n name)) [
  | inl y ↦ rw (y, find, store) (rw y refl)
  | inr x ↦ rw (x, find, store) (rw x (find-store name lg rest))
]

pub find-store_other :
    (name k : List ℕ) (lg : Logger) (ls : List (List ℕ × Logger))
    → equal name k ≡ false
    → find k (store name lg ls) ≡ find k ls
unfolding find store
find-store_other name k lg [] e = rw e refl
find-store_other name k lg ((n, l) ∷ rest) e = elim (Bool-cases (equal n name)) [
  | inl y ↦
      let at = subst (λ s. equal s k ≡ false) (sym ((equal_iff n name).0 y)) e in
      rw (y, find, store) (rw (at, find) refl)
  | inr x ↦ rw (x, find, store) (rw (find-store_other name k lg rest e) refl)
]

pub find-erase : (name : List ℕ) (ls : List (List ℕ × Logger)) → find name (erase name ls) ≡ none
unfolding find erase
find-erase name [] = refl
find-erase name ((n, l) ∷ rest) = elim (Bool-cases (equal n name)) [
  | inl y ↦ rw (y, erase) (find-erase name rest)
  | inr x ↦ rw (x, erase) (rw (x, find) (find-erase name rest))
]

pub find-erase_other :
    (name k : List ℕ) (ls : List (List ℕ × Logger))
    → equal name k ≡ false
    → find k (erase name ls) ≡ find k ls
unfolding find erase
find-erase_other name k [] e = refl
find-erase_other name k ((n, l) ∷ rest) e = elim (Bool-cases (equal n name)) [
  | inl y ↦
      let at = subst (λ s. equal s k ≡ false) (sym ((equal_iff n name).0 y)) e in
      rw (y, at, erase, find) (find-erase_other name k rest e)
  | inr x ↦ rw (x, erase) (rw (find-erase_other name k rest e, find) refl)
]
