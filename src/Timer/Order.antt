-- ===== src/Timer/Order.antt =====
-- The set of timers of saturn/timer.cc, ordered by `Comparator`.
use saturn.Base.{
  ℕ, ◌≤◌, ◌≡◌, ◌≢◌, refl, sym, subst, ◌∙◌, ◌⊎◌, inl, inr, true, false, List, [], ◌∷◌, All, arith,
  Bool-cases,
}
use saturn.Timer.{Timer, comparator, less, update, set_insert}

pub less_trans :
    (s : ℕ → Timer) (a b c : ℕ) → less s a b ≡ true → less s b c ≡ true → less s a c ≡ true
unfolding comparator
less_trans s a b c p q = ground arith

pub less_irrefl : (s : ℕ → Timer) (a : ℕ) → less s a a ≡ false
unfolding comparator
less_irrefl s a = ground arith

pub less_total : (s : ℕ → Timer) (a b : ℕ) → less s a b ≡ false → less s b a ≡ false → a ≡ b
unfolding comparator
less_total s a b p q = ground arith

pub less_asym : (s : ℕ → Timer) (a b : ℕ) → less s a b ≡ true → less s b a ≡ false
unfolding comparator
less_asym s a b p = ground arith

-- Earlier timers come first.
pub less_next : (s : ℕ → Timer) (a b : ℕ) → less s a b ≡ true → (s a).next ≤ (s b).next
unfolding comparator
less_next s a b p = ground arith

pub less_next_false : (s : ℕ → Timer) (a b : ℕ) → less s a b ≡ false → (s b).next ≤ (s a).next
unfolding comparator
less_next_false s a b p = ground arith

pub update_self : (s : ℕ → Timer) (c : ℕ) (t : Timer) → update s c t c ≡ t
update_self s c t = ground arith

pub update_other : (s : ℕ → Timer) (c b : ℕ) (t : Timer) → b ≢ c → update s c t b ≡ s b
update_other s c b t h = ground arith

-- The order of two timers depends on their times alone.
less_agree :
    (s s' : ℕ → Timer) (a b : ℕ)
    → (s a).next ≡ (s' a).next
    → (s b).next ≡ (s' b).next
    → less s a b ≡ less s' a b
unfolding comparator
less_agree s s' a b p q = rw (p, q)

abbrev pub In : ℕ → List ℕ → Type 0
In a [] = ⊥
In a (x ∷ xs) = (a ≡ x) ⊎ In a xs

abbrev pub IsOrdered : (ℕ → Timer) → List ℕ → Type 0
IsOrdered s [] = Unit {0}
IsOrdered s (x ∷ xs) = All (λ y. less s x y ≡ true) xs × IsOrdered s xs

pub All-In {κ} : (P : ℕ → Type κ) (xs : List ℕ) (a : ℕ) → All P xs → In a xs → P a
All-In P [] a h i = absurd i
All-In P (x ∷ xs) a h (inl e) = subst P (sym e) h.0
All-In P (x ∷ xs) a h (inr i) = All-In P xs a h.1 i

pub All-map {κ} :
    (P Q : ℕ → Type κ) (xs : List ℕ) → ((a : ℕ) → In a xs → P a → Q a) → All P xs → All Q xs
All-map P Q [] f h = tt
All-map P Q (x ∷ xs) f h = (f x (inl refl) h.0, All-map P Q xs (λ a i. f a (inr i)) h.1)

-- The order is kept by a store that keeps the times of the timers in the set.
pub IsOrdered-agree :
    (s s' : ℕ → Timer) (xs : List ℕ)
    → ((a : ℕ) → In a xs → (s a).next ≡ (s' a).next)
    → IsOrdered s xs
    → IsOrdered s' xs
IsOrdered-agree s s' [] f h = tt
IsOrdered-agree s s' (x ∷ xs) f h = (
  All-map (λ y. less s x y ≡ true) (λ y. less s' x y ≡ true) xs
      (λ y i p. sym (less_agree s s' x y (f x (inl refl)) (f y (inr i))) ∙ p) h.0,
  IsOrdered-agree s s' xs (λ a i. f a (inr i)) h.1,
)

insert-All :
    (s : ℕ → Timer) (P : ℕ → Type 0) (a : ℕ) (xs : List ℕ)
    → P a
    → All P xs
    → All P (set_insert s a xs)
unfolding set_insert
insert-All s P a [] p h = (p, tt)
insert-All s P a (x ∷ xs) p h = elim (Bool-cases (less s a x)) [
  | inl first ↦ rw first (p, h)
  | inr later ↦ rw later (elim (Bool-cases (less s x a)) [
    | inl behind ↦ rw behind (h.0, insert-All s P a xs p h.1)
    | inr same ↦ rw same h
  ])
]

-- Insertion keeps the set in order.
pub set_insert-IsOrdered :
    (s : ℕ → Timer) (a : ℕ) (xs : List ℕ) → IsOrdered s xs → IsOrdered s (set_insert s a xs)
unfolding set_insert
set_insert-IsOrdered s a [] h = (tt, tt)
set_insert-IsOrdered s a (x ∷ xs) h = elim (Bool-cases (less s a x)) [
  | inl first ↦ rw first (
    (
      first,
      All-map (λ y. less s x y ≡ true) (λ y. less s a y ≡ true) xs
          (λ y i p. less_trans s a x y first p) h.0,
    ),
    h,
  )
  | inr later ↦ rw later (elim (Bool-cases (less s x a)) [
    | inl behind ↦
        rw behind
          (insert-All s (λ y. less s x y ≡ true) a xs behind h.0, set_insert-IsOrdered s a xs h.1)
    | inr same ↦ rw same h
  ])
]

-- The timer is in the set after its insertion, and so is what was there.
pub set_insert-In :
    (s : ℕ → Timer) (a b : ℕ) (xs : List ℕ) → (a ≡ b) ⊎ In b xs → In b (set_insert s a xs)
unfolding set_insert
set_insert-In s a b [] (inl e) = inl (sym e)
set_insert-In s a b [] (inr i) = absurd i
set_insert-In s a b (x ∷ xs) h = elim (Bool-cases (less s a x)) [
  | inl first ↦ rw first (elim h [ inl e ↦ inl (sym e) | inr i ↦ inr i ])
  | inr later ↦ rw later (elim (Bool-cases (less s x a)) [
    | inl behind ↦ rw behind (elim h [
      | inl e ↦ inr (set_insert-In s a b xs (inl e))
      | inr (inl e) ↦ inl e
      | inr (inr i) ↦ inr (set_insert-In s a b xs (inr i))
    ])
    | inr same ↦ rw same (elim h [ inl e ↦ inl (sym e ∙ less_total s a x later same) | inr i ↦ i ])
  ])
]

-- Nothing else gets in.
pub In-set_insert :
    (s : ℕ → Timer) (a b : ℕ) (xs : List ℕ) → In b (set_insert s a xs) → (b ≡ a) ⊎ In b xs
unfolding set_insert
In-set_insert s a b [] i = i
In-set_insert s a b (x ∷ xs) i = elim (Bool-cases (less s a x)) [
  | inl first ↦ rw first at i
  | inr later ↦ elim (Bool-cases (less s x a)) [
    | inl behind ↦
        let j : In b (x ∷ set_insert s a xs) = rw (later, behind) at i in
        elim j [
          | inl e ↦ inr (inl e)
          | inr k ↦ elim (In-set_insert s a b xs k) [ inl e ↦ inl e | inr k ↦ inr (inr k) ]
        ]
    | inr same ↦ let j : In b (x ∷ xs) = rw (later, same) at i in inr j
  ]
]
