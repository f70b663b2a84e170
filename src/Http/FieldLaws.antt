-- ===== src/Http/FieldLaws.antt =====
-- The laws of the maps of saturn/http/http.h.
use Prim.Native.Nat.{Ordering}
use saturn.Base.{
  ℕ, ◌≡◌, ◌↔◌, refl, sym, ap, ◌∙◌, ◌⊎◌, inl, inr, Bool, true, false, Option, none, some, List, [],
  ◌∷◌, strcasecmp, compare_bytes, tolower, c_str, map, if◌then◌else◌, arith, Bool-cases,
}
use saturn.Http.Fields.{MapType, same_key, find, assign, erase}

-- What the order compares.
abbrev pub folded : List ℕ → List ℕ
folded k = map tolower (c_str k)

pub compare_bytes_eq : (a b : List ℕ) → compare_bytes a b ≡ Ordering.eq → a ≡ b
unfolding compare_bytes
compare_bytes_eq [] [] h = refl
compare_bytes_eq [] (b ∷ bs) h = absurd cc
compare_bytes_eq (a ∷ as') [] h = absurd cc
compare_bytes_eq (a ∷ as') (b ∷ bs) h = ground (arith, compare_bytes_eq as' bs)

pub compare_bytes_self : (a : List ℕ) → compare_bytes a a ≡ Ordering.eq
unfolding compare_bytes
compare_bytes_self [] = refl
compare_bytes_self (a ∷ as') = ground (arith, compare_bytes_self as')

is_eq : (j k : List ℕ) → compare_bytes (folded j) (folded k) ≡ Ordering.eq → same_key j k ≡ true
unfolding same_key strcasecmp
is_eq j k e = rw (e, same_key) refl

-- Two keys are one to the map just when they agree but for case.
pub same_key_iff : (j k : List ℕ) → (same_key j k ≡ true) ↔ (folded j ≡ folded k)
unfolding same_key strcasecmp
same_key_iff j k = (
  λ h. ground (arith, compare_bytes_eq (folded j) (folded k)),
  λ e.
      is_eq j k (ap (λ (t : List ℕ). compare_bytes t (folded k)) e ∙ compare_bytes_self (folded k)),
)

pub same_key_sym : (j k : List ℕ) → same_key j k ≡ true → same_key k j ≡ true
same_key_sym j k h = (same_key_iff k j).1 (sym ((same_key_iff j k).0 h))

pub same_key_trans :
    (i j k : List ℕ) → same_key i j ≡ true → same_key j k ≡ true → same_key i k ≡ true
same_key_trans i j k h h' = (same_key_iff i k).1 ((same_key_iff i j).0 h ∙ (same_key_iff j k).0 h')

pub same_of_eq : (j k : List ℕ) → strcasecmp j k ≡ Ordering.eq → same_key j k ≡ true
unfolding same_key
same_of_eq j k e = rw (e, same_key) refl

pub same_key_self : (k : List ℕ) → same_key k k ≡ true
same_key_self k = (same_key_iff k k).1 refl

pub Ordering-cases : (o : Ordering) → (o ≡ Ordering.lt) ⊎ (o ≡ Ordering.eq) ⊎ (o ≡ Ordering.gt)
Ordering-cases Ordering.lt = inl refl
Ordering-cases Ordering.eq = inr (inl refl)
Ordering-cases Ordering.gt = inr (inr refl)

Bool-ext : (a b : Bool) → (a ≡ true → b ≡ true) → (b ≡ true → a ≡ true) → a ≡ b
Bool-ext true b f g = sym (f refl)
Bool-ext false true f g = g refl
Bool-ext false false f g = refl

-- Equal keys are equal to the same keys.
pub same_key_cong : (j k i : List ℕ) → same_key k i ≡ true → same_key j k ≡ same_key j i
same_key_cong j k i h =
    Bool-ext (same_key j k) (same_key j i) (λ e. same_key_trans j k i e h)
      (λ e. same_key_trans j i k e (same_key_sym k i h))

same_key_apart :
    (j k i : List ℕ) → same_key k i ≡ false → same_key j i ≡ true → same_key j k ≡ false
same_key_apart j k i n h = elim (Bool-cases (same_key j k)) [
  | inr e ↦ e
  | inl e ↦ absurd (cc (same_key_trans k j i (same_key_sym j k e) h))
]

gt_not_same : (k i : List ℕ) → strcasecmp k i ≡ Ordering.gt → ¬ (same_key k i ≡ true)
unfolding same_key
gt_not_same k i g e = ground arith

same_key_gt :
    (j k i : List ℕ) → strcasecmp k i ≡ Ordering.gt → same_key j i ≡ true → same_key j k ≡ false
same_key_gt j k i g h = elim (Bool-cases (same_key j k)) [
  | inr e ↦ e
  | inl e ↦ absurd (clash (same_key_trans k j i (same_key_sym j k e) h))
]
  where
    clash : same_key k i ≡ true → ⊥
    clash e = gt_not_same k i g e

-- After `m[key] = val` the value is found under every spelling of the key, and what is found under any
-- other key is as before.
pub find-assign :
    (j key val : List ℕ) (m : MapType)
    → find j (assign key val m) ≡ (if same_key j key then some val else find j m)
unfolding find assign
find-assign j key val [] = refl
find-assign j key val ((i, v) ∷ m) = elim (Ordering-cases (strcasecmp key i)) [
  | inl e ↦ rw (e, assign) refl
  | inr (inl e) ↦
      rw (e, assign)
        (let same : same_key j key ≡ same_key j i = same_key_cong j key i (same_of_eq key i e) in
          rw same (if_again (same_key j i)))
  | inr (inr e) ↦
      rw (e, assign)
        (elim (Bool-cases (same_key j i)) [
          | inl h ↦ rw (h, same_key_gt j key i e h) refl
          | inr h ↦ rw h (find-assign j key val m)
        ])
]
  where
    if_again :
        (b : Bool)
        → (if b then some val else find j m)
          ≡ (if b then some val else if b then some v else find j m)
    if_again true = refl
    if_again false = refl

if_none : (b : Bool) → ◌≡◌ {A = Option (List ℕ)} none (if b then none else none)
if_none true = refl
if_none false = refl

-- After `erase` nothing is found under any spelling of the key, and what is found under any other key is
-- as before.
pub find-erase :
    (j key : List ℕ) (m : MapType)
    → find j (erase key m) ≡ (if same_key j key then none else find j m)
unfolding find erase
find-erase j key [] = if_none (same_key j key)
find-erase j key ((i, v) ∷ m) = elim (Bool-cases (same_key key i)) [
  | inl h ↦
      rw h
        (find-erase j key m ∙ erased_head (same_key j key) (same_key j i) (same_key_cong j key i h))
  | inr h ↦ rw h (elim (Bool-cases (same_key j i)) [
    | inl h' ↦ rw (h', same_key_apart j key i h h') refl
    | inr h' ↦ rw h' (find-erase j key m)
  ])
]
  where
    erased_head :
        (a b : Bool)
        → a ≡ b
        → (if a then none else find j m) ≡ (if a then none else if b then some v else find j m)
    erased_head true b e = refl
    erased_head false true e = absurd cc
    erased_head false false e = refl
