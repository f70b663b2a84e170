-- ===== src/StringUtil/TrimLaws.antt =====
-- What the functions of StringUtil/Trim.antt take away.
use saturn.Base.{
  ℕ, suc, ◌+◌, ◌-◌, ◌≡◌, refl, sym, ap, subst, ◌∙◌, inl, inr, true, false, none, some, List, [],
  ◌∷◌, ◌++◌, All, take, drop, if◌then◌else◌, arith, Bool-cases, Option-cases,
}
use saturn.StringUtil.Trim.{
  one_of, find_first_not_of, find_last_not_of, trim, trim_left, trim_right,
}

-- Only delimiters.
abbrev pub Blank : List ℕ → List ℕ → Type 0
Blank delimit s = All (λ c. one_of delimit c ≡ true) s

-- A string that begins and ends with no delimiter, or is empty.
abbrev pub Starts : List ℕ → List ℕ → Type 0
Starts delimit [] = Unit {0}
Starts delimit (c ∷ cs) = one_of delimit c ≡ false

abbrev pub Ends : List ℕ → List ℕ → Type 0
Ends delimit [] = Unit {0}
Ends delimit (c ∷ []) = one_of delimit c ≡ false
Ends delimit (c ∷ d ∷ cs) = Ends delimit (d ∷ cs)

left_kept :
    (c : ℕ) (cs delimit : List ℕ) → one_of delimit c ≡ false → trim_left (c ∷ cs) delimit ≡ c ∷ cs
unfolding trim_left find_first_not_of
left_kept c cs delimit e = rw (e, trim_left) refl

left_cut :
    (c : ℕ) (cs delimit : List ℕ)
    → one_of delimit c ≡ true
    → trim_left (c ∷ cs) delimit ≡ trim_left cs delimit
unfolding trim_left find_first_not_of
left_cut c cs delimit e = elim (Option-cases (find_first_not_of delimit cs)) [
  | inl k ↦ rw (e, trim_left) (rw (k, trim_left) refl)
  | inr (i, k) ↦ rw (e, trim_left) (rw (k, trim_left) refl)
]

-- `TrimLeft` takes away delimiters at the front, and what it leaves begins with none.
pub trim_left_lem :
    (str delimit : List ℕ)
    → (front : List ℕ) × (str ≡ front ++ trim_left str delimit)
      × Blank delimit front
      × Starts delimit (trim_left str delimit)
unfolding trim_left find_first_not_of
trim_left_lem [] delimit = ([], refl, tt, tt)
trim_left_lem (c ∷ cs) delimit = elim (Bool-cases (one_of delimit c)) [
  | inr e ↦ (
    [],
    sym (left_kept c cs delimit e),
    tt,
    subst (Starts delimit) (sym (left_kept c cs delimit e)) e,
  )
  | inl e ↦
      let (front, same, blank, starts) = trim_left_lem cs delimit in
      (
        c ∷ front,
        ap (λ t. c ∷ t) (same ∙ ap (λ t. front ++ t) (sym (left_cut c cs delimit e))),
        (e, blank),
        subst (Starts delimit) (sym (left_cut c cs delimit e)) starts,
      )
]

trim_cut :
    (c : ℕ) (cs delimit : List ℕ)
    → one_of delimit c ≡ true
    → trim (c ∷ cs) delimit ≡ trim cs delimit
unfolding trim find_first_not_of find_last_not_of
trim_cut c cs delimit e = elim (Option-cases (find_first_not_of delimit cs)) [
  | inl k ↦ rw (e, trim) (rw (k, trim) refl)
  | inr (i, k) ↦ elim (Option-cases (find_last_not_of delimit cs)) [
    | inl l ↦ rw (e, trim) (rw (k, trim) (rw (l, trim) (rw (e, trim) refl)))
    | inr (j, l) ↦
        rw (e, trim)
          (rw (k, trim)
            (rw (l, trim)
              (ap (λ n. take n (drop i cs)) {x = suc j - suc i + 1} {y = j - i + 1} (omega arith))))
  ]
]

right_last :
    (c : ℕ) (cs delimit : List ℕ)
    → find_last_not_of delimit cs ≡ none
    → trim_right (c ∷ cs) delimit ≡ (if one_of delimit c then [] else c ∷ [])
unfolding trim_right find_last_not_of
right_last c cs delimit k = elim (Bool-cases (one_of delimit c)) [
  | inl e ↦ rw (k, trim_right) (rw (e, trim_right) refl)
  | inr e ↦ rw (k, trim_right) (rw (e, trim_right) refl)
]

right_some :
    (c i : ℕ) (cs delimit : List ℕ)
    → find_last_not_of delimit cs ≡ some i
    → trim_right (c ∷ cs) delimit ≡ take (suc i + 1) (c ∷ cs)
unfolding trim_right find_last_not_of
right_some c i cs delimit k = rw (k, trim_right) refl

trim_kept :
    (c : ℕ) (cs delimit : List ℕ)
    → one_of delimit c ≡ false
    → trim (c ∷ cs) delimit ≡ trim_right (c ∷ cs) delimit
unfolding trim trim_right find_first_not_of find_last_not_of
trim_kept c cs delimit e = elim (Option-cases (find_last_not_of delimit cs)) [
  | inl k ↦
      rw (e, trim)
        (rw (k, trim)
          (rw (e, trim) (sym (right_last c cs delimit k ∙ ap (λ b. if b then [] else c ∷ []) e))))
  | inr (i, k) ↦
      rw (e, trim)
        (rw (k, trim)
          (ap (λ n. take n (c ∷ cs)) {x = suc i - 0 + 1} {y = suc i + 1} (omega arith)
            ∙ sym (right_some c i cs delimit k)))
]

-- `Trim` is `TrimLeft` and then `TrimRight`.
pub trim_lem :
    (str delimit : List ℕ) → trim str delimit ≡ trim_right (trim_left str delimit) delimit
unfolding trim trim_right trim_left find_first_not_of find_last_not_of
trim_lem [] delimit = refl
trim_lem (c ∷ cs) delimit = elim (Bool-cases (one_of delimit c)) [
  | inr e ↦
      trim_kept c cs delimit e ∙ sym (ap (λ t. trim_right t delimit) (left_kept c cs delimit e))
  | inl e ↦
      trim_cut c cs delimit e
      ∙ trim_lem cs delimit
      ∙ sym (ap (λ t. trim_right t delimit) (left_cut c cs delimit e))
]

right_none : (cs delimit : List ℕ) → find_last_not_of delimit cs ≡ none → trim_right cs delimit ≡ []
unfolding trim_right
right_none cs delimit k = rw (k, trim_right) refl

right_kept :
    (c i : ℕ) (cs delimit : List ℕ)
    → find_last_not_of delimit cs ≡ some i
    → trim_right (c ∷ cs) delimit ≡ c ∷ trim_right cs delimit
unfolding trim_right find_last_not_of
right_kept c i cs delimit k =
    rw (k, trim_right) (ap (λ n. take n (c ∷ cs)) {x = suc i + 1} {y = suc (i + 1)} (omega arith))

nonempty :
    (i : ℕ) (cs delimit : List ℕ)
    → find_last_not_of delimit cs ≡ some i
    → (d : ℕ) × (ds : List ℕ) × (trim_right cs delimit ≡ d ∷ ds)
unfolding trim_right find_last_not_of
nonempty i [] delimit k = absurd cc
nonempty i (c ∷ cs) delimit k = (
  c,
  take i cs,
  rw (k, trim_right) (ap (λ n. take n (c ∷ cs)) {x = i + 1} {y = suc i} (omega arith)),
)

Ends-cons :
    (c : ℕ) (t delimit : List ℕ)
    → (d : ℕ) × (ds : List ℕ) × (t ≡ d ∷ ds)
    → Ends delimit t
    → Ends delimit (c ∷ t)
Ends-cons c t delimit (d, ds, e) h =
    subst (λ t. Ends delimit (c ∷ t)) (sym e) (subst (Ends delimit) e h)

-- `TrimRight` takes away delimiters at the back, and what it leaves ends with none.
pub trim_right_lem :
    (str delimit : List ℕ)
    → (back : List ℕ) × (str ≡ trim_right str delimit ++ back)
      × Blank delimit back
      × Ends delimit (trim_right str delimit)
unfolding trim_right find_last_not_of
trim_right_lem [] delimit = ([], refl, tt, tt)
trim_right_lem (c ∷ cs) delimit =
    let (back, same, blank, ends) = trim_right_lem cs delimit in
    elim (Option-cases (find_last_not_of delimit cs)) [
      | inr (i, k) ↦ (
        back,
        ap (λ t. c ∷ t) same ∙ sym (ap (λ t. t ++ back) (right_kept c i cs delimit k)),
        blank,
        subst (Ends delimit) (sym (right_kept c i cs delimit k))
            (Ends-cons c (trim_right cs delimit) delimit (nonempty i cs delimit k) ends),
      )
      | inl k ↦
          let same' : cs ≡ back = same ∙ ap (λ t. t ++ back) (right_none cs delimit k) in
          elim (Bool-cases (one_of delimit c)) [
            | inl e ↦
                let r : trim_right (c ∷ cs) delimit ≡ [] =
                  right_last c cs delimit k ∙ ap (λ b. if b then [] else c ∷ []) e in
                (
                  c ∷ back,
                  ap (λ t. c ∷ t) same' ∙ sym (ap (λ t. t ++ c ∷ back) r),
                  (e, blank),
                  subst (Ends delimit) (sym r) tt,
                )
            | inr e ↦
                let r : trim_right (c ∷ cs) delimit ≡ c ∷ [] =
                  right_last c cs delimit k ∙ ap (λ b. if b then [] else c ∷ []) e in
                (
                  back,
                  ap (λ t. c ∷ t) same' ∙ sym (ap (λ t. t ++ back) r),
                  blank,
                  subst (Ends delimit) (sym r) e,
                )
          ]
    ]
