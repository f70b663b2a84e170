-- ===== src/Timer/Erase.antt =====
-- `find` and `erase` on the set of timers of saturn/timer.cc.
use saturn.Base.{
  ℕ, ◌≡◌, ◌≢◌, refl, sym, subst, ◌∙◌, inl, inr, true, not, ◌&&◌, Option, none, some, List, [], ◌∷◌,
  All, arith, Bool-cases, Option-cases,
}
use saturn.Timer.{Timer, less, set_erase}
use saturn.Timer.Order.{less_irrefl, less_total, In, IsOrdered, All-In}

self_found : (s : ℕ → Timer) (a x : ℕ) → a ≡ x → not (less s a x) && not (less s x a) ≡ true
self_found s a x e = rw (e, less_irrefl s x)

found_self : (s : ℕ → Timer) (a x : ℕ) → not (less s a x) && not (less s x a) ≡ true → a ≡ x
found_self s a x h = less_total s a x (ground arith) (ground arith)

-- `find` finds a timer that is in the set, by its address.
pub set_erase-none : (s : ℕ → Timer) (a : ℕ) (xs : List ℕ) → set_erase s a xs ≡ none → ¬ In a xs
unfolding set_erase
set_erase-none s a [] e i = i
set_erase-none s a (x ∷ xs) e i = elim (Bool-cases (not (less s a x) && not (less s x a))) [
  | inl hit ↦ (let bad : ◌≡◌ {A = Option (List ℕ)} (some xs) none = rw hit at e in cc)
  | inr miss ↦ elim i [
    | inl same ↦ cc (self_found s a x same)
    | inr i ↦ elim (Option-cases (set_erase s a xs)) [
      | inl e' ↦ set_erase-none s a xs e' i
      | inr (ys, e') ↦
          (let bad : ◌≡◌ {A = Option (List ℕ)} (some (x ∷ ys)) none = rw (miss, e') at e in cc)
    ]
  ]
]

-- What `find` and `erase` leave: the set without the timer.
pub record Erased (s : ℕ → Timer) (a : ℕ) (xs ys : List ℕ) : Type 0 where
  pub ordered : IsOrdered s ys
  pub gone : ¬ In a ys
  pub fewer : (b : ℕ) → In b ys → In b xs
  pub kept : (b : ℕ) → In b xs → b ≢ a → In b ys

pub set_erase-Erased :
    (s : ℕ → Timer) (a : ℕ) (xs ys : List ℕ)
    → IsOrdered s xs
    → set_erase s a xs ≡ some ys
    → Erased s a xs ys
unfolding set_erase
set_erase-Erased s a [] ys h e = cc
set_erase-Erased s a (x ∷ xs) ys h e = elim (Bool-cases (not (less s a x) && not (less s x a))) [
  | inl hit ↦
      let same : a ≡ x = found_self s a x hit in
      let e' : some xs ≡ some ys = rw hit at e in
      let e'' : xs ≡ ys = cc in
      subst (Erased s a (x ∷ xs)) e'' (record {
        ordered = h.1;
        gone = λ i.
            let p : less s x a ≡ true = All-In (λ y. less s x y ≡ true) xs a h.0 i in
            cc (p, less_irrefl s x, same);
        fewer = λ b i. inr i;
        kept = λ b i ne. elim i [ inl e ↦ absurd (ne (e ∙ sym same)) | inr i ↦ i ];
      })
  | inr miss ↦ elim (Option-cases (set_erase s a xs)) [
    | inl e' ↦ (let bad : ◌≡◌ {A = Option (List ℕ)} none (some ys) = rw (miss, e') at e in cc)
    | inr (zs, e') ↦
        let e3 : some (x ∷ zs) ≡ some ys = rw (miss, e') at e in
        let e4 : x ∷ zs ≡ ys = cc in
        let r = set_erase-Erased s a xs zs h.1 e' in
        subst (Erased s a (x ∷ xs)) e4 (record {
          ordered = (keep_All zs r.fewer, r.ordered);
          gone = λ i. elim i [ inl same ↦ cc (self_found s a x same) | inr i ↦ r.gone i ];
          fewer = λ b i. elim i [ inl e ↦ inl e | inr i ↦ inr (r.fewer b i) ];
          kept = λ b i ne. elim i [ inl e ↦ inl e | inr i ↦ inr (r.kept b i ne) ];
        })
  ]
]
  where
    keep_All : (zs : List ℕ) → ((b : ℕ) → In b zs → In b xs) → All (λ y. less s x y ≡ true) zs
    keep_All [] f = tt
    keep_All (z ∷ zs) f = (
      All-In (λ y. less s x y ≡ true) xs z h.0 (f z (inl refl)),
      keep_All zs (λ b i. f b (inr i)),
    )
