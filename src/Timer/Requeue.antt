-- ===== src/Timer/Requeue.antt =====
-- The loop of the second part of `listExpiredCb` in saturn/timer.cc: what it makes of the timers and of the set.
use saturn.Base.{
  ℕ, ◌≡◌, refl, sym, ap, subst, ◌∙◌, inl, inr, true, false, List, [], ◌∷◌, All, Bool-cases,
  if◌then◌else◌, ◌⊎◌,
}
use saturn.Timer.{Timer, TimerManager, set_insert, requeue, update, add64}
use saturn.Timer.Order.{In, update_other, In-set_insert, set_insert-In, All-map, update_self}

-- The timers `expired` are all different, and none is in `ts`.
abbrev pub Apart : List ℕ → List ℕ → Type 0
Apart [] ts = Unit {0}
Apart (a ∷ expired) ts = (¬ In a ts) × (¬ In a expired) × Apart expired ts

pub Apart-insert :
    (s : ℕ → Timer) (a : ℕ) (expired ts : List ℕ)
    → ¬ In a expired
    → Apart expired ts
    → Apart expired (set_insert s a ts)
Apart-insert s a [] ts n h = tt
Apart-insert s a (b ∷ bs) ts n h = (
  λ i. elim (In-set_insert s a b ts i) [ inl e ↦ n (inl (sym e)) | inr j ↦ h.0 j ],
  h.1,
  Apart-insert s a bs ts (λ i. n (inr i)) h.2,
)

-- A timer behind a call: a recurring one is due again its interval after `now`.
abbrev pub renewed : ℕ → Timer → Timer
renewed now t = if t.recurring then record t { next = add64 now t.ms } else t

abbrev store_after : ℕ → ℕ → TimerManager → ℕ → Timer
store_after now a m = update m.store a (record (m.store a) { next = add64 now (m.store a).ms })

abbrev put_in : ℕ → ℕ → TimerManager → TimerManager
put_in now a m = record m {
  store = store_after now a m;
  timers = set_insert (store_after now a m) a m.timers;
}

-- The round of one timer.
requeue_again :
    (now a : ℕ) (expired : List ℕ) (m : TimerManager)
    → (m.store a).recurring ≡ true
    → (requeue now (a ∷ expired) m).0 ≡ (requeue now expired (put_in now a m)).0
unfolding requeue
requeue_again now a expired m e =
    ap (λ b. (requeue now expired (if b then put_in now a m else m)).0) e

requeue_once :
    (now a : ℕ) (expired : List ℕ) (m : TimerManager)
    → (m.store a).recurring ≡ false
    → (requeue now (a ∷ expired) m).0 ≡ (requeue now expired m).0
unfolding requeue
requeue_once now a expired m e =
    ap (λ b. (requeue now expired (if b then put_in now a m else m)).0) e

pub requeue-others :
    (now : ℕ) (expired : List ℕ) (m : TimerManager) (b : ℕ)
    → ¬ In b expired
    → (requeue now expired m).0.store b ≡ m.store b
unfolding requeue
requeue-others now [] m b n = refl
requeue-others now (a ∷ expired) m b n = elim (Bool-cases (m.store a).recurring) [
  | inl again ↦ rw again (
      requeue-others now expired _ b (λ i. n (inr i)) ∙ update_other m.store a b _ (λ e. n (inl e)))
  | inr once ↦ rw once (requeue-others now expired m b (λ i. n (inr i)))
]

-- Another timer keeps what it has.
same_timer :
    (now a b : ℕ) (expired : List ℕ) (m : TimerManager)
    → ¬ In a expired
    → In b expired
    → store_after now a m b ≡ m.store b
same_timer now a b expired m n i =
    update_other m.store a b (record (m.store a) { next = add64 now (m.store a).ms })
      (λ e. n (subst (λ x. In x expired) e i))

renewed_again :
    (now : ℕ) (t : Timer) → t.recurring ≡ true → record t { next = add64 now t.ms } ≡ renewed now t
renewed_again now t e = ap (λ b. if b then record t { next = add64 now t.ms } else t) (sym e)

renewed_once : (now : ℕ) (t : Timer) → t.recurring ≡ false → t ≡ renewed now t
renewed_once now t e = ap (λ b. if b then record t { next = add64 now t.ms } else t) (sym e)

pub requeue-renewed :
    (now : ℕ) (expired : List ℕ) (m : TimerManager)
    → Apart expired m.timers
    → All (λ a. (requeue now expired m).0.store a ≡ renewed now (m.store a)) expired
requeue-renewed now [] m p = tt
requeue-renewed now (a ∷ expired) m p = elim (Bool-cases (m.store a).recurring) [
  | inl again ↦
      subst (λ (n : TimerManager). All (λ b. n.store b ≡ renewed now (m.store b)) (a ∷ expired))
        (sym (requeue_again now a expired m again))
        (
          requeue-others now expired (put_in now a m) a p.1
              ∙ update_self m.store a (record (m.store a) { next = add64 now (m.store a).ms })
              ∙ renewed_again now (m.store a) again,
          All-map
              (λ b.
                (requeue now expired (put_in now a m)).0.store b
                ≡ renewed now (store_after now a m b))
              (λ b. (requeue now expired (put_in now a m)).0.store b ≡ renewed now (m.store b))
              expired (λ b i e. e ∙ ap (renewed now) (same_timer now a b expired m p.1 i))
              (requeue-renewed now expired (put_in now a m)
                (Apart-insert (store_after now a m) a expired m.timers p.1 p.2)),
        )
  | inr once ↦
      subst (λ (n : TimerManager). All (λ b. n.store b ≡ renewed now (m.store b)) (a ∷ expired))
        (sym (requeue_once now a expired m once))
        (
          requeue-others now expired m a p.1 ∙ renewed_once now (m.store a) once,
          requeue-renewed now expired m p.2,
        )
]

-- What is in the set behind the second part.
pub requeue-In :
    (now : ℕ) (expired : List ℕ) (m : TimerManager) (b : ℕ)
    → Apart expired m.timers
    → In b (requeue now expired m).0.timers
    → In b m.timers ⊎ (In b expired × ((m.store b).recurring ≡ true))
unfolding requeue
requeue-In now [] m b p i = inl i
requeue-In now (a ∷ expired) m b p i = elim (Bool-cases (m.store a).recurring) [
  | inl again ↦
      elim (requeue-In now expired (put_in now a m) b
        (Apart-insert (store_after now a m) a expired m.timers p.1 p.2)
        (subst (λ (n : TimerManager). In b n.timers) (requeue_again now a expired m again) i)) [
          | inr (j, e) ↦ inr (
            inr j,
            sym (ap (λ (u : Timer). u.recurring) (same_timer now a b expired m p.1 j)) ∙ e,
          )
          | inl j ↦ elim (In-set_insert (store_after now a m) a b m.timers j) [
            | inl e ↦ inr (inl e, ap (λ x. (m.store x).recurring) e ∙ again)
            | inr k ↦ inl k
          ]
        ]
  | inr once ↦
      elim (requeue-In now expired m b p.2
        (subst (λ (n : TimerManager). In b n.timers) (requeue_once now a expired m once) i)) [
          | inl j ↦ inl j
          | inr (j, e) ↦ inr (inr j, e)
        ]
]

pub In-requeue :
    (now : ℕ) (expired : List ℕ) (m : TimerManager) (b : ℕ)
    → Apart expired m.timers
    → In b m.timers ⊎ (In b expired × ((m.store b).recurring ≡ true))
    → In b (requeue now expired m).0.timers
unfolding requeue
In-requeue now [] m b p (inl i) = i
In-requeue now [] m b p (inr i) = absurd (i.0)
In-requeue now (a ∷ expired) m b p h = elim (Bool-cases (m.store a).recurring) [
  | inl again ↦
      subst (λ (n : TimerManager). In b n.timers) (sym (requeue_again now a expired m again))
        (In-requeue now expired (put_in now a m) b
          (Apart-insert (store_after now a m) a expired m.timers p.1 p.2)
          (elim h [
            | inl i ↦ inl (set_insert-In (store_after now a m) a b m.timers (inr i))
            | inr (inl e, r) ↦ inl (set_insert-In (store_after now a m) a b m.timers (inl (sym e)))
            | inr (inr i, r) ↦
                inr (i, ap (λ (u : Timer). u.recurring) (same_timer now a b expired m p.1 i) ∙ r)
          ]))
  | inr once ↦
      subst (λ (n : TimerManager). In b n.timers) (sym (requeue_once now a expired m once))
        (In-requeue now expired m b p.2 (elim h [
          | inl i ↦ inl i
          | inr (inl e, r) ↦ absurd (
              let no : (m.store b).recurring ≡ false = ap (λ x. (m.store x).recurring) e ∙ once in
              cc)
          | inr (inr i, r) ↦ inr (i, r)
        ]))
]
