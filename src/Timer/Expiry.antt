-- ===== src/Timer/Expiry.antt =====
-- Which timers `listExpiredCb` takes and what `getNextTimer` promises, in saturn/timer.cc.
use native.Mathlib.Nat.{le_refl}
use saturn.Base.{
  ℕ, ◌+◌, ◌≤◌, ◌<◌, ◌≡◌, ◌≢◌, refl, ap, subst, ◌∙◌, ◌⊎◌, inl, inr, true, false, Option, none, List,
  [], ◌∷◌, ◌++◌, All, arith, Bool-cases,
}
use saturn.Timer.{
  Timer, TimerManager, Callback, less, update, set_split, take_expired, requeue, get_next_timer,
  wait_for, cancel, reset, reset_first, reset_last, reset_in, add_timer_ptr, add64, comparator,
}
use saturn.Timer.Order.{
  In, IsOrdered, All-map, less_trans, less_next, update_self, update_other, set_insert-In,
}
use saturn.Timer.Kept.{IsKept, update-IsOrdered, cancel-gone}

pub set_split-append :
    (s : ℕ → Timer) (a : ℕ) (xs : List ℕ) → (set_split s a xs).0 ++ (set_split s a xs).1 ≡ xs
unfolding set_split
set_split-append s a [] = refl
set_split-append s a (x ∷ xs) = elim (Bool-cases (less s a x)) [
  | inl behind ↦ rw behind
  | inr before ↦ rw before (ap (λ t. x ∷ t) (set_split-append s a xs))
]

set_split-taken :
    (s : ℕ → Timer) (a : ℕ) (xs : List ℕ) → All (λ x. less s a x ≡ false) (set_split s a xs).0
unfolding set_split
set_split-taken s a [] = tt
set_split-taken s a (x ∷ xs) = elim (Bool-cases (less s a x)) [
  | inl behind ↦ rw behind tt
  | inr before ↦ rw before (before, set_split-taken s a xs)
]

set_split-left :
    (s : ℕ → Timer) (a : ℕ) (xs : List ℕ)
    → IsOrdered s xs
    → All (λ x. less s a x ≡ true) (set_split s a xs).1
unfolding set_split
set_split-left s a [] h = tt
set_split-left s a (x ∷ xs) h = elim (Bool-cases (less s a x)) [
  | inl behind ↦ rw behind (
    behind,
    All-map (λ y. less s x y ≡ true) (λ y. less s a y ≡ true) xs
        (λ y i p. less_trans s a x y behind p) h.0,
  )
  | inr before ↦ rw before (set_split-left s a xs h.1)
]

not-In-append : (a : ℕ) (xs ys : List ℕ) → ¬ In a (xs ++ ys) → (¬ In a xs) × (¬ In a ys)
not-In-append a [] ys h = (λ i. i, h)
not-In-append a (x ∷ xs) ys h =
    let (p, q) = not-In-append a xs ys (λ i. h (inr i)) in
    (λ i. elim i [ inl e ↦ h (inl e) | inr j ↦ p j ], q)

-- The times of the timers in a set are not those of a mark outside it.
mark_next :
    (s : ℕ → Timer) (cur : ℕ) (t : Timer) (xs : List ℕ)
    → ¬ In cur xs
    → (a : ℕ) → In a xs
    → (update s cur t a).next ≡ (s a).next
mark_next s cur t xs out a i =
    ap (λ (u : Timer). u.next) (update_other s cur a t (λ e. out (subst (λ x. In x xs) e i)))

abbrev mark_at : ℕ → Timer
mark_at now = record { recurring = false; ms = 0; next = now; cb = none }

-- The timer comes before the mark of the time `now` at the address `cur`: it is due before `now`, or at `now` and
-- its address is not behind that of the mark.
abbrev pub Due : ℕ → ℕ → (ℕ → Timer) → ℕ → Type 0
Due cur now store a = ((store a).next < now) ⊎ (((store a).next ≡ now) × (a ≤ cur))

due_of :
    (s : ℕ → Timer) (cur a now next : ℕ)
    → (s cur).next ≡ now
    → (s a).next ≡ next
    → less s cur a ≡ false
    → (next < now) ⊎ ((next ≡ now) × (a ≤ cur))
unfolding comparator
due_of s cur a now next e e' h = ground arith

not_due_of :
    (s : ℕ → Timer) (cur a now next : ℕ)
    → (s cur).next ≡ now
    → (s a).next ≡ next
    → less s cur a ≡ true
    → ¬ ((next < now) ⊎ ((next ≡ now) × (a ≤ cur)))
unfolding comparator
not_due_of s cur a now next e e' h = ground arith

-- `listExpiredCb` takes the timers of the set that are due, and leaves the others, both in their order. The
-- mark's address `cur` is no timer of the set.
pub take_expired-Due :
    (cur now : ℕ) (m : TimerManager)
    → IsKept m
    → ¬ In cur m.timers
    → let r = take_expired cur now m in
      (r.1 ++ r.0.timers ≡ m.timers)
      × All (Due cur now m.store) r.1
      × All (λ a. ¬ Due cur now m.store a) r.0.timers
unfolding take_expired
take_expired-Due cur now m h out =
    let s : ℕ → Timer = update m.store cur (mark_at now) in
    let parts = set_split s cur m.timers in
    let whole : parts.0 ++ parts.1 ≡ m.timers = set_split-append s cur m.timers in
    let (out₀, out₁) = not-In-append cur parts.0 parts.1 (λ i. out (subst (In cur) whole i)) in
    let clock : (s cur).next ≡ now =
      ap (λ (u : Timer). u.next) (update_self m.store cur (mark_at now)) in
    (
      whole,
      All-map (λ x. less s cur x ≡ false) (Due cur now m.store) parts.0
          (λ a i p.
            due_of s cur a now (m.store a).next clock
              (mark_next m.store cur (mark_at now) parts.0 out₀ a i) p)
          (set_split-taken s cur m.timers),
      All-map (λ x. less s cur x ≡ true) (λ a. ¬ Due cur now m.store a) parts.1
          (λ a i p.
            not_due_of s cur a now (m.store a).next clock
              (mark_next m.store cur (mark_at now) parts.1 out₁ a i) p)
          (set_split-left s cur m.timers
            (update-IsOrdered m.store cur (mark_at now) m.timers out h)),
    )

wait_early :
    (now : ℕ) (s : ℕ → Timer) (x y : ℕ) (xs : List ℕ)
    → (s x).next ≤ (s y).next
    → (wait_for now s (x ∷ xs) ≡ 0) ⊎ (now + wait_for now s (x ∷ xs) ≤ (s y).next)
unfolding wait_for
wait_early now s x y xs h = ground arith

wait_for_early :
    (now : ℕ) (s : ℕ → Timer) (xs : List ℕ)
    → IsOrdered s xs
    → All (λ a. (wait_for now s xs ≡ 0) ⊎ (now + wait_for now s xs ≤ (s a).next)) xs
unfolding wait_for
wait_for_early now s [] h = tt
wait_for_early now s (x ∷ xs) h =
    let early = λ (y : ℕ) (later : (s x).next ≤ (s y).next). wait_early now s x y xs later in
    (
      early x (le_refl _),
      All-map (λ y. less s x y ≡ true)
          (λ a. (wait_for now s (x ∷ xs) ≡ 0) ⊎ (now + wait_for now s (x ∷ xs) ≤ (s a).next)) xs
          (λ a i p. early a (less_next s x a p)) h.0,
    )

-- `getNextTimer` does not let a timer sleep over: the wait it returns ends no later than the time of
-- any timer of the set, or it is 0.
pub get_next_timer_early :
    (now : ℕ) (m : TimerManager)
    → IsKept m
    → All
        (λ a. ((get_next_timer now m).1 ≡ 0) ⊎ (now + (get_next_timer now m).1 ≤ (m.store a).next))
        m.timers
unfolding get_next_timer
get_next_timer_early now m h = wait_for_early now m.store m.timers h

-- `reset` with `from_now` schedules a timer by the interval that it had, and not by the new one: its
-- next time is `now` and the old interval, while the interval is replaced.
pub reset_from_now :
    (a ms now : ℕ) (m : TimerManager)
    → (reset a ms true now m).1 ≡ true
    → (((reset a ms true now m).0.store a).next ≡ add64 now (m.store a).ms)
      × (((reset a ms true now m).0.store a).ms ≡ ms)
unfolding reset reset_last reset_first reset_in add_timer_ptr
reset_from_now a ms now m done = ground arith

cancel-recurring :
    (a : ℕ) (m : TimerManager) → ((cancel a m).0.store a).recurring ≡ (m.store a).recurring
unfolding cancel
cancel-recurring a m = ground arith

-- A recurring timer that is cancelled between the two locked parts of `listExpiredCb`, when it is out
-- of the set, is put back without a callback, and a null function is handed out.
pub cancelled_requeued :
    (a now : ℕ) (m : TimerManager)
    → IsKept m
    → (m.store a).cb ≢ none
    → (m.store a).recurring ≡ true
    → let r = requeue now (a ∷ []) (cancel a m).0 in
      In a r.0.timers × (r.1 ≡ none ∷ []) × ((r.0.store a).cb ≡ none)
unfolding requeue
cancelled_requeued a now m h some_cb recurs =
    let (gone, null) = cancel-gone a m h some_cb in
    let m' : TimerManager = (cancel a m).0 in
    let t : Timer = record (m'.store a) { recurring = true; next = add64 now (m'.store a).ms } in
    rw (cancel-recurring a m ∙ recurs) (
      set_insert-In (update m'.store a t) a a m'.timers (inl refl),
      ap (λ (c : Option Callback). c ∷ []) null,
      ap (λ (u : Timer). u.cb) (update_self m'.store a t) ∙ null,
    )
