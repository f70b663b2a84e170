-- ===== src/Timer/Kept.antt =====
-- Every operation of saturn/timer.cc keeps the set of timers in order.
use saturn.Base.{
  ℕ, ◌≡◌, ◌≢◌, sym, ap, subst, inl, inr, Bool, Option, none, List, arith, Option-cases,
}
use saturn.Timer.{
  Timer, Callback, TimerManager, update, set_erase, add_timer_ptr, add_timer, cancel, refresh,
  refresh_in, reset_first, reset_in,
}
use saturn.Timer.Order.{
  In, IsOrdered, IsOrdered-agree, set_insert-IsOrdered, update_other, update_self,
}
use saturn.Timer.Erase.{set_erase-none, set_erase-Erased}

-- The set of the manager is in order.
abbrev pub IsKept : TimerManager → Type 0
IsKept m = IsOrdered m.store m.timers

-- A timer outside the set may change at will.
pub update-IsOrdered :
    (s : ℕ → Timer) (a : ℕ) (t : Timer) (xs : List ℕ)
    → ¬ In a xs
    → IsOrdered s xs
    → IsOrdered (update s a t) xs
update-IsOrdered s a t xs out h =
    IsOrdered-agree s (update s a t) xs
      (λ b i. sym (ap (λ (u : Timer). u.next) (update_other s a b t (other b i)))) h
  where
    other : (b : ℕ) → In b xs → b ≢ a
    other b i e = out (subst (λ x. In x xs) e i)

-- Within the set a timer may lose its callback.
update_cb-IsOrdered :
    (s : ℕ → Timer) (a : ℕ) (cb : Option Callback) (xs : List ℕ)
    → IsOrdered s xs
    → IsOrdered (update s a (record (s a) { cb = cb })) xs
update_cb-IsOrdered s a cb xs h =
    IsOrdered-agree s (update s a (record (s a) { cb = cb })) xs (λ b i. same b) h
  where
    same : (b : ℕ) → (s b).next ≡ (update s a (record (s a) { cb = cb }) b).next
    same b = ground arith

pub add_timer_ptr-IsKept : (a : ℕ) (m : TimerManager) → IsKept m → IsKept (add_timer_ptr a m).0
unfolding add_timer_ptr
add_timer_ptr-IsKept a m h = set_insert-IsOrdered m.store a m.timers h

-- Adding a timer at an address outside an ordered set leaves the set in order.
pub add_timer-IsKept :
    (a now ms : ℕ) (cb : Callback) (recurring : Bool) (m : TimerManager)
    → ¬ In a m.timers
    → IsKept m
    → IsKept (add_timer a now ms cb recurring m).0
unfolding add_timer
add_timer-IsKept a now ms cb recurring m fresh h =
    add_timer_ptr-IsKept a _ (update-IsOrdered m.store a _ m.timers fresh h)

-- `cancel` of any timer leaves an ordered set in order, whether or not the timer is in it.
pub cancel-IsKept : (a : ℕ) (m : TimerManager) → IsKept m → IsKept (cancel a m).0
unfolding cancel
cancel-IsKept a m h = elim (Option-cases (m.store a).cb) [
  | inl e ↦ rw (e, cancel) h
  | inr (cb, e) ↦
      let s : ℕ → Timer = update m.store a (record (m.store a) { cb = none }) in
      let h' : IsOrdered s m.timers = update_cb-IsOrdered m.store a none m.timers h in
      rw (e, cancel)
        (elim (Option-cases (set_erase s a m.timers)) [
          | inl e' ↦ rw e' h'
          | inr (ys, e') ↦ rw e' ((set_erase-Erased s a m.timers ys h' e').ordered)
        ])
]

-- A timer with a callback is out of the set after `cancel`, and its callback is null.
pub cancel-gone :
    (a : ℕ) (m : TimerManager)
    → IsKept m
    → (m.store a).cb ≢ none
    → ¬ In a (cancel a m).0.timers × (((cancel a m).0.store a).cb ≡ none)
unfolding cancel
cancel-gone a m h some_cb = elim (Option-cases (m.store a).cb) [
  | inl e ↦ absurd (some_cb e)
  | inr (cb, e) ↦
      let s : ℕ → Timer = update m.store a (record (m.store a) { cb = none }) in
      let h' : IsOrdered s m.timers = update_cb-IsOrdered m.store a none m.timers h in
      let null : (s a).cb ≡ none =
        ap (λ (t : Timer). t.cb) (update_self m.store a (record (m.store a) { cb = none })) in
      rw (e, cancel)
        (elim (Option-cases (set_erase s a m.timers)) [
          | inl e' ↦ rw e' (set_erase-none s a m.timers e', null)
          | inr (ys, e') ↦ rw e' ((set_erase-Erased s a m.timers ys h' e').gone, null)
        ])
]

refresh_in-IsKept :
    (a now : ℕ) (m : TimerManager) (xs : List ℕ)
    → ¬ In a xs
    → IsOrdered m.store xs
    → IsKept (refresh_in a now m xs)
unfolding refresh_in
refresh_in-IsKept a now m xs out h =
    set_insert-IsOrdered _ a xs (update-IsOrdered m.store a _ xs out h)

-- `refresh` of any timer leaves an ordered set in order, on all its returns.
pub refresh-IsKept : (a now : ℕ) (m : TimerManager) → IsKept m → IsKept (refresh a now m).0
unfolding refresh
refresh-IsKept a now m h = elim (Option-cases (m.store a).cb) [
  | inl e ↦ rw (e, refresh) h
  | inr (cb, e) ↦
      rw (e, refresh)
        (elim (Option-cases (set_erase m.store a m.timers)) [
          | inl e' ↦ rw (e', refresh) h
          | inr (ys, e') ↦
              let r = set_erase-Erased m.store a m.timers ys h e' in
              rw (e', refresh) (refresh_in-IsKept a now m ys r.gone r.ordered)
        ])
]

reset_in-IsKept :
    (a ms : ℕ) (from_now : Bool) (now : ℕ) (m : TimerManager) (xs : List ℕ)
    → ¬ In a xs
    → IsOrdered m.store xs
    → IsKept (reset_in a ms from_now now m xs)
unfolding reset_in
reset_in-IsKept a ms from_now now m xs out h = update-IsOrdered m.store a _ xs out h

-- The first part of `reset` of any timer to any interval leaves an ordered set in order, on all its returns.
pub reset_first-IsKept :
    (a ms : ℕ) (from_now : Bool) (now : ℕ) (m : TimerManager)
    → IsKept m
    → IsKept (reset_first a ms from_now now m).0
unfolding reset_first
reset_first-IsKept a ms from_now now m h = elim (Option-cases (m.store a).cb) [
  | inl e ↦ rw (e, reset_first) h
  | inr (cb, e) ↦
      rw (e, reset_first)
        (elim (Option-cases (set_erase m.store a m.timers)) [
          | inl e' ↦ rw (e', reset_first) h
          | inr (ys, e') ↦
              let r = set_erase-Erased m.store a m.timers ys h e' in
              rw (e', reset_first) (reset_in-IsKept a ms from_now now m ys r.gone r.ordered)
        ])
]
