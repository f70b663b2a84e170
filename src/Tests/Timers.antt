-- ===== src/Tests/Timers.antt =====
-- The timers of saturn/timer.cc at concrete inputs.
use saturn.Base.{◌≡◌, refl, inl, inr, true, false, none, some, [], ◌∷◌, arith, ◌==◌, if◌then◌else◌}
use saturn.Timer.{
  TimerManager, plain, comparator, set_insert, set_erase, set_split, add_timer, cancel, reset,
  reset_first, reset_last, add_timer_ptr, get_next_timer, take_expired, requeue, list_expired_cb,
  wait_for,
}
use saturn.Timer.Order.{In}
use saturn.Timer.Kept.{IsKept}
use saturn.Timer.Steps.{start, next_call, added, changed, put_back, Reachable-IsKept}
use saturn.Timer.Expiry.{cancelled_requeued}
use saturn.Timer.Recurring.{Expired, list_expired_cb_lem}

-- Timer 1 is due at 10 and comes again every 5; timer 2 is due at 20.
abbrev pair : TimerManager
pair = record {
  store = λ a.
      if a == 1
      then record { recurring = true; ms = 5; next = 10; cb = some (plain 7) }
      else record { recurring = false; ms = 9; next = 20; cb = some (plain 8) };
  timers = 1 ∷ 2 ∷ [];
  tickled = false;
}

pair-IsKept : IsKept pair
unfolding comparator
pair-IsKept = ((refl, tt), (tt, tt))

expired_run : (list_expired_cb 3 12 pair).0.timers ≡ 1 ∷ 2 ∷ []
unfolding list_expired_cb take_expired requeue set_split set_insert comparator
expired_run = refl

next_run : (get_next_timer 4 pair).1 ≡ 6
unfolding get_next_timer wait_for
next_run = refl

three_not-In : ¬ In 3 pair.timers
three_not-In (inl e) = omega arith
three_not-In (inr (inl e)) = omega arith
three_not-In (inr (inr i)) = i

-- A timer every 5, added, and then a longer interval for it.
abbrev unused : TimerManager
unused = record {
  store = λ a. record { recurring = false; ms = 0; next = 0; cb = none };
  timers = [];
  tickled = false;
}

abbrev one : TimerManager
one = (add_timer 1 0 5 (plain 7) true unused).0

abbrev taken_out : TimerManager
taken_out = (reset_first 1 40 false 3 one).0

Reachable-IsKept_example : IsKept (add_timer_ptr 1 taken_out).0
Reachable-IsKept_example = Reachable-IsKept (add_timer_ptr 1 taken_out).0 (
    next_call taken_out (add_timer_ptr 1 taken_out).0
      (next_call one taken_out
        (next_call unused one (start unused refl) (added 1 0 5 (plain 7) true unused (λ i. i)))
        (changed 1 40 false 3 one))
      (put_back 1 taken_out))

list_expired_cb_lem_example :
    Expired 3 12 pair (list_expired_cb 3 12 pair).0 (list_expired_cb 3 12 pair).1
list_expired_cb_lem_example = list_expired_cb_lem 3 12 pair pair-IsKept three_not-In

reset_done : (reset 2 100 true 30 pair).1 ≡ true
unfolding reset reset_last reset_first set_erase comparator
reset_done = refl

cancelled_requeued_example :
    In 1 (requeue 12 (1 ∷ []) (cancel 1 pair).0).0.timers
    × ((requeue 12 (1 ∷ []) (cancel 1 pair).0).1 ≡ none ∷ [])
    × (((requeue 12 (1 ∷ []) (cancel 1 pair).0).0.store 1).cb ≡ none)
cancelled_requeued_example = cancelled_requeued 1 12 pair pair-IsKept (λ e. cc) refl
