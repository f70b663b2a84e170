-- ===== src/Timer/Steps.antt =====
-- Sequences of the operations of saturn/timer.cc.
use saturn.Base.{ℕ, Bool, [], ◌≡◌, subst, sym}
use saturn.Timer.{Callback, TimerManager, add_timer, cancel, refresh, reset_first, add_timer_ptr}
use saturn.Timer.Order.{In, IsOrdered}
use saturn.Timer.Kept.{
  IsKept, add_timer-IsKept, cancel-IsKept, refresh-IsKept, reset_first-IsKept, add_timer_ptr-IsKept,
}

-- One call, or one of the two locked parts of `reset`: the first, and the `addTimer` behind it. A timer that is
-- added has an address of its own.
pub data Step : TimerManager → TimerManager → Type 0 where
  added :
      (a now ms : ℕ) (cb : Callback) (recurring : Bool) (m : TimerManager)
      → ¬ In a m.timers
      → Step m (add_timer a now ms cb recurring m).0
  cancelled : (a : ℕ) (m : TimerManager) → Step m (cancel a m).0
  refreshed : (a now : ℕ) (m : TimerManager) → Step m (refresh a now m).0
  changed :
      (a ms : ℕ) (from_now : Bool) (now : ℕ) (m : TimerManager)
      → Step m (reset_first a ms from_now now m).0
  put_back : (a : ℕ) (m : TimerManager) → Step m (add_timer_ptr a m).0

-- What calls lead to from a manager without timers.
pub data Reachable : TimerManager → Type 0 where
  start : (m : TimerManager) → m.timers ≡ [] → Reachable m
  next_call : (m n : TimerManager) → Reachable m → Step m n → Reachable n

Step-IsKept : (m n : TimerManager) → Step m n → IsKept m → IsKept n
Step-IsKept _ _ (added a now ms cb recurring m fresh) k =
    add_timer-IsKept a now ms cb recurring m fresh k
Step-IsKept _ _ (cancelled a m) k = cancel-IsKept a m k
Step-IsKept _ _ (refreshed a now m) k = refresh-IsKept a now m k
Step-IsKept _ _ (changed a ms from_now now m) k = reset_first-IsKept a ms from_now now m k
Step-IsKept _ _ (put_back a m) k = add_timer_ptr-IsKept a m k

-- Any sequence of `addTimer`, each at an address outside the set, `cancel`, `refresh` and the two locked parts of
-- `reset`, with any calls between these, from a manager without timers on, leaves the set in the order of
-- `Comparator`.
pub Reachable-IsKept : (m : TimerManager) → Reachable m → IsKept m
Reachable-IsKept _ (start m e) = subst (IsOrdered m.store) (sym e) tt
Reachable-IsKept _ (next_call m n r s) = Step-IsKept m n s (Reachable-IsKept m r)
