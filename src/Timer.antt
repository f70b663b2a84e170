-- ===== src/Timer.antt =====
-- saturn/timer.h and saturn/timer.cc. The clock is an argument of the calls that read it, and so is the
-- address of a timer that a call allocates.
pub mod Order
pub mod Erase
pub mod Kept
pub mod Steps
pub mod Expiry
pub mod Requeue
pub mod Recurring
use saturn.Base.{
  ℕ, ◌+◌, ◌-◌, ◌%◌, ◌^◌, Bool, true, false, not, ◌&&◌, ◌||◌, Option, none, some, List, [], ◌∷◌,
  ◌++◌, ltb, ◌==◌, if◌then◌else◌,
}
use mathlib.Core.Option

-- `std::function<void()>`: a plain callback, or one bound to a `weak_ptr` by `addConditionTimer`.
pub data Callback : Type 0 where
  plain : ℕ → Callback
  conditional : ℕ → ℕ → Callback

-- What a callback calls, where `alive` tells whether the object of a `weak_ptr` still exists.
unfoldable pub called : (ℕ → Bool) → Callback → Option ℕ
called alive (plain cb) = some cb
called alive (conditional cond cb) = if alive cond then some cb else none

-- `cb` is `none` for a null function.
pub record Timer : Type 0 where
  pub recurring : Bool
  pub ms : ℕ
  pub next : ℕ
  pub cb : Option Callback

-- `store` gives the timer at an address, and `timers` is the set, in its order.
pub record TimerManager : Type 0 where
  pub store : ℕ → Timer
  pub timers : List ℕ
  pub tickled : Bool

abbrev pub update : (ℕ → Timer) → ℕ → Timer → ℕ → Timer
update store a t b = if b == a then t else store b

abbrev pub add64 : ℕ → ℕ → ℕ
add64 a b = (a + b) % 2 ^ 64

abbrev pub sub64 : ℕ → ℕ → ℕ
sub64 a b = (a + 2 ^ 64 - b) % 2 ^ 64

-- `Comparator::operator()`; a null pointer comes first.
unfoldable pub comparator : (ℕ → Timer) → Option ℕ → Option ℕ → Bool
comparator store none none = false
comparator store none (some r) = true
comparator store (some l) none = false
comparator store (some l) (some r) =
    if ltb (store l).next (store r).next
    then true
    else if ltb (store r).next (store l).next
    then false
    else ltb l r

abbrev pub less : (ℕ → Timer) → ℕ → ℕ → Bool
less store a b = comparator store (some a) (some b)

-- `std::set`: the insertion keeps the elements in order, and adds nothing beside an equivalent one.
unfoldable pub set_insert : (ℕ → Timer) → ℕ → List ℕ → List ℕ
set_insert store a [] = a ∷ []
set_insert store a (x ∷ xs) =
    if less store a x
    then a ∷ x ∷ xs
    else if less store x a
    then x ∷ set_insert store a xs
    else x ∷ xs

-- `find` and `erase` of the element found; `none` is `end()`.
unfoldable pub set_erase : (ℕ → Timer) → ℕ → List ℕ → Option (List ℕ)
set_erase store a [] = none
set_erase store a (x ∷ xs) =
    if not (less store a x) && not (less store x a)
    then some xs
    else Option.map (λ ys. x ∷ ys) (set_erase store a xs)

-- The elements before `upper_bound`, and those from it on.
unfoldable pub set_split : (ℕ → Timer) → ℕ → List ℕ → List ℕ × List ℕ
set_split store a [] = ([], [])
set_split store a (x ∷ xs) =
    let (taken, left) = set_split store a xs in
    if less store a x then ([], x ∷ xs) else (x ∷ taken, left)

abbrev pub is_front : ℕ → List ℕ → Bool
is_front a [] = false
is_front a (x ∷ xs) = x == a

-- `TimerManager::addTimer(Timer::ptr)`; the result tells whether `onTimerInsertedAtFront` is called.
unfoldable pub add_timer_ptr : ℕ → TimerManager → TimerManager × Bool
add_timer_ptr a m =
    let timers = set_insert m.store a m.timers in
    let front = is_front a timers && not m.tickled in
    (record m { timers = timers; tickled = if front then true else m.tickled }, front)

-- `addTimer(ms, cb, recurring)`, with the new timer at the address `a`.
unfoldable pub add_timer : ℕ → ℕ → ℕ → Callback → Bool → TimerManager → TimerManager × Bool
add_timer a now ms cb recurring m =
    let t : Timer = record { recurring = recurring; ms = ms; next = add64 now ms; cb = some cb } in
    add_timer_ptr a (record m { store = update m.store a t })

unfoldable pub add_condition_timer : ℕ → ℕ → ℕ → ℕ → ℕ → Bool → TimerManager → TimerManager × Bool
add_condition_timer a now ms cb cond recurring m =
    add_timer a now ms (conditional cond cb) recurring m

abbrev pub erased : TimerManager → Option (List ℕ) → TimerManager × Bool
erased m none = (m, false)
erased m (some xs) = (record m { timers = xs }, true)

-- `Timer::cancel`.
unfoldable pub cancel : ℕ → TimerManager → TimerManager × Bool
cancel a m = elim (m.store a).cb [
  | none ↦ (m, false)
  | some cb ↦
      erased (record m { store = update m.store a (record (m.store a) { cb = none }) })
        (set_erase (update m.store a (record (m.store a) { cb = none })) a m.timers)
]

-- The end of `refresh`, once the timer is out of the set.
unfoldable pub refresh_in : ℕ → ℕ → TimerManager → List ℕ → TimerManager
refresh_in a now m xs =
    let t = m.store a in
    let store = update m.store a (record t { next = add64 now t.ms }) in
    record m { store = store; timers = set_insert store a xs }

-- `Timer::refresh`.
unfoldable pub refresh : ℕ → ℕ → TimerManager → TimerManager × Bool
refresh a now m = elim (m.store a).cb [
  | none ↦ (m, false)
  | some cb ↦ elim (set_erase m.store a m.timers) [
    | none ↦ (m, false)
    | some xs ↦ (refresh_in a now m xs, true)
  ]
]

-- The end of `reset`: with `from_now` the next time is reckoned with the interval that the timer has,
-- and then the interval is changed.
unfoldable pub reset_in : ℕ → ℕ → Bool → ℕ → TimerManager → List ℕ → TimerManager
reset_in a ms from_now now m xs =
    let t = m.store a in
    let next = if from_now then add64 now t.ms else add64 (sub64 t.next t.ms) ms in
    record m { store = update m.store a (record t { next = next; ms = ms }); timers = xs }

-- The first locked part of `Timer::reset`: the timer leaves the set and is changed; the result tells whether the
-- second part follows.
unfoldable pub reset_first : ℕ → ℕ → Bool → ℕ → TimerManager → TimerManager × Bool
reset_first a ms from_now now m = elim (m.store a).cb [
  | none ↦ (m, false)
  | some cb ↦ elim (set_erase m.store a m.timers) [
    | none ↦ (m, false)
    | some xs ↦ (reset_in a ms from_now now m xs, true)
  ]
]

-- The second part, `addTimer` with a lock of its own, where it follows.
unfoldable pub reset_last : ℕ → TimerManager × Bool → TimerManager × Bool × Bool
reset_last a (m, false) = (m, false, false)
reset_last a (m, true) = ((add_timer_ptr a m).0, true, (add_timer_ptr a m).1)

-- `Timer::reset` with nothing between its two parts; the last result tells whether `onTimerInsertedAtFront` is
-- called.
unfoldable pub reset : ℕ → ℕ → Bool → ℕ → TimerManager → TimerManager × Bool × Bool
reset a ms from_now now m = reset_last a (reset_first a ms from_now now m)

-- `getNextTimer`; `~0uLL` stands for no timer.
abbrev pub no_timer : ℕ
no_timer = 2 ^ 64 - 1

unfoldable pub wait_for : ℕ → (ℕ → Timer) → List ℕ → ℕ
wait_for now store [] = no_timer
wait_for now store (x ∷ xs) = if ltb now (store x).next then (store x).next - now else 0

unfoldable pub get_next_timer : ℕ → TimerManager → TimerManager × ℕ
get_next_timer now m = (record m { tickled = false }, wait_for now m.store m.timers)

unfoldable pub has_timer : TimerManager → Bool
has_timer m = elim m.timers [ [] ↦ false | x ∷ xs ↦ true ]

-- The first locked part of `listExpiredCb`: the timers before the one that marks the time, which is
-- allocated at the address `cur`, leave the set.
unfoldable pub take_expired : ℕ → ℕ → TimerManager → TimerManager × List ℕ
take_expired cur now m =
    let mark : Timer = record { recurring = false; ms = 0; next = now; cb = none } in
    let parts = set_split (update m.store cur mark) cur m.timers in
    (record m { timers = parts.1 }, parts.0)

-- The second locked part: the callbacks in order, and the recurring timers back in the set.
unfoldable pub requeue : ℕ → List ℕ → TimerManager → TimerManager × List (Option Callback)
requeue now [] m = (m, [])
requeue now (a ∷ expired) m =
    let t = m.store a in
    let store = update m.store a (record t { next = add64 now t.ms }) in
    let m' =
      if t.recurring then record m { store = store; timers = set_insert store a m.timers } else m in
    let rest = requeue now expired m' in (rest.0, t.cb ∷ rest.1)

-- `listExpiredCb` with nothing between its two parts.
unfoldable pub list_expired_cb : ℕ → ℕ → TimerManager → TimerManager × List (Option Callback)
list_expired_cb cur now m = requeue now (take_expired cur now m).1 (take_expired cur now m).0
