-- ===== src/Scheduler.antt =====
-- saturn/scheduler.h and saturn/scheduler.cc: the tasks of a scheduler, and a round of the loop of `run` in
-- one of its threads.
pub mod Tasks
pub mod Rounds
pub mod Callbacks
pub mod Loop
use saturn.Base.{
  ℕ, zero, suc, ◌+◌, ◌-◌, Bool, true, false, not, ◌&&◌, ◌||◌, Option, none, some, List, [], ◌∷◌,
  ◌++◌, ◌==◌, if◌then◌else◌,
}
use saturn.IoManager.{Attempt, done, aborted}
use saturn.IoManager.Calls.{◌>>=◌}
use saturn.Fiber.{
  State, init, hold, exec, term, ready, except, Leave, is_exec, is_over, States, set_state, reset,
  swap_in,
}

-- A task: a fiber or a callback, for one thread or for any.
pub record FiberAndThread : Type 0 where
  pub fiber : Option ℕ
  pub cb : Option ℕ
  pub thread : Option ℕ

-- `tickles` counts the calls of `tickle`. The count of idle threads is the same before and after each round, and
-- is left out.
pub record Scheduler : Type 0 where
  pub fibers : List FiberAndThread
  pub active : ℕ
  pub is_stopping : Bool
  pub auto_stop : Bool
  pub tickles : ℕ

unfoldable pub is_some {ℓ} : {A : Type ℓ} → Option A → Bool
is_some none = false
is_some (some a) = true

unfoldable pub is_empty : List FiberAndThread → Bool
is_empty [] = true
is_empty (t ∷ ts) = false

-- `it->fiber || it->cb`.
unfoldable pub has_work : FiberAndThread → Bool
has_work t = is_some t.fiber || is_some t.cb

-- The tasks behind `scheduleNoLock`, which returns whether there were none.
unfoldable pub schedule_no_lock : FiberAndThread → List FiberAndThread → List FiberAndThread × Bool
schedule_no_lock t ts = (if has_work t then ts ++ t ∷ [] else ts, is_empty ts)

unfoldable pub tickle_if : Bool → Scheduler → Scheduler
tickle_if b s = if b then record s { tickles = suc s.tickles } else s

unfoldable pub schedule : FiberAndThread → Scheduler → Scheduler
schedule t s = let r = schedule_no_lock t s.fibers in tickle_if r.1 (record s { fibers = r.0 })

-- What a fiber schedules while it runs, one call after the other.
unfoldable pub schedule_each : List FiberAndThread → Scheduler → Scheduler
schedule_each [] s = s
schedule_each (t ∷ ts) s = schedule_each ts (schedule t s)

unfoldable pub stopping : Scheduler → Bool
stopping s = s.auto_stop && s.is_stopping && is_empty s.fibers && s.active == 0

-- `it->thread != -1 && it->thread != getThreadId()`.
unfoldable pub for_another : ℕ → FiberAndThread → Bool
for_another me t = elim t.thread [ none ↦ false | some k ↦ not (k == me) ]

-- `it->fiber && it->fiber->getState() == EXEC`.
unfoldable pub is_running : States → FiberAndThread → Bool
is_running states t = elim t.fiber [ none ↦ false | some f ↦ is_exec (states f) ]

-- A task that is passed over in the search: it stays where it is.
unfoldable pub keep :
    Bool
    → FiberAndThread
    → Attempt (Option FiberAndThread × List FiberAndThread × Bool)
    → Attempt (Option FiberAndThread × List FiberAndThread × Bool)
keep tickle_me t aborted = aborted
keep tickle_me t (done (found, rest, b)) = done (found, t ∷ rest, tickle_me || b)

-- The search of `run`: the task that is taken, the tasks that are left, and `tickle_me`.
unfoldable pub take_task :
    ℕ → States → List FiberAndThread → Attempt (Option FiberAndThread × List FiberAndThread × Bool)
take_task me states [] = done (none, [], false)
take_task me states (t ∷ ts) =
    let rest = take_task me states ts in
    if for_another me t
    then keep true t rest
    else if not (has_work t)
    then aborted
    else if is_running states t
    then keep false t rest
    else done (some t, ts, not (is_empty ts))

-- A thread in `run`: its scheduler, the states of the fibers, its `cb_fiber`, and whether its idle fiber is
-- over.
pub record Worker : Type 0 where
  pub scheduler : Scheduler
  pub states : States
  pub cb_fiber : Option ℕ
  pub idle_over : Bool

-- What a fiber does when it is swapped in: what it schedules, and how it leaves.
abbrev pub Runs : Type 0
Runs = ℕ → List FiberAndThread × Leave

abbrev pub of_fiber : ℕ → FiberAndThread
of_fiber f = record { fiber = some f; cb = none; thread = none }

unfoldable pub leave_active : Scheduler → Scheduler
leave_active s = record s { active = s.active - 1 }

-- What is done with the task's fiber after `swapIn`, by its state.
unfoldable pub after_fiber : State → ℕ → Worker → Worker
after_fiber ready f w = record w { scheduler = schedule (of_fiber f) w.scheduler }
after_fiber term f w = w
after_fiber except f w = w
after_fiber _ f w = record w { states = set_state f hold w.states }

unfoldable pub fiber_round : Runs → ℕ → Worker → Attempt Worker
fiber_round runs f w = swap_in f (runs f).1 w.states >>= λ states. done (
    after_fiber (states f) f (record w {
      scheduler = leave_active (schedule_each (runs f).0 w.scheduler);
      states = states;
    }))

-- What is done with `cb_fiber` after `swapIn`, by its state.
unfoldable pub after_callback : State → ℕ → Worker → Attempt Worker
after_callback ready c w =
    done (record w { scheduler = schedule (of_fiber c) w.scheduler; cb_fiber = none })
after_callback term c w =
    reset c w.states >>= λ states. done (record w { states = states; cb_fiber = some c })
after_callback except c w =
    reset c w.states >>= λ states. done (record w { states = states; cb_fiber = some c })
after_callback _ c w = done (record w { states = set_state c hold w.states; cb_fiber = none })

-- The fiber of a callback: `cb_fiber` again, or a new one at the address `fresh`.
unfoldable pub callback_fiber : ℕ → Worker → Attempt (ℕ × States)
callback_fiber fresh w = elim w.cb_fiber [
  | some c ↦ reset c w.states >>= λ states. done (c, states)
  | none ↦ done (fresh, set_state fresh init w.states)
]

unfoldable pub callback_round : Runs → ℕ → Worker → Attempt Worker
callback_round runs fresh w = callback_fiber fresh w >>= λ r.
    swap_in r.0 (runs r.0).1 r.1 >>= λ states. after_callback (states r.0) r.0 (record w {
      scheduler = leave_active (schedule_each (runs r.0).0 w.scheduler);
      states = states;
    })

-- A task that is taken.
unfoldable pub task_round : Runs → ℕ → FiberAndThread → Worker → Attempt Worker
task_round runs fresh t w =
    let callback =
      if is_some t.cb
      then callback_round runs fresh w
      else done (record w { scheduler = leave_active w.scheduler }) in
    elim t.fiber [
      | none ↦ callback
      | some f ↦ if is_over (w.states f) then callback else fiber_round runs f w
    ]

-- A round of the loop: whether it goes on, and the thread behind it. `idles` are the tasks that others have
-- scheduled while the idle fiber ran, and whether that is over.
unfoldable pub run_round :
    ℕ → ℕ → Runs → List FiberAndThread × Bool → Worker → Attempt (Bool × Worker)
run_round me fresh runs idles w = take_task me w.states w.scheduler.fibers >>= λ r.
    let s = tickle_if r.2 (record w.scheduler { fibers = r.1 }) in
    elim r.0 [
      | some t ↦
          task_round runs fresh t (record w { scheduler = record s { active = suc s.active } })
          >>= λ w'. done (true, w')
      | none ↦
          if w.idle_over
          then done (false, record w { scheduler = s })
          else done (true, record w { scheduler = schedule_each idles.0 s; idle_over = idles.1 })
    ]
