-- ===== src/Scheduler/Callbacks.antt =====
-- What a round of `run` in saturn/scheduler.cc leaves, a callback's included.
use saturn.Base.{
  ℕ, ◌≡◌, refl, sym, ap, subst, ◌∙◌, inl, inr, true, false, Option, none, some, if◌then◌else◌,
  Bool-cases,
}
use saturn.IoManager.{Attempt, done}
use saturn.Fiber.{
  init, hold, exec, Leave, yields_ready, yields_hold, returns, throws, is_exec, is_over,
  is_resettable, States, set_state, reset, left,
}
use saturn.Scheduler.{
  FiberAndThread, is_some, schedule, is_running, Worker, Runs, of_fiber, leave_active,
  after_callback, callback_fiber, callback_round, task_round,
}
use saturn.Scheduler.Rounds.{
  Work, Kept, IsValid, Quiet, Apart, Left, Settled, behind, set_state-same, ran-Quiet, swap_in_done,
  rescheduled, held, behind-active, behind-Work, fiber_round-Left, set_state-Quiet,
}

reset_done :
    (c : ℕ) (states : States)
    → is_resettable (states c) ≡ true
    → reset c states ≡ done (set_state c init states)
unfolding reset
reset_done c states e = rw e refl

-- `cb_fiber` behind a callback that is over.
again :
    (c : ℕ) (w : Worker)
    → Work w.scheduler.fibers
    → Settled w (record w { states = set_state c init w.states; cb_fiber = some c })
unfolding is_exec
again c w v = record {
  valid = record { work = v; kept = set_state-same c init w.states };
  active = refl;
  quiet = set_state-Quiet c init w.states refl;
}

dropped : (w : Worker) → Work w.scheduler.fibers → IsValid (record w { cb_fiber = none })
dropped w v = record { work = v; kept = tt }

after_callback-Settled :
    (l : Leave) (c : ℕ) (w : Worker)
    → Work w.scheduler.fibers
    → w.states c ≡ left l
    → (w' : Worker) × (after_callback (left l) c w ≡ done w') × Settled w w'
unfolding after_callback left is_resettable
after_callback-Settled yields_ready c w v e =
    let s = rescheduled c none (record w { cb_fiber = none }) (dropped w v) tt in
    (
      record w { scheduler = schedule (of_fiber c) w.scheduler; cb_fiber = none },
      refl,
      record { valid = s.valid; active = s.active; quiet = s.quiet },
    )
after_callback-Settled yields_hold c w v e =
    let s = held c none (record w { cb_fiber = none }) (dropped w v) tt tt in
    (
      record w { states = set_state c hold w.states; cb_fiber = none },
      refl,
      record { valid = s.valid; active = s.active; quiet = s.quiet },
    )
after_callback-Settled returns c w v e = (
  record w { states = set_state c init w.states; cb_fiber = some c },
  rw (reset_done c w.states (ap is_resettable e)) refl,
  again c w v,
)
after_callback-Settled throws c w v e = (
  record w { states = set_state c init w.states; cb_fiber = some c },
  rw (reset_done c w.states (ap is_resettable e)) refl,
  again c w v,
)

-- The fiber that a callback runs in can be swapped in.
callback_fiber-Kept :
    (fresh : ℕ) (w : Worker)
    → IsValid w
    → (c : ℕ) × (states : States) × (callback_fiber fresh w ≡ done (c, states))
      × (states c ≡ init)
      × Quiet w.states states
unfolding callback_fiber is_resettable is_exec
callback_fiber-Kept fresh w v = by_kept w.cb_fiber refl
  where
    by_kept :
        (k : Option ℕ)
        → w.cb_fiber ≡ k
        → (c : ℕ) × (states : States) × (callback_fiber fresh w ≡ done (c, states))
          × (states c ≡ init)
          × Quiet w.states states
    by_kept none e = (
      fresh,
      set_state fresh init w.states,
      rw (e, callback_fiber) refl,
      set_state-same fresh init w.states,
      set_state-Quiet fresh init w.states refl,
    )
    by_kept (some c) e =
        let k : w.states c ≡ init = subst (λ o. Kept o w.states) e v.kept in
        (
          c,
          set_state c init w.states,
          rw (e, callback_fiber) (rw (reset_done c w.states (ap is_resettable k)) refl),
          set_state-same c init w.states,
          set_state-Quiet c init w.states refl,
        )

callback_round_of :
    (runs : Runs) (fresh : ℕ) (w : Worker) (c : ℕ) (states : States) (w' : Worker)
    → callback_fiber fresh w ≡ done (c, states)
    → is_exec (states c) ≡ false
    → after_callback (left (runs c).1) c (behind runs c states w) ≡ done w'
    → callback_round runs fresh w ≡ done w'
unfolding callback_round
callback_round_of runs fresh w c states w' got rests did =
    rw (got, callback_round)
      (rw (swap_in_done c (runs c).1 states rests)
        (rw (set_state-same c (left (runs c).1) (set_state c exec states)) did))

callback_round-Left :
    (runs : Runs) (fresh : ℕ) (w : Worker)
    → IsValid w
    → (w' : Worker) × (callback_round runs fresh w ≡ done w') × Left w w'
unfolding callback_round is_exec
callback_round-Left runs fresh w v =
    let (c, states, got, fresh', quiet) = callback_fiber-Kept fresh w v in
    let next = behind runs c states w in
    let (w', did, s) =
      after_callback-Settled (runs c).1 c next (behind-Work runs c states w v.work)
        (set_state-same c (left (runs c).1) (set_state c exec states)) in
    (
      w',
      callback_round_of runs fresh w c states w' got (ap is_exec fresh') did,
      record {
        valid = s.valid;
        active = s.active ∙ behind-active runs c states w;
        quiet = λ g e. quiet g (ran-Quiet c (runs c).1 states g (s.quiet g e));
      },
    )

not_running :
    (states : States) (t : FiberAndThread) (f : ℕ)
    → t.fiber ≡ some f
    → is_running states t ≡ false
    → is_exec (states f) ≡ false
unfolding is_running
not_running states t f e r = sym (rw (e, is_running) refl) ∙ r

-- The task is not of the fiber that is kept for callbacks.
abbrev pub Foreign : Option ℕ → FiberAndThread → Type 0
Foreign k t = (f : ℕ) → t.fiber ≡ some f → Apart k f

-- A task that is over when it is taken.
not_counted : (w : Worker) → IsValid w → Left w (record w { scheduler = leave_active w.scheduler })
unfolding leave_active
not_counted w v = record {
  valid = record { work = v.work; kept = v.kept };
  active = refl;
  quiet = λ g e. e;
}

pub task_round-Left :
    (runs : Runs) (fresh : ℕ) (t : FiberAndThread) (w : Worker)
    → IsValid w
    → is_running w.states t ≡ false
    → Foreign w.cb_fiber t
    → (w' : Worker) × (task_round runs fresh t w ≡ done w') × Left w w'
unfolding task_round
task_round-Left runs fresh t w v r a = by_fiber t.fiber refl
  where
    callback : Attempt Worker
    callback =
        if is_some t.cb
        then callback_round runs fresh w
        else done (record w { scheduler = leave_active w.scheduler })

    by_callback : (w' : Worker) × (callback ≡ done w') × Left w w'
    by_callback = elim (Bool-cases (is_some t.cb)) [
      | inl e ↦ rw e (callback_round-Left runs fresh w v)
      | inr e ↦ rw e (record w { scheduler = leave_active w.scheduler }, refl, not_counted w v)
    ]

    by_fiber :
        (o : Option ℕ)
        → t.fiber ≡ o
        → (w' : Worker) × (task_round runs fresh t w ≡ done w') × Left w w'
    by_fiber none e = rw (e, task_round) by_callback
    by_fiber (some f) e =
        rw (e, task_round)
          (elim (Bool-cases (is_over (w.states f))) [
            | inl o ↦ rw o by_callback
            | inr o ↦ rw o (fiber_round-Left runs f w v (not_running w.states t f e r) (a f e))
          ])
