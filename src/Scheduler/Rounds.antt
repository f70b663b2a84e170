-- ===== src/Scheduler/Rounds.antt =====
-- What a round of `run` in saturn/scheduler.cc leaves.
use saturn.Base.{
  ℕ, ◌-◌, ◌≡◌, refl, sym, ap, subst, ◌∙◌, inl, inr, Bool, true, false, Option, none, some, List, [],
  ◌∷◌, ◌++◌, All, All-append, ◌==◌, ==_iff, if◌then◌else◌, Bool-cases,
}
use saturn.IoManager.{done}
use saturn.Fiber.{
  State, init, hold, exec, term, ready, except, Leave, yields_ready, yields_hold, returns, throws,
  is_exec, States, set_state, left, swap_in,
}
use saturn.Scheduler.{
  FiberAndThread, Scheduler, has_work, schedule_no_lock, tickle_if, schedule, schedule_each, Worker,
  Runs, of_fiber, leave_active, after_fiber, fiber_round,
}

abbrev pub Work : List FiberAndThread → Type 0
Work ts = All (λ t. has_work t ≡ true) ts

-- The fiber that is kept for callbacks is in the state in which it can be reset.
abbrev pub Kept : Option ℕ → States → Type 0
Kept none states = Unit {0}
Kept (some c) states = states c ≡ init

-- A thread between two rounds.
pub record IsValid (w : Worker) : Type 0 where
  pub work : Work w.scheduler.fibers
  pub kept : Kept w.cb_fiber w.states

-- No fiber runs that did not run before.
abbrev pub Quiet : States → States → Type 0
Quiet states states' = (f : ℕ) → is_exec (states' f) ≡ true → is_exec (states f) ≡ true

pub tickle_if-active : (b : Bool) (s : Scheduler) → (tickle_if b s).active ≡ s.active
unfolding tickle_if
tickle_if-active true s = refl
tickle_if-active false s = refl

pub tickle_if-fibers : (b : Bool) (s : Scheduler) → (tickle_if b s).fibers ≡ s.fibers
unfolding tickle_if
tickle_if-fibers true s = refl
tickle_if-fibers false s = refl

schedule-active : (t : FiberAndThread) (s : Scheduler) → (schedule t s).active ≡ s.active
unfolding schedule
schedule-active t s =
    tickle_if-active (schedule_no_lock t s.fibers).1
      (record s { fibers = (schedule_no_lock t s.fibers).0 })

schedule-Work : (t : FiberAndThread) (s : Scheduler) → Work s.fibers → Work (schedule t s).fibers
unfolding schedule schedule_no_lock
schedule-Work t s h =
    subst Work
      (sym (
        tickle_if-fibers (schedule_no_lock t s.fibers).1
          (record s { fibers = (schedule_no_lock t s.fibers).0 })))
      (pushed (has_work t) refl)
  where
    pushed : (b : Bool) → has_work t ≡ b → Work (if b then s.fibers ++ t ∷ [] else s.fibers)
    pushed true e = All-append (λ t. has_work t ≡ true) s.fibers (t ∷ []) h (e, tt)
    pushed false e = h

pub schedule_each-active :
    (ts : List FiberAndThread) (s : Scheduler) → (schedule_each ts s).active ≡ s.active
unfolding schedule_each
schedule_each-active [] s = refl
schedule_each-active (t ∷ ts) s = schedule_each-active ts (schedule t s) ∙ schedule-active t s

pub schedule_each-Work :
    (ts : List FiberAndThread) (s : Scheduler) → Work s.fibers → Work (schedule_each ts s).fibers
unfolding schedule_each
schedule_each-Work [] s h = h
schedule_each-Work (t ∷ ts) s h = schedule_each-Work ts (schedule t s) (schedule-Work t s h)

pub set_state-same : (f : ℕ) (s : State) (states : States) → set_state f s states f ≡ s
unfolding set_state
set_state-same f s states = rw ((==_iff f f).1 refl) refl

set_state-other :
    (f g : ℕ) (s : State) (states : States) → (f == g) ≡ false → set_state f s states g ≡ states g
unfolding set_state
set_state-other f g s states e = rw e refl

left-rests : (l : Leave) → is_exec (left l) ≡ false
unfolding left is_exec
left-rests yields_ready = refl
left-rests yields_hold = refl
left-rests returns = refl
left-rests throws = refl

pub set_state-Quiet :
    (f : ℕ) (s : State) (states : States) → is_exec s ≡ false → Quiet states (set_state f s states)
set_state-Quiet f s states r g e = elim (Bool-cases (f == g)) [
  | inr n ↦ sym (ap is_exec (set_state-other f g s states n)) ∙ e
  | inl y ↦
      let same : set_state f s states g ≡ s =
        subst (λ h. set_state f s states h ≡ s) ((==_iff f g).0 y) (set_state-same f s states) in
      absurd (cc (ap is_exec same, e, r))
]

-- The states after a fiber has run.
abbrev pub ran : ℕ → Leave → States → States
ran f l states = set_state f (left l) (set_state f exec states)

pub ran-Quiet : (f : ℕ) (l : Leave) (states : States) → Quiet states (ran f l states)
ran-Quiet f l states g e = elim (Bool-cases (f == g)) [
  | inr n ↦ set_state-Quiet f (left l) states (left-rests l) g (
      ap is_exec (
        set_state-other f g (left l) states n
        ∙ sym (set_state-other f g exec states n)
        ∙ sym (set_state-other f g (left l) (set_state f exec states) n))
      ∙ e)
  | inl y ↦
      let same : ran f l states g ≡ left l =
        subst (λ h. ran f l states h ≡ left l) ((==_iff f g).0 y)
          (set_state-same f (left l) (set_state f exec states)) in
      let rests : is_exec (left l) ≡ false = left-rests l in absurd (cc (ap is_exec same, e, rests))
]

pub swap_in_done :
    (f : ℕ) (l : Leave) (states : States)
    → is_exec (states f) ≡ false
    → swap_in f l states ≡ done (ran f l states)
unfolding swap_in
swap_in_done f l states e = rw e refl

-- The fiber is not the one that is kept.
abbrev pub Apart : Option ℕ → ℕ → Type 0
Apart none f = Unit {0}
Apart (some c) f = (f == c) ≡ false

Kept-set_state :
    (k : Option ℕ) (f : ℕ) (s : State) (states : States)
    → Apart k f
    → Kept k states
    → Kept k (set_state f s states)
Kept-set_state none f s states a h = tt
Kept-set_state (some c) f s states a h = set_state-other f c s states a ∙ h

-- What a task leaves: the thread is valid again, the task is no longer counted, and no fiber runs.
pub record Left (w w' : Worker) : Type 0 where
  pub valid : IsValid w'
  pub active : w'.scheduler.active ≡ w.scheduler.active - 1
  pub quiet : Quiet w.states w'.states

-- The same, where the task has been taken from the count already.
pub record Settled (w w' : Worker) : Type 0 where
  pub valid : IsValid w'
  pub active : w'.scheduler.active ≡ w.scheduler.active
  pub quiet : Quiet w.states w'.states

pub rescheduled :
    (f : ℕ) (k : Option ℕ) (w : Worker)
    → IsValid w
    → Kept k w.states
    → Settled w (record w { scheduler = schedule (of_fiber f) w.scheduler; cb_fiber = k })
rescheduled f k w v h = record {
  valid = record { work = schedule-Work (of_fiber f) w.scheduler v.work; kept = h };
  active = schedule-active (of_fiber f) w.scheduler;
  quiet = λ g e. e;
}

pub held :
    (f : ℕ) (k : Option ℕ) (w : Worker)
    → IsValid w
    → Apart k f
    → Kept k w.states
    → Settled w (record w { states = set_state f hold w.states; cb_fiber = k })
unfolding is_exec
held f k w v a h = record {
  valid = record { work = v.work; kept = Kept-set_state k f hold w.states a h };
  active = refl;
  quiet = set_state-Quiet f hold w.states refl;
}

unchanged : (w : Worker) → IsValid w → Settled w w
unchanged w v = record { valid = v; active = refl; quiet = λ g e. e }

after_fiber-Settled :
    (st : State) (f : ℕ) (w : Worker)
    → IsValid w
    → Apart w.cb_fiber f
    → Settled w (after_fiber st f w)
unfolding after_fiber
after_fiber-Settled init f w v a = held f w.cb_fiber w v a v.kept
after_fiber-Settled hold f w v a = held f w.cb_fiber w v a v.kept
after_fiber-Settled exec f w v a = held f w.cb_fiber w v a v.kept
after_fiber-Settled term f w v a = unchanged w v
after_fiber-Settled ready f w v a = rescheduled f w.cb_fiber w v v.kept
after_fiber-Settled except f w v a = unchanged w v

-- The thread behind a fiber that has run.
abbrev pub behind : Runs → ℕ → States → Worker → Worker
behind runs f states w = record w {
  scheduler = leave_active (schedule_each (runs f).0 w.scheduler);
  states = ran f (runs f).1 states;
}

pub behind-active :
    (runs : Runs) (f : ℕ) (states : States) (w : Worker)
    → (behind runs f states w).scheduler.active ≡ w.scheduler.active - 1
unfolding leave_active
behind-active runs f states w = ap (λ n. n - 1) (schedule_each-active (runs f).0 w.scheduler)

pub behind-Work :
    (runs : Runs) (f : ℕ) (states : States) (w : Worker)
    → Work w.scheduler.fibers
    → Work (behind runs f states w).scheduler.fibers
unfolding leave_active
behind-Work runs f states w h = schedule_each-Work (runs f).0 w.scheduler h

pub fiber_round-Left :
    (runs : Runs) (f : ℕ) (w : Worker)
    → IsValid w
    → is_exec (w.states f) ≡ false
    → Apart w.cb_fiber f
    → (w' : Worker) × (fiber_round runs f w ≡ done w') × Left w w'
unfolding fiber_round
fiber_round-Left runs f w v r a =
    let next = behind runs f w.states w in
    let ok : IsValid next = record {
      work = behind-Work runs f w.states w v.work;
      kept =
          Kept-set_state w.cb_fiber f (left (runs f).1) (set_state f exec w.states) a
            (Kept-set_state w.cb_fiber f exec w.states a v.kept);
    } in
    let s : Settled next (after_fiber (next.states f) f next) =
      after_fiber-Settled (next.states f) f next ok a in
    (
      after_fiber (next.states f) f next,
      rw (swap_in_done f (runs f).1 w.states r, fiber_round) refl,
      record {
        valid = s.valid;
        active = s.active ∙ behind-active runs f w.states w;
        quiet = λ g e. ran-Quiet f (runs f).1 w.states g (s.quiet g e);
      },
    )
