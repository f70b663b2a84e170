-- ===== src/Tests/Schedules.antt =====
-- The rounds of saturn/scheduler.cc at concrete inputs.
use saturn.Base.{ℕ, ◌≡◌, refl, true, false, Option, none, some, List, [], ◌∷◌, ◌==◌, if◌then◌else◌}
use saturn.IoManager.{done}
use saturn.Fiber.{init, hold, exec, yields_ready, returns, States, is_exec}
use saturn.Scheduler.{
  FiberAndThread, is_some, is_empty, has_work, for_another, is_running, keep, take_task, Worker,
  Runs,
}
use saturn.Scheduler.Tasks.{Finds, take_task-Finds}

abbrev task : Option ℕ → Option ℕ → Option ℕ → FiberAndThread
task fiber cb thread = record { fiber = fiber; cb = cb; thread = thread }

-- For thread 9, of fiber 4, which runs, of fiber 5, and a callback.
abbrev tasks : List FiberAndThread
tasks =
    task (some 3) none (some 9)
    ∷ task (some 4) none none
    ∷ task (some 5) none none
    ∷ task none (some 7) none
    ∷ []

-- Fiber 2 is kept for callbacks.
abbrev states : States
states f = if f == 4 then exec else if f == 2 then init else hold

abbrev worker : Worker
worker = record {
  scheduler = record {
    fibers = tasks;
    active = 1;
    is_stopping = false;
    auto_stop = false;
    tickles = 0;
  };
  states = states;
  cb_fiber = some 2;
  idle_over = false;
}

-- Fiber 5 yields, and every other returns.
abbrev runs : Runs
runs f = ([], if f == 5 then yields_ready else returns)

take_task_run :
    take_task 8 states tasks
    ≡ done (
      some (task (some 5) none none),
      task (some 3) none (some 9) ∷ task (some 4) none none ∷ task none (some 7) none ∷ [],
      true,
    )
unfolding take_task keep for_another is_running has_work is_some is_exec is_empty
take_task_run = refl

take_task-Finds_example : Finds 8 states tasks (take_task 8 states tasks)
unfolding has_work is_some
take_task-Finds_example = take_task-Finds 8 states tasks (refl, (refl, (refl, (refl, tt))))
