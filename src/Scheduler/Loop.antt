-- ===== src/Scheduler/Loop.antt =====
-- What a whole round of the loop of `run` in saturn/scheduler.cc leaves.
use saturn.Base.{suc, Bool, List}
use saturn.Scheduler.{FiberAndThread, tickle_if, schedule_each, Worker}

-- The thread with the tasks that the search has left.
abbrev searched : List FiberAndThread → Bool → Worker → Worker
searched rest tickle_me w = record w {
  scheduler = tickle_if tickle_me (record w.scheduler { fibers = rest });
}

-- Behind the idle fiber.
abbrev idled : List FiberAndThread × Bool → Worker → Worker
idled idles w = record w { scheduler = schedule_each idles.0 w.scheduler; idle_over = idles.1 }

-- With one more active task.
abbrev counted : Worker → Worker
counted w = record w { scheduler = record w.scheduler { active = suc w.scheduler.active } }
