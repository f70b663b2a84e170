-- ===== src/IoManager/Idle.antt =====
-- A round of `IOManager::idle` in saturn/iomanager.cc: the time to wait, and what is done with the reports
-- of `epoll_wait`.
use saturn.Base.{
  ℕ, ◌-◌, ◌%◌, ◌^◌, Bool, true, not, ◌&&◌, ◌||◌, none, some, List, [], ◌∷◌, get_elem?, ltb, ◌==◌,
  if◌then◌else◌,
}
use saturn.IoManager.{
  read_event, write_event, Events, any_event, FdContext, EpollCtl, IoManager, Attempt, done,
  aborted, ctl_left,
}
use saturn.IoManager.Calls.{◌>>=◌, called, trigger_if}

-- What `epoll_wait` reports: the pipe of `tickle`, or a descriptor, where `failed` is
-- `EPOLLERR | EPOLLHUP`.
pub record Flags : Type 0 where
  pub failed : Bool
  pub input : Bool
  pub output : Bool

pub data Report : Type 0 where
  tickled : Report
  reported : ℕ → Flags → Report

-- `real_events`.
unfoldable pub real_events : Flags → Events → Events
real_events r es = record {
  reads = r.input || (r.failed && es.reads);
  writes = r.output || (r.failed && es.writes);
}

-- `fc->events & real_events`.
abbrev pub common : Events → Events → Events
common es real = record { reads = es.reads && real.reads; writes = es.writes && real.writes }

-- `fc->events & ~real_events`.
abbrev pub left_events : Events → Events → Events
left_events es real = record {
  reads = es.reads && not real.reads;
  writes = es.writes && not real.writes;
}

abbrev pub rearm_call : ℕ → Events → EpollCtl
rearm_call fd es = record {
  op = ctl_left es;
  fd = fd;
  flags = record { edge = true; input = es.reads; output = es.writes };
}

-- Both triggers of a report.
unfoldable pub trigger_real : ℕ → Events → FdContext × IoManager → Attempt (FdContext × IoManager)
trigger_real fd real s =
    trigger_if real.reads fd read_event s >>= λ s. trigger_if real.writes fd write_event s

unfoldable pub handle_in :
    (EpollCtl → Bool) → ℕ → Events → FdContext → IoManager → Attempt IoManager
handle_in epoll_ctl fd real fc m =
    if any_event (common fc.events real)
    then (let c = rearm_call fc.fd (left_events fc.events real) in
        if epoll_ctl c
        then (trigger_real fd real (fc, called c m) >>= λ s. done s.1)
        else done (called c m))
    else done m

unfoldable pub handle_report : (EpollCtl → Bool) → Report → IoManager → Attempt IoManager
handle_report epoll_ctl tickled m = done m
handle_report epoll_ctl (reported fd r) m = elim (get_elem? m.contexts fd) [
  | none ↦ aborted
  | some fc ↦ handle_in epoll_ctl fd (real_events r fc.events) fc m
]

unfoldable pub handle_reports : (EpollCtl → Bool) → List Report → IoManager → Attempt IoManager
handle_reports epoll_ctl [] m = done m
handle_reports epoll_ctl (r ∷ rs) m = handle_report epoll_ctl r m >>= handle_reports epoll_ctl rs

-- The last argument of `epoll_wait`, an `int` in two's complement: from 2 ^ 31 on it is negative.
unfoldable pub wait_time : ℕ → ℕ
wait_time next_timeout =
    if next_timeout == 2 ^ 64 - 1
    then 3000
    else if ltb 3000 (next_timeout % 2 ^ 32) && ltb (next_timeout % 2 ^ 32) (2 ^ 31)
    then 3000
    else next_timeout % 2 ^ 32

-- `stopping(time_out)`, where `time_out` is what `getNextTimer` returns and `scheduler_stops` what
-- `Scheduler::stopping` does.
unfoldable pub stopping : ℕ → Bool → IoManager → Bool
stopping time_out scheduler_stops m =
    (time_out == 2 ^ 64 - 1) && (m.pending == 0) && scheduler_stops
