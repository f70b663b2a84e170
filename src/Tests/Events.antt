-- ===== src/Tests/Events.antt =====
-- The events of saturn/iomanager.cc at concrete inputs.
use saturn.Base.{
  ◌-◌, ◌^◌, ◌≤◌, ◌<◌, min, ◌≡◌, refl, Bool, true, false, ◌&&◌, none, some, [], ◌∷◌, get_elem?,
  arith, if◌then◌else◌,
}
use saturn.FdManager.{Datas, del, entry_at}
use saturn.Hook.Flags.{close}
use saturn.Hook.NonBlocking.{close-IsReleased}
use saturn.IoManager.{
  write_event, call, FdContext, EpollCtl, IoManager, done, aborted, Caller, any_event, new_context,
  reach, context_resize, get_context, trigger_event, trigger_context, schedule_context, put_context,
}
use saturn.IoManager.Calls.{
  called, add_event, cancel_all, none_call, cancel_waiters, trigger_if, trigger_in,
}
use saturn.IoManager.Idle.{
  Flags, reported, handle_report, real_events, common, left_events, rearm_call, wait_time,
}
use saturn.IoManager.Waiting.{waiting}
use saturn.IoManager.Rounds.{Scheduled}
use saturn.IoManager.Kept.{IsValid}
use saturn.IoManager.Adding.{task_of, joined, add_event-IsValid}
use saturn.IoManager.Reports.{Asked, handle_report-IsValid, handle_report_unasked, wait_time_lem}

-- Callback 7 waits for reading on descriptor 0.
abbrev reader : FdContext
reader = record {
  read = waiting 5 (call 7);
  write = record { scheduler = none; fiber = none; cb = none };
  fd = 0;
  events = record { reads = true; writes = false };
}

abbrev manager : IoManager
manager = record { contexts = reader ∷ new_context 1 ∷ []; pending = 1; scheduled = []; calls = [] }

abbrev always : EpollCtl → Bool
always c = true

abbrev me : Caller
me = record { scheduler = some 5; fiber = 9; executes = true }

abbrev hangup : Flags
hangup = record { failed = true; input = false; output = false }

abbrev in_and_out : Flags
in_and_out = record { failed = false; input = true; output = true }

manager-IsValid : IsValid manager
manager-IsValid = record {
  filled = (((5, call 7, refl), refl), ((refl, refl), tt));
  counted = refl;
}

manager-reach : get_elem? (reach 3 manager).contexts 3 ≡ some (new_context 3)
unfolding reach context_resize
manager-reach = refl

cancel_all_run :
    cancel_all always 0 manager
    ≡ done (
      record {
        contexts = new_context 0 ∷ new_context 1 ∷ [];
        pending = 0;
        scheduled = (5, call 7) ∷ [];
        calls = none_call 0 ∷ [];
      },
      true,
    )
unfolding cancel_all cancel_waiters trigger_if trigger_in trigger_event trigger_context
    schedule_context put_context get_context
cancel_all_run = refl

wait_time_run : wait_time 5000 ≡ 3000
unfolding wait_time
wait_time_run = refl

add_event-IsValid_example :
    (c : EpollCtl) × (add_event always me 3 write_event (some 8) manager ≡ (
      if always c
      then done (
        joined 3 write_event
            (waiting 5 (task_of me (some 8)))
            (new_context 3)
            (called c (reach 3 manager)),
        true,
      )
      else done (called c (reach 3 manager), false)))
    × IsValid (
        joined 3 write_event
          (waiting 5 (task_of me (some 8)))
          (new_context 3)
          (called c (reach 3 manager)))
add_event-IsValid_example =
    add_event-IsValid always me 5 3 write_event (some 8) (new_context 3) manager manager-IsValid
      (omega arith) (λ e. absurd cc) refl refl manager-reach refl

hangup-Asked : Asked hangup reader.events
hangup-Asked = record { input = λ e. absurd cc; output = λ e. absurd cc }

handle_report-IsValid_example :
    (m' : IoManager) × (handle_report always (reported 0 hangup) manager ≡ done m')
    × IsValid m'
    × (if any_event (common reader.events (real_events hangup reader.events))
          && always (rearm_call 0 (left_events reader.events (real_events hangup reader.events)))
        then Scheduled (real_events hangup reader.events) reader manager m'
        else m'.scheduled ≡ manager.scheduled)
handle_report-IsValid_example =
    handle_report-IsValid always 0 hangup reader manager manager-IsValid refl hangup-Asked

handle_report_unasked_example : handle_report always (reported 0 in_and_out) manager ≡ aborted
handle_report_unasked_example =
    handle_report_unasked always 0 in_and_out reader manager manager-IsValid refl refl refl refl
      refl

wait_time_lem_example :
    (5000 < 2 ^ 31 → wait_time 5000 ≡ min 5000 3000)
    × (wait_time (2 ^ 64 - 1) ≡ 3000)
    × (2 ^ 31 ≤ 5000 → 5000 < 2 ^ 32 → 2 ^ 31 ≤ wait_time 5000)
wait_time_lem_example = wait_time_lem 5000

-- What saturn/fdmanager.cc has for descriptor 0.
abbrev fds : Datas
fds =
    some (record {
      is_init = true;
      is_socket = true;
      sys_nonblock = true;
      user_nonblock = false;
      is_closed = false;
      fd = 0;
      recv_timeout = 50;
      send_timeout = 50;
    })
    ∷ []

close-IsReleased_example :
    (m' : IoManager) × (left : FdContext) × (close always (λ fd. some true) true 0 manager fds
      ≡ done (m', del 0 fds))
    × IsValid m'
    × Scheduled reader.events reader manager m'
    × (get_elem? m'.contexts 0 ≡ some left)
    × (any_event left.events ≡ false)
    × (entry_at (del 0 fds) 0 ≡ none)
close-IsReleased_example =
    close-IsReleased always (λ fd. some true) 0 manager fds reader
      (record {
        is_init = true;
        is_socket = true;
        sys_nonblock = true;
        user_nonblock = false;
        is_closed = false;
        fd = 0;
        recv_timeout = 50;
        send_timeout = 50;
      })
      manager-IsValid refl refl refl refl (omega arith)
