-- ===== src/IoManager/Adding.antt =====
-- `IOManager::addEvent` of saturn/iomanager.cc.
use saturn.Base.{
  ℕ, ◌<◌, ◌≡◌, ◌≢◌, refl, ap, ◌∙◌, Bool, true, false, Option, none, some, length, get_elem?, set,
  if◌then◌else◌, arith,
}
use saturn.IoManager.{
  Event, no_event, read_event, write_event, has, with_event, Task, call, resume, EventContext,
  empty_context, FdContext, EpollCtl, IoManager, Attempt, done, get_context, increment, reach,
  is_free, Caller, occupy,
}
use saturn.IoManager.Calls.{called, add_waiter, add_call, add_event_in, add_event}
use saturn.IoManager.Waiting.{waiting, settled, settled-IsFilled, settled-waiters, free_slot}
use saturn.IoManager.Table.{All-at, All-set, registered-set}
use saturn.IoManager.Kept.{IsValid, called-IsValid, reach-IsValid}

-- What `addEvent` makes wait: the callback, or else the calling fiber.
abbrev pub task_of : Caller → Option ℕ → Task
task_of me (some c) = call c
task_of me none = resume me.fiber

-- `m` with a task that waits for the event of `fd`.
abbrev pub joined : ℕ → Event → EventContext → FdContext → IoManager → IoManager
joined fd event ctx fc m = record m {
  contexts = set m.contexts fd (settled event ctx fc);
  pending = increment m.pending;
}

joined-IsValid :
    (fd : ℕ) (event : Event) (s : ℕ) (t : Task) (fc : FdContext) (m : IoManager)
    → IsValid m
    → event ≢ no_event
    → get_elem? m.contexts fd ≡ some fc
    → has fc.events event ≡ false
    → IsValid (joined fd event (waiting s t) fc m)
joined-IsValid fd event s t fc m v n at h = record {
  filled =
      All-set m.contexts fd (settled event (waiting s t) fc) v.filled
        (settled-IsFilled event s t fc n (All-at m.contexts fd fc v.filled at));
  counted = omega (
    arith,
    v.counted,
    registered-set m.contexts fd fc (settled event (waiting s t) fc) at,
    settled-waiters event (waiting s t) fc n h,
  );
}

same_context :
    (event : Event) (fc : FdContext)
    → get_context event (record fc { events = with_event event fc.events }) ≡ get_context event fc
unfolding get_context
same_context no_event fc = refl
same_context read_event fc = refl
same_context write_event fc = refl

occupy-empty :
    (me : Caller) (s : ℕ) (cb : Option ℕ)
    → me.scheduler ≡ some s
    → me.executes ≡ true
    → occupy me cb empty_context ≡ some (waiting s (task_of me cb))
unfolding occupy
occupy-empty me s (some c) e x = rw e refl
occupy-empty me s none e x = rw (x, occupy) (rw e refl)

add_waiter_lem :
    (me : Caller) (s fd : ℕ) (event : Event) (cb : Option ℕ) (fc : FdContext) (m : IoManager)
    → me.scheduler ≡ some s
    → me.executes ≡ true
    → get_context event fc ≡ some empty_context
    → add_waiter me fd event cb fc m ≡ done (joined fd event (waiting s (task_of me cb)) fc m, true)
unfolding add_waiter is_free
add_waiter_lem me s fd event cb fc m e x g =
    rw (same_context event fc ∙ g, add_waiter) (rw (occupy-empty me s cb e x) refl)

-- On a valid table that is not empty, a running fiber of a scheduler may add READ or WRITE where it does
-- not wait yet: `addEvent` reaches no assertion. It fails with `epoll_ctl`, and then nothing but the size
-- of the table and the record of calls changes, or its callback, or else the fiber, waits for the event
-- and is counted; the table stays valid.
pub add_event-IsValid :
    (epoll_ctl : EpollCtl → Bool) (me : Caller) (s fd : ℕ) (event : Event) (cb : Option ℕ)
    (fc : FdContext) (m : IoManager)
    → IsValid m
    → 0 < length m.contexts
    → event ≢ no_event
    → me.scheduler ≡ some s
    → me.executes ≡ true
    → get_elem? (reach fd m).contexts fd ≡ some fc
    → has fc.events event ≡ false
    → (c : EpollCtl) × (add_event epoll_ctl me fd event cb m ≡ (
        if epoll_ctl c
        then done (joined fd event (waiting s (task_of me cb)) fc (called c (reach fd m)), true)
        else done (called c (reach fd m), false)))
      × IsValid (joined fd event (waiting s (task_of me cb)) fc (called c (reach fd m)))
unfolding add_event add_event_in
add_event-IsValid epoll_ctl me s fd event cb fc m v l n e x at h =
    let c = add_call fd event fc.events in
    let m' = called c (reach fd m) in
    let v' : IsValid m' = called-IsValid c (reach fd m) (reach-IsValid fd m v l) in
    let free = free_slot event fc n (All-at (reach fd m).contexts fd fc v'.filled at) h in
    (
      c,
      rw (at, add_event)
          (rw (h, add_event_in)
            (ap (λ (r : Attempt (IoManager × Bool)). if epoll_ctl c then r else done (m', false))
              (add_waiter_lem me s fd event cb fc m' e x free))),
      joined-IsValid fd event s (task_of me cb) fc m' v' n at h,
    )
