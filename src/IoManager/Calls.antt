-- ===== src/IoManager/Calls.antt =====
-- The operations of saturn/iomanager.cc. `epoll_ctl` is the system's: it tells whether a call returns 0. A
-- result `false` stands for -1 or `false`. Each function holds the lock of the descriptor's context.
use saturn.Base.{
  ℕ, Bool, true, false, Option, none, some, [], ◌∷◌, ◌++◌, get_elem?, set, if◌then◌else◌,
}
use saturn.IoManager.{
  Event, read_event, write_event, Events, has, with_event, without_event, any_event, FdContext,
  ctl_add, ctl_mod, ctl_del, EpollCtl, IoManager, Attempt, done, aborted, get_context, put_context,
  reset_context, trigger_event, increment, decrement, reach, is_free, Caller, occupy, ctl_left,
}

infixl 5 ◌>>=◌
abbrev pub ◌>>=◌ {ℓ κ} : {A : Type ℓ} {B : Type κ} → Attempt A → (A → Attempt B) → Attempt B
done a >>= f = f a
aborted >>= f = aborted

abbrev pub called : EpollCtl → IoManager → IoManager
called c m = record m { calls = m.calls ++ (c ∷ []) }

-- `addEvent` after `epoll_ctl`.
unfoldable pub add_waiter :
    Caller → ℕ → Event → Option ℕ → FdContext → IoManager → Attempt (IoManager × Bool)
add_waiter me fd event cb fc m =
    let fc' = record fc { events = with_event event fc.events } in
    elim (get_context event fc') [
      | none ↦ aborted
      | some ctx ↦
          if is_free ctx
          then elim (occupy me cb ctx) [
            | none ↦ aborted
            | some ctx' ↦ done (
              record m {
                contexts = set m.contexts fd (put_context event ctx' fc');
                pending = increment m.pending;
              },
              true,
            )
          ]
          else aborted
    ]

-- The call of `addEvent`.
abbrev pub add_call : ℕ → Event → Events → EpollCtl
add_call fd event es = record {
  op = if any_event es then ctl_mod else ctl_add;
  fd = fd;
  flags = record {
    edge = true;
    input = (with_event event es).reads;
    output = (with_event event es).writes;
  };
}

unfoldable pub add_event_in :
    (EpollCtl → Bool)
    → Caller
    → ℕ
    → Event
    → Option ℕ
    → FdContext
    → IoManager
    → Attempt (IoManager × Bool)
add_event_in epoll_ctl me fd event cb fc m =
    if has fc.events event
    then aborted
    else if epoll_ctl (add_call fd event fc.events)
    then add_waiter me fd event cb fc (called (add_call fd event fc.events) m)
    else done (called (add_call fd event fc.events) m, false)

unfoldable pub add_event :
    (EpollCtl → Bool) → Caller → ℕ → Event → Option ℕ → IoManager → Attempt (IoManager × Bool)
add_event epoll_ctl me fd event cb m = elim (get_elem? (reach fd m).contexts fd) [
  | none ↦ aborted
  | some fc ↦ add_event_in epoll_ctl me fd event cb fc (reach fd m)
]

-- The call of `delEvent` and `cancelEvent`.
abbrev pub left_call : ℕ → Events → EpollCtl
left_call fd es = record {
  op = ctl_left es;
  fd = fd;
  flags = record { edge = false; input = true; output = es.writes };
}

-- `delEvent` after `epoll_ctl`.
unfoldable pub del_waiter : ℕ → Event → FdContext → IoManager → Attempt (IoManager × Bool)
del_waiter fd event fc m = elim (get_context event fc) [
  | none ↦ aborted
  | some ctx ↦ done (
    record m {
      contexts = set m.contexts fd (
          put_context event (reset_context ctx)
            (record fc { events = without_event event fc.events }));
      pending = decrement m.pending;
    },
    true,
  )
]

unfoldable pub del_event : (EpollCtl → Bool) → ℕ → Event → IoManager → Attempt (IoManager × Bool)
del_event epoll_ctl fd event m = elim (get_elem? m.contexts fd) [
  | none ↦ done (m, false)
  | some fc ↦
      if has fc.events event
      then (let c = left_call fd (without_event event fc.events) in
          if epoll_ctl c then del_waiter fd event fc (called c m) else done (called c m, false))
      else done (m, false)
]

-- `triggerEvent` on the context of the table, and the count.
unfoldable pub trigger_in : ℕ → Event → FdContext × IoManager → Attempt (FdContext × IoManager)
trigger_in fd event (fc, m) = trigger_event event fc >>= λ r. done (
  r.0,
  record m {
    contexts = set m.contexts fd (r.0);
    pending = decrement m.pending;
    scheduled = m.scheduled ++ r.1;
  },
)

unfoldable pub cancel_event : (EpollCtl → Bool) → ℕ → Event → IoManager → Attempt (IoManager × Bool)
cancel_event epoll_ctl fd event m = elim (get_elem? m.contexts fd) [
  | none ↦ done (m, false)
  | some fc ↦
      if has fc.events event
      then (let c = left_call fd (without_event event fc.events) in
          if epoll_ctl c
          then (trigger_in fd event (fc, called c m) >>= λ r. done (r.1, true))
          else done (called c m, false))
      else done (m, false)
]

-- `if(events & event)` around `triggerEvent`.
unfoldable pub trigger_if :
    Bool → ℕ → Event → FdContext × IoManager → Attempt (FdContext × IoManager)
trigger_if true fd event s = trigger_in fd event s
trigger_if false fd event s = done s

-- The call of `cancelAll`.
abbrev pub none_call : ℕ → EpollCtl
none_call fd = record {
  op = ctl_del;
  fd = fd;
  flags = record { edge = false; input = false; output = false };
}

-- `cancelAll` after `epoll_ctl`.
unfoldable pub cancel_waiters : ℕ → FdContext → IoManager → Attempt (IoManager × Bool)
cancel_waiters fd fc m = trigger_if fc.events.reads fd read_event (fc, m) >>= λ r.
    trigger_if r.0.events.writes fd write_event r >>= λ r.
    if any_event r.0.events then aborted else done (r.1, true)

unfoldable pub cancel_all : (EpollCtl → Bool) → ℕ → IoManager → Attempt (IoManager × Bool)
cancel_all epoll_ctl fd m = elim (get_elem? m.contexts fd) [
  | none ↦ done (m, false)
  | some fc ↦
      if any_event fc.events
      then (if epoll_ctl (none_call fd)
          then cancel_waiters fd fc (called (none_call fd) m)
          else done (called (none_call fd) m, false))
      else done (m, false)
]
