-- ===== src/IoManager.antt =====
-- saturn/iomanager.h and saturn/iomanager.cc: the table of the descriptors' contexts, the events that
-- wait on them, and what a round of `idle` does with the reports of `epoll_wait`.
pub mod Calls
pub mod Waiting
pub mod Table
pub mod Kept
pub mod Adding
pub mod Rounds
pub mod Reports
pub mod Idle
use saturn.Base.{
  ℕ, zero, suc, ◌+◌, ◌-◌, ◌*◌, ◌%◌, ◌^◌, Bool, true, false, not, ◌&&◌, ◌||◌, Option, none, some,
  List, [], ◌∷◌, ◌++◌, length, get_elem?, set, ltb, ◌==◌, if◌then◌else◌,
}

-- `enum Event`.
pub data Event : Type 0 where
  no_event read_event write_event : Event

-- A set of events: the bits READ and WRITE, which are also those of EPOLLIN and EPOLLOUT.
pub record Events : Type 0 where
  pub reads : Bool
  pub writes : Bool

-- `events & event`.
abbrev pub has : Events → Event → Bool
has es no_event = false
has es read_event = es.reads
has es write_event = es.writes

-- `events | event`.
abbrev pub with_event : Event → Events → Events
with_event no_event es = es
with_event read_event es = record es { reads = true }
with_event write_event es = record es { writes = true }

-- `events & ~event`.
abbrev pub without_event : Event → Events → Events
without_event no_event es = es
without_event read_event es = record es { reads = false }
without_event write_event es = record es { writes = false }

abbrev pub any_event : Events → Bool
any_event es = es.reads || es.writes

-- What a scheduler runs: a callback or a fiber.
pub data Task : Type 0 where
  call : ℕ → Task
  resume : ℕ → Task

-- A pointer is `none` when it is null.
pub record EventContext : Type 0 where
  pub scheduler : Option ℕ
  pub fiber : Option ℕ
  pub cb : Option ℕ

pub record FdContext : Type 0 where
  pub read : EventContext
  pub write : EventContext
  pub fd : ℕ
  pub events : Events

-- The flags of `epoll_event::events`.
pub record EpollFlags : Type 0 where
  pub edge : Bool
  pub input : Bool
  pub output : Bool

pub data CtlOp : Type 0 where
  ctl_add ctl_mod ctl_del : CtlOp

-- The arguments of a call of `epoll_ctl`.
pub record EpollCtl : Type 0 where
  pub op : CtlOp
  pub fd : ℕ
  pub flags : EpollFlags

-- `scheduled` are the tasks given to schedulers so far, each with its scheduler, and `calls` the calls of
-- `epoll_ctl`.
pub record IoManager : Type 0 where
  pub contexts : List FdContext
  pub pending : ℕ
  pub scheduled : List (ℕ × Task)
  pub calls : List EpollCtl

-- A call returns, or it stops at an assertion or a null pointer.
pub data Attempt {ℓ} (A : Type ℓ) : Type ℓ where
  done : A → Attempt A
  aborted : Attempt A

abbrev pub empty_context : EventContext
empty_context = record { scheduler = none; fiber = none; cb = none }

abbrev pub new_context : ℕ → FdContext
new_context fd = record {
  read = empty_context;
  write = empty_context;
  fd = fd;
  events = record { reads = false; writes = false };
}

-- `getContext`, which asserts that there is one.
unfoldable pub get_context : Event → FdContext → Option EventContext
get_context no_event fc = none
get_context read_event fc = some fc.read
get_context write_event fc = some fc.write

-- A store through the reference that `getContext` returns.
unfoldable pub put_context : Event → EventContext → FdContext → FdContext
put_context no_event ctx fc = fc
put_context read_event ctx fc = record fc { read = ctx }
put_context write_event ctx fc = record fc { write = ctx }

-- `resetContext`.
unfoldable pub reset_context : EventContext → EventContext
reset_context ctx = record { scheduler = none; fiber = none; cb = none }

-- `schedule(&f)` takes the callback or the fiber out of the context; a null one is not queued.
unfoldable pub schedule_fiber : ℕ → EventContext → EventContext × List (ℕ × Task)
schedule_fiber s ctx =
    (record ctx { fiber = none }, elim ctx.fiber [ none ↦ [] | some f ↦ (s, resume f) ∷ [] ])

unfoldable pub schedule_context : ℕ → EventContext → EventContext × List (ℕ × Task)
schedule_context s ctx = elim ctx.cb [
  | some c ↦ (record ctx { cb = none }, (s, call c) ∷ [])
  | none ↦ schedule_fiber s ctx
]

-- `triggerEvent` once the event is known to wait.
unfoldable pub trigger_context :
    Event → FdContext → EventContext → Attempt (FdContext × List (ℕ × Task))
trigger_context event fc ctx = elim ctx.scheduler [
  | none ↦ aborted
  | some s ↦
      let r = schedule_context s ctx in
      done (
        put_context event (record (r.0) { scheduler = none })
            (record fc { events = without_event event fc.events }),
        r.1,
      )
]

-- `triggerEvent`.
unfoldable pub trigger_event : Event → FdContext → Attempt (FdContext × List (ℕ × Task))
trigger_event event fc =
    if has fc.events event
    then elim (get_context event fc) [ none ↦ aborted | some ctx ↦ trigger_context event fc ctx ]
    else aborted

-- `contextResize`: `vector::resize` and new contexts for the null entries.
unfoldable pub context_resize : ℕ → ℕ → List FdContext → List FdContext
context_resize i zero cs = []
context_resize i (suc size) [] = new_context i ∷ context_resize (suc i) size []
context_resize i (suc size) (c ∷ cs) = c ∷ context_resize (suc i) size cs

-- `++` and `--` of `m_pendingEventCount`.
abbrev pub increment : ℕ → ℕ
increment n = (n + 1) % 2 ^ 64

abbrev pub decrement : ℕ → ℕ
decrement n = (n + 2 ^ 64 - 1) % 2 ^ 64

-- The first part of `addEvent`: the table reaches `fd` afterwards.
unfoldable pub reach : ℕ → IoManager → IoManager
reach fd m =
    if ltb fd (length m.contexts)
    then m
    else record m { contexts = context_resize 0 (fd * 2) m.contexts }

-- `!event_ctx.scheduler && !event_ctx.fiber && !event_ctx.cb`.
unfoldable pub is_free : EventContext → Bool
is_free ctx =
    elim ctx.scheduler [ none ↦ true | some s ↦ false ]
    && elim ctx.fiber [ none ↦ true | some f ↦ false ]
    && elim ctx.cb [ none ↦ true | some c ↦ false ]

-- The calling thread: its scheduler, its fiber, and whether that fiber is in state EXEC.
pub record Caller : Type 0 where
  pub scheduler : Option ℕ
  pub fiber : ℕ
  pub executes : Bool

-- The end of `addEvent`: the callback, or else the running fiber, waits.
unfoldable pub occupy : Caller → Option ℕ → EventContext → Option EventContext
occupy me (some c) ctx = some (record ctx { scheduler = me.scheduler; cb = some c })
occupy me none ctx =
    if me.executes
    then some (record ctx { scheduler = me.scheduler; fiber = some me.fiber })
    else none

-- The operation for the events that are left: EPOLL_CTL_DEL for none.
abbrev pub ctl_left : Events → CtlOp
ctl_left es = if any_event es then ctl_mod else ctl_del
