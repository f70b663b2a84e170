-- ===== src/IoManager/Kept.antt =====
-- The operations of saturn/iomanager.cc keep the contexts and the count of pending events in step.
use saturn.Base.{
  ℕ, ◌+◌, ◌*◌, ◌%◌, ◌^◌, ◌≤◌, ◌<◌, ◌≡◌, refl, sym, ap, ◌∙◌, inl, inr, Bool, true, false, some, List,
  [], ◌∷◌, ◌++◌, All, length, get_elem?, set, ltb, if◌then◌else◌, arith, Bool-cases, ltb→le, ltb→lt,
}
use saturn.IoManager.{
  Event, no_event, read_event, write_event, has, without_event, Task, FdContext, EpollCtl,
  IoManager, Attempt, done, new_context, get_context, put_context, reset_context, decrement, reach,
}
use saturn.IoManager.Calls.{
  ◌>>=◌, called, left_call, del_waiter, del_event, trigger_in, cancel_event,
}
use saturn.IoManager.Waiting.{
  Waits, IsFilled, released, released-IsFilled, released-waiters, Waits-some, trigger_event_lem,
}
use saturn.IoManager.Table.{
  registered, All-at, All-set, registered-set, context_resize-All, registered-context_resize,
  get_elem?-grown, within_table,
}

-- Each context has a task for just the events that are set, and `pending` is their number.
pub record IsValid (m : IoManager) : Type 0 where
  pub filled : All IsFilled m.contexts
  pub counted : m.pending ≡ registered m.contexts % 2 ^ 64

-- `m` with the event of `fd` released.
abbrev pub without : ℕ → Event → FdContext → IoManager → List (ℕ × Task) → IoManager
without fd event fc m ts = record m {
  contexts = set m.contexts fd (released event fc);
  pending = decrement m.pending;
  scheduled = m.scheduled ++ ts;
}

pub without-IsValid :
    (fd : ℕ) (event : Event) (fc : FdContext) (m : IoManager) (ts : List (ℕ × Task))
    → IsValid m
    → get_elem? m.contexts fd ≡ some fc
    → has fc.events event ≡ true
    → IsValid (without fd event fc m ts)
without-IsValid fd event fc m ts v at h = record {
  filled =
      All-set m.contexts fd (released event fc) v.filled
        (released-IsFilled event fc (All-at m.contexts fd fc v.filled at));
  counted = omega (
    arith,
    v.counted,
    registered-set m.contexts fd fc (released event fc) at,
    released-waiters event fc h,
  );
}

-- `trigger_in` on an event that is set.
pub trigger_in_lem :
    (fd : ℕ) (event : Event) (fc : FdContext) (m : IoManager)
    → IsFilled fc
    → has fc.events event ≡ true
    → (s : ℕ) × (t : Task) × Waits event s t fc
      × (trigger_in fd event (fc, m)
          ≡ done (released event fc, without fd event fc m ((s, t) ∷ [])))
unfolding trigger_in
trigger_in_lem fd event fc m f h =
    let (s, t, w) = Waits-some event fc f h in
    (s, t, w, rw (trigger_event_lem event s t fc h w) refl)

pub called-IsValid : (c : EpollCtl) (m : IoManager) → IsValid m → IsValid (called c m)
called-IsValid c m v = record { filled = v.filled; counted = v.counted }

-- On a valid table `cancelEvent` of an event that waits either fails with `epoll_ctl`, and then nothing but
-- the record of calls changes, or it gives the task that waits to its scheduler, exactly once, and clears
-- the event; the table stays valid, and no assertion is reached.
pub cancel_event-IsValid :
    (epoll_ctl : EpollCtl → Bool) (fd : ℕ) (event : Event) (fc : FdContext) (m : IoManager)
    → IsValid m
    → get_elem? m.contexts fd ≡ some fc
    → has fc.events event ≡ true
    → (s : ℕ) × (t : Task) × (c : EpollCtl) × Waits event s t fc
      × (cancel_event epoll_ctl fd event m ≡ (
          if epoll_ctl c
          then done (without fd event fc (called c m) ((s, t) ∷ []), true)
          else done (called c m, false)))
      × IsValid (without fd event fc (called c m) ((s, t) ∷ []))
unfolding cancel_event
cancel_event-IsValid epoll_ctl fd event fc m v at h =
    let c = left_call fd (without_event event fc.events) in
    let (s, t, w, e) =
      trigger_in_lem fd event fc (called c m) (All-at m.contexts fd fc v.filled at) h in
    (
      s,
      t,
      c,
      w,
      rw (at, cancel_event)
          (rw (h, cancel_event)
            (ap
              (λ (r : Attempt (FdContext × IoManager)).
                if epoll_ctl c then (r >>= λ x. done (x.1, true)) else done (called c m, false))
              e)),
      without-IsValid fd event fc (called c m) ((s, t) ∷ []) (called-IsValid c m v) at h,
    )

-- `delEvent` and `cancelEvent` of an event that does not wait, on a descriptor of the table, return false
-- and change nothing.
pub del_event_none :
    (epoll_ctl : EpollCtl → Bool) (fd : ℕ) (event : Event) (fc : FdContext) (m : IoManager)
    → get_elem? m.contexts fd ≡ some fc
    → has fc.events event ≡ false
    → (del_event epoll_ctl fd event m ≡ done (m, false))
      × (cancel_event epoll_ctl fd event m ≡ done (m, false))
unfolding del_event cancel_event
del_event_none epoll_ctl fd event fc m at h =
    (rw (at, del_event) (rw (h, del_event) refl), rw (at, cancel_event) (rw (h, cancel_event) refl))

del_waiter_lem :
    (fd : ℕ) (event : Event) (fc : FdContext) (m : IoManager)
    → has fc.events event ≡ true
    → del_waiter fd event fc m
      ≡ done (
        record m {
          contexts = set m.contexts fd (released event fc);
          pending = decrement m.pending;
        },
        true,
      )
unfolding del_waiter get_context put_context reset_context
del_waiter_lem fd no_event fc m h = absurd cc
del_waiter_lem fd read_event fc m h = refl
del_waiter_lem fd write_event fc m h = refl

-- `m` with the event of `fd` forgotten.
abbrev pub dropped : ℕ → Event → FdContext → IoManager → IoManager
dropped fd event fc m = record m {
  contexts = set m.contexts fd (released event fc);
  pending = decrement m.pending;
}

-- On a valid table `delEvent` of an event that waits either fails with `epoll_ctl`, and then nothing but
-- the record of calls changes, or it forgets the task without giving it to a scheduler, clears the event
-- and counts it out; the table stays valid, and no assertion is reached.
pub del_event-IsValid :
    (epoll_ctl : EpollCtl → Bool) (fd : ℕ) (event : Event) (fc : FdContext) (m : IoManager)
    → IsValid m
    → get_elem? m.contexts fd ≡ some fc
    → has fc.events event ≡ true
    → (c : EpollCtl) × (del_event epoll_ctl fd event m ≡ (
        if epoll_ctl c
        then done (dropped fd event fc (called c m), true)
        else done (called c m, false)))
      × IsValid (dropped fd event fc (called c m))
unfolding del_event
del_event-IsValid epoll_ctl fd event fc m v at h =
    let c = left_call fd (without_event event fc.events) in
    let w = without-IsValid fd event fc (called c m) [] (called-IsValid c m v) at h in
    (
      c,
      rw (at, del_event)
          (rw (h, del_event)
            (ap
              (λ (r : Attempt (IoManager × Bool)).
                if epoll_ctl c then r else done (called c m, false))
              (del_waiter_lem fd event fc (called c m) h))),
      record { filled = w.filled; counted = w.counted },
    )

-- The table after the first part of `addEvent`: valid, and it reaches `fd`.
pub reach-IsValid :
    (fd : ℕ) (m : IoManager) → IsValid m → 0 < length m.contexts → IsValid (reach fd m)
unfolding reach
reach-IsValid fd m v h = elim (Bool-cases (ltb fd (length m.contexts))) [
  | inl e ↦ rw (e, reach) v
  | inr e ↦
      rw (e, reach)
        (record {
          filled = context_resize-All 0 (fd * 2) m.contexts v.filled;
          counted =
              v.counted
              ∙ ap (λ n. n % 2 ^ 64)
                  (sym (
                    registered-context_resize 0 (fd * 2) m.contexts
                      (omega (arith, ltb→le fd (length m.contexts) e))));
        })
]

pub reach_at :
    (fd : ℕ) (m : IoManager)
    → 0 < length m.contexts
    → (fc : FdContext) × (get_elem? (reach fd m).contexts fd ≡ some fc)
unfolding reach
reach_at fd m h = elim (Bool-cases (ltb fd (length m.contexts))) [
  | inl e ↦
      let (fc, at) = within_table m.contexts fd (ltb→lt fd (length m.contexts) e) in
      (fc, rw (e, reach) at)
  | inr e ↦
      let l : length m.contexts ≤ fd = ltb→le fd (length m.contexts) e in
      (
        new_context (0 + fd),
        rw (e, reach) (get_elem?-grown 0 (fd * 2) m.contexts fd l (omega arith)),
      )
]
