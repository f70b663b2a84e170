-- ===== src/IoManager/Waiting.antt =====
-- One descriptor's context: its bits in `events` and what waits for them.
use saturn.Base.{
  ℕ, suc, ◌+◌, ◌≡◌, ◌≢◌, refl, ap, subst, Bool, true, false, none, some, [], ◌∷◌, arith,
}
use saturn.IoManager.{
  Event, no_event, read_event, write_event, has, with_event, without_event, Task, call, resume,
  EventContext, FdContext, done, empty_context, get_context, put_context, schedule_fiber,
  schedule_context, trigger_context, trigger_event,
}

-- The context of a task that waits for `s` to run it.
abbrev pub waiting : ℕ → Task → EventContext
waiting s (call c) = record { scheduler = some s; fiber = none; cb = some c }
waiting s (resume f) = record { scheduler = some s; fiber = some f; cb = none }

-- One task waits for an event whose bit is set, and none for another.
abbrev pub Slot : Bool → EventContext → Type 0
Slot true ctx = (s : ℕ) × (t : Task) × (ctx ≡ waiting s t)
Slot false ctx = ctx ≡ empty_context

abbrev pub IsFilled : FdContext → Type 0
IsFilled fc = Slot fc.events.reads fc.read × Slot fc.events.writes fc.write

abbrev pub bit : Bool → ℕ
bit true = 1
bit false = 0

-- The number of tasks that wait on the descriptor.
abbrev pub waiters : FdContext → ℕ
waiters fc = bit fc.events.reads + bit fc.events.writes

-- The task that waits for an event.
abbrev pub Waits : Event → ℕ → Task → FdContext → Type 0
Waits event s t fc = get_context event fc ≡ some (waiting s t)

-- `fc` after the event was taken out.
abbrev pub released : Event → FdContext → FdContext
released event fc =
    put_context event empty_context (record fc { events = without_event event fc.events })

abbrev pub settled : Event → EventContext → FdContext → FdContext
settled event ctx fc = put_context event ctx (record fc { events = with_event event fc.events })

pub released-IsFilled :
    (event : Event) (fc : FdContext) → IsFilled fc → IsFilled (released event fc)
unfolding put_context
released-IsFilled no_event fc h = h
released-IsFilled read_event fc h = (refl, h.1)
released-IsFilled write_event fc h = (h.0, refl)

pub released-waiters :
    (event : Event) (fc : FdContext)
    → has fc.events event ≡ true
    → waiters fc ≡ suc (waiters (released event fc))
unfolding put_context
released-waiters no_event fc h = cc
released-waiters read_event fc h = rw h (omega arith)
released-waiters write_event fc h = rw h (omega arith)

pub settled-IsFilled :
    (event : Event) (s : ℕ) (t : Task) (fc : FdContext)
    → event ≢ no_event
    → IsFilled fc
    → IsFilled (settled event (waiting s t) fc)
unfolding put_context
settled-IsFilled no_event s t fc n h = absurd (n refl)
settled-IsFilled read_event s t fc n h = ((s, t, refl), h.1)
settled-IsFilled write_event s t fc n h = (h.0, (s, t, refl))

pub settled-waiters :
    (event : Event) (ctx : EventContext) (fc : FdContext)
    → event ≢ no_event
    → has fc.events event ≡ false
    → waiters (settled event ctx fc) ≡ suc (waiters fc)
unfolding put_context
settled-waiters no_event ctx fc n h = absurd (n refl)
settled-waiters read_event ctx fc n h = rw h (omega arith)
settled-waiters write_event ctx fc n h = rw h (omega arith)

pub Waits-some :
    (event : Event) (fc : FdContext)
    → IsFilled fc
    → has fc.events event ≡ true
    → (s : ℕ) × (t : Task) × Waits event s t fc
unfolding get_context
Waits-some no_event fc h e = absurd cc
Waits-some read_event fc h e =
    let (s, t, p) = subst (λ b. Slot b fc.read) e h.0 in (s, t, ap some p)
Waits-some write_event fc h e =
    let (s, t, p) = subst (λ b. Slot b fc.write) e h.1 in (s, t, ap some p)

pub free_slot :
    (event : Event) (fc : FdContext)
    → event ≢ no_event
    → IsFilled fc
    → has fc.events event ≡ false
    → get_context event fc ≡ some empty_context
unfolding get_context
free_slot no_event fc n h e = absurd (n refl)
free_slot read_event fc n h e = ap some (subst (λ b. Slot b fc.read) e h.0)
free_slot write_event fc n h e = ap some (subst (λ b. Slot b fc.write) e h.1)

trigger_waiting :
    (event : Event) (s : ℕ) (t : Task) (fc : FdContext)
    → trigger_context event fc (waiting s t) ≡ done (released event fc, (s, t) ∷ [])
unfolding trigger_context schedule_context schedule_fiber put_context
trigger_waiting event s (call c) fc = refl
trigger_waiting event s (resume f) fc = refl

-- A trigger of an event that is set gives the task that waits for it to its scheduler, once.
pub trigger_event_lem :
    (event : Event) (s : ℕ) (t : Task) (fc : FdContext)
    → has fc.events event ≡ true
    → Waits event s t fc
    → trigger_event event fc ≡ done (released event fc, (s, t) ∷ [])
unfolding trigger_event
trigger_event_lem event s t fc h w = rw (h, w) (trigger_waiting event s t fc)
