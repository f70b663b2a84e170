-- ===== src/IoManager/Rounds.antt =====
-- The guarded triggers of `cancelAll` and `idle` in saturn/iomanager.cc, and `cancelAll`.
use saturn.Base.{
  ℕ, ◌≡◌, refl, ap, ◌∙◌, inl, inr, Bool, true, false, some, subst, sym, List, ◌++◌, [], ◌∷◌,
  get_elem?, if◌then◌else◌, Bool-cases,
}
use mathlib.Core.List.{append-nil, append_assoc}
use saturn.IoManager.{
  Task, get_context, Event, no_event, read_event, write_event, Events, has, without_event,
  any_event, FdContext, EpollCtl, IoManager, done, put_context,
}
use saturn.IoManager.Calls.{called, trigger_if, none_call, cancel_waiters, cancel_all}
use saturn.IoManager.Waiting.{Waits, released}
use saturn.IoManager.Table.{All-at, get_elem?-set}
use saturn.IoManager.Kept.{IsValid, without, without-IsValid, trigger_in_lem, called-IsValid}

-- `n` is `m` where the context of `fd` has become `fc`, still in the table of a valid manager.
pub record Holds (fd : ℕ) (s : FdContext × IoManager) : Type 0 where
  pub valid : IsValid s.1
  pub at : get_elem? s.1.contexts fd ≡ some s.0

-- What is given to the schedulers for an event: the task that waits for it, with its own scheduler, and nothing
-- where the event is not one of those that are triggered.
abbrev pub Gives : Bool → Event → FdContext → List (ℕ × Task) → Type 0
Gives true event fc ts = (s : ℕ) × (t : Task) × Waits event s t fc × (ts ≡ (s, t) ∷ [])
Gives false event fc ts = ts ≡ []

-- `m'` has scheduled what `m` has, then the task that waits to read, then the one that waits to write, each if
-- its event is in `es`.
abbrev pub Scheduled : Events → FdContext → IoManager → IoManager → Type 0
Scheduled es fc m m' =
    (ts ts' : List (ℕ × Task)) × Gives es.reads read_event fc ts
    × Gives es.writes write_event fc ts'
    × (m'.scheduled ≡ m.scheduled ++ (ts ++ ts'))

-- A guarded trigger of an event that is set whenever the guard is.
pub record Triggered (fd : ℕ) (event : Event) (b : Bool) (s s' : FdContext × IoManager)
    : Type 0 where
  pub holds : Holds fd s'
  pub events : s'.0.events ≡ (if b then without_event event s.0.events else s.0.events)
  pub write_kept : event ≡ read_event → get_context write_event s'.0 ≡ get_context write_event s.0
  pub tasks : List (ℕ × Task)
  pub gives : Gives b event s.0 tasks
  pub scheduled : s'.1.scheduled ≡ s.1.scheduled ++ tasks

released-events :
    (event : Event) (fc : FdContext) → (released event fc).events ≡ without_event event fc.events
unfolding put_context
released-events no_event fc = refl
released-events read_event fc = refl
released-events write_event fc = refl

released-write :
    (event : Event) (fc : FdContext)
    → event ≡ read_event
    → get_context write_event (released event fc) ≡ get_context write_event fc
unfolding put_context get_context
released-write no_event fc e = refl
released-write read_event fc e = refl
released-write write_event fc e = absurd cc

pub trigger_if-Triggered :
    (fd : ℕ) (event : Event) (b : Bool) (s : FdContext × IoManager)
    → Holds fd s
    → (b ≡ true → has s.0.events event ≡ true)
    → (s' : FdContext × IoManager) × (trigger_if b fd event s ≡ done s') × Triggered fd event b s s'
unfolding trigger_if
trigger_if-Triggered fd event false s h g = (
  s,
  refl,
  record {
    holds = h;
    events = refl;
    write_kept = λ e. refl;
    tasks = [];
    gives = refl;
    scheduled = sym (append-nil s.1.scheduled);
  },
)
trigger_if-Triggered fd event true (fc, m) h g =
    let (k, t, w, e) =
      trigger_in_lem fd event fc m (All-at m.contexts fd fc h.valid.filled h.at) (g refl) in
    (
      (released event fc, without fd event fc m ((k, t) ∷ [])),
      e,
      record {
        holds = record {
          valid = without-IsValid fd event fc m ((k, t) ∷ []) h.valid h.at (g refl);
          at = get_elem?-set m.contexts fd fc (released event fc) h.at;
        };
        events = released-events event fc;
        write_kept = released-write event fc;
        tasks = (k, t) ∷ [];
        gives = (k, t, w, refl);
        scheduled = refl;
      },
    )

pub cleared-read :
    (es es' : Events)
    → es' ≡ (if es.reads then without_event read_event es else es)
    → (es'.reads ≡ false) × (es'.writes ≡ es.writes)
cleared-read es es' e = elim (Bool-cases es.reads) [
  | inl k ↦
      let e' = e ∙ ap (λ b. if b then without_event read_event es else es) k in
      (ap (λ (x : Events). x.reads) e', ap (λ (x : Events). x.writes) e')
  | inr k ↦
      let e' = e ∙ ap (λ b. if b then without_event read_event es else es) k in
      (ap (λ (x : Events). x.reads) e' ∙ k, ap (λ (x : Events). x.writes) e')
]

cleared-write :
    (es es' : Events)
    → es' ≡ (if es.writes then without_event write_event es else es)
    → (es'.writes ≡ false) × (es'.reads ≡ es.reads)
cleared-write es es' e = elim (Bool-cases es.writes) [
  | inl k ↦
      let e' = e ∙ ap (λ b. if b then without_event write_event es else es) k in
      (ap (λ (x : Events). x.writes) e', ap (λ (x : Events). x.reads) e')
  | inr k ↦
      let e' = e ∙ ap (λ b. if b then without_event write_event es else es) k in
      (ap (λ (x : Events). x.writes) e' ∙ k, ap (λ (x : Events). x.reads) e')
]

-- A read trigger and then a write trigger of one descriptor.
pub both-Scheduled :
    (fd : ℕ) (es : Events) (b : Bool) (s s' s'' : FdContext × IoManager)
    → b ≡ es.writes
    → Triggered fd read_event es.reads s s'
    → Triggered fd write_event b s' s''
    → Scheduled es s.0 s.1 s''.1
both-Scheduled fd es b s s' s'' e t t' = (
  t.tasks,
  t'.tasks,
  t.gives,
  subst (λ x. Gives x write_event s.0 t'.tasks) e
      (Gives-same b s.0 s'.0 t'.tasks (t.write_kept refl) t'.gives),
  t'.scheduled ∙ ap (λ l. l ++ t'.tasks) t.scheduled ∙ append_assoc s.1.scheduled t.tasks t'.tasks,
)
  where
    Gives-same :
        (b : Bool) (fc fc' : FdContext) (ts : List (ℕ × Task))
        → get_context write_event fc' ≡ get_context write_event fc
        → Gives b write_event fc' ts
        → Gives b write_event fc ts
    Gives-same true fc fc' ts e (k, t, w, g) = (k, t, sym e ∙ w, g)
    Gives-same false fc fc' ts e g = g

-- On a valid table `cancelAll` of a descriptor on which something waits, where `epoll_ctl` succeeds, reaches
-- no assertion and returns true: each task that waits is given to its scheduler, once, that of READ first, no
-- event is left, and the table is valid.
pub cancel_all-IsValid :
    (epoll_ctl : EpollCtl → Bool) (fd : ℕ) (fc : FdContext) (m : IoManager)
    → IsValid m
    → get_elem? m.contexts fd ≡ some fc
    → any_event fc.events ≡ true
    → epoll_ctl (none_call fd) ≡ true
    → (m' : IoManager) × (fc' : FdContext) × (cancel_all epoll_ctl fd m ≡ done (m', true))
      × IsValid m'
      × Scheduled fc.events fc m m'
      × (get_elem? m'.contexts fd ≡ some fc')
      × (any_event fc'.events ≡ false)
unfolding cancel_all cancel_waiters
cancel_all-IsValid epoll_ctl fd fc m v at any ctl =
    let m0 = called (none_call fd) m in
    let h0 : Holds fd (fc, m0) = record { valid = called-IsValid (none_call fd) m v; at = at } in
    let (r, e, t) = trigger_if-Triggered fd read_event fc.events.reads (fc, m0) h0 (λ g. g) in
    let (r', e', t') = trigger_if-Triggered fd write_event r.0.events.writes r t.holds (λ g. g) in
    let c = cleared-read fc.events r.0.events t.events in
    let c' = cleared-write r.0.events r'.0.events t'.events in
    let no_more : any_event r'.0.events ≡ false = rw (c'.1 ∙ c.0) c'.0 in
    (
      r'.1,
      r'.0,
      rw (at, cancel_all)
          (rw (any, cancel_all)
            (rw (ctl, cancel_all)
              (rw (e, cancel_waiters) (rw (e', cancel_waiters) (rw no_more refl))))),
      t'.holds.valid,
      both-Scheduled fd fc.events r.0.events.writes (fc, m0) r r' c.1 t t',
      t'.holds.at,
      no_more,
    )
