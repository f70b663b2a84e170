-- ===== src/IoManager/Reports.antt =====
-- The rounds of `idle` in saturn/iomanager.cc.
use saturn.Base.{
  ℕ, ◌-◌, ◌^◌, ◌≤◌, ◌<◌, min, ◌≡◌, refl, ap, ap₂, ◌∙◌, inl, inr, Bool, true, false, ◌&&◌, ◌||◌,
  some, get_elem?, if◌then◌else◌, arith, Bool-cases,
}
use saturn.IoManager.{
  read_event, write_event, Events, without_event, any_event, FdContext, EpollCtl, IoManager, done,
  aborted, put_context, trigger_event,
}
use saturn.IoManager.Calls.{◌>>=◌, called, trigger_in, trigger_if}
use saturn.IoManager.Idle.{
  Flags, reported, real_events, common, left_events, rearm_call, trigger_real, handle_in,
  handle_report, wait_time,
}
use saturn.IoManager.Waiting.{IsFilled}
use saturn.IoManager.Table.{All-at}
use saturn.IoManager.Kept.{IsValid, called-IsValid, trigger_in_lem}
use saturn.IoManager.Rounds.{Holds, Scheduled, both-Scheduled, trigger_if-Triggered}

-- A report that names only events that wait; an error or a hangup names all of these.
pub record Asked (r : Flags) (es : Events) : Type 0 where
  pub input : r.input ≡ true → es.reads ≡ true
  pub output : r.output ≡ true → es.writes ≡ true

real_bit : (i f e : Bool) → (i ≡ true → e ≡ true) → (i || (f && e)) ≡ true → e ≡ true
real_bit true f e a h = a refl
real_bit false true e a h = h
real_bit false false e a h = absurd cc

writes_kept :
    (b : Bool) (es es' : Events)
    → es' ≡ (if b then without_event read_event es else es)
    → es'.writes ≡ es.writes
writes_kept true es es' e = ap (λ (x : Events). x.writes) e
writes_kept false es es' e = ap (λ (x : Events). x.writes) e

trigger_real_lem :
    (fd : ℕ) (real : Events) (fc : FdContext) (m : IoManager)
    → Holds fd (fc, m)
    → (real.reads ≡ true → fc.events.reads ≡ true)
    → (real.writes ≡ true → fc.events.writes ≡ true)
    → (s : FdContext × IoManager) × (trigger_real fd real (fc, m) ≡ done s)
      × IsValid s.1
      × Scheduled real fc m s.1
unfolding trigger_real
trigger_real_lem fd real fc m h g g' =
    let (r, e, t) = trigger_if-Triggered fd read_event real.reads (fc, m) h g in
    let (r', e', t') =
      trigger_if-Triggered fd write_event real.writes r t.holds
        (λ k. writes_kept real.reads fc.events r.0.events t.events ∙ g' k) in
    (
      r',
      rw (e, trigger_real) e',
      t'.holds.valid,
      both-Scheduled fd real real.writes (fc, m) r r' refl t t',
    )

-- On a valid table a report that names only events that wait, of a descriptor in the table, is handled
-- without an assertion, whatever `epoll_ctl` returns: the table stays valid. Where the report names an event and
-- `epoll_ctl` succeeds, the task that waits for each of its events is given to its own scheduler, once, that of
-- READ first, and no other is; otherwise no task is scheduled.
pub handle_report-IsValid :
    (epoll_ctl : EpollCtl → Bool) (fd : ℕ) (r : Flags) (fc : FdContext) (m : IoManager)
    → IsValid m
    → get_elem? m.contexts fd ≡ some fc
    → Asked r fc.events
    → (m' : IoManager) × (handle_report epoll_ctl (reported fd r) m ≡ done m')
      × IsValid m'
      × (if any_event (common fc.events (real_events r fc.events))
            && epoll_ctl (rearm_call fc.fd (left_events fc.events (real_events r fc.events)))
          then Scheduled (real_events r fc.events) fc m m'
          else m'.scheduled ≡ m.scheduled)
unfolding handle_report handle_in real_events
handle_report-IsValid epoll_ctl fd r fc m v at a =
    let real = real_events r fc.events in
    let c = rearm_call fc.fd (left_events fc.events real) in
    let h : Holds fd (fc, called c m) = record { valid = called-IsValid c m v; at = at } in
    let (s, e, w, n) =
      trigger_real_lem fd real fc (called c m) h (real_bit r.input r.failed fc.events.reads a.input)
        (real_bit r.output r.failed fc.events.writes a.output) in
    elim (Bool-cases (any_event (common fc.events real))) [
      | inr k ↦ (m, rw (at, handle_report) (rw (k, handle_in) refl), v, rw k refl)
      | inl k ↦ elim (Bool-cases (epoll_ctl c)) [
        | inl k' ↦ (
          s.1,
          rw (at, handle_report) (rw (k, handle_in) (rw (k', handle_in) (rw (e, handle_in) refl))),
          w,
          rw k (rw k' n),
        )
        | inr k' ↦ (
          called c m,
          rw (at, handle_report) (rw (k, handle_in) (rw (k', handle_in) refl)),
          h.valid,
          rw k (rw k' refl),
        )
      ]
    ]

abbrev both : Events
both = record { reads = true; writes = true }

abbrev only_read : Events
only_read = record { reads = true; writes = false }

trigger_in_unasked :
    (fd : ℕ) (fc : FdContext) (m : IoManager)
    → fc.events.writes ≡ false
    → trigger_in fd write_event (fc, m) ≡ aborted
unfolding trigger_in trigger_event
trigger_in_unasked fd fc m h = rw (h, trigger_in, trigger_event) refl

handle_in_unasked :
    (epoll_ctl : EpollCtl → Bool) (fd : ℕ) (fc : FdContext) (m : IoManager)
    → IsFilled fc
    → fc.events ≡ only_read
    → epoll_ctl (rearm_call fc.fd (record { reads = false; writes = false })) ≡ true
    → handle_in epoll_ctl fd both fc m ≡ aborted
unfolding handle_in trigger_real trigger_if put_context
handle_in_unasked epoll_ctl fd fc m f es ctl =
    let c = rearm_call fc.fd (left_events fc.events both) in
    let any : any_event (common fc.events both) ≡ true = ap (λ x. any_event (common x both)) es in
    let k : epoll_ctl c ≡ true =
      ap (λ x. epoll_ctl (rearm_call fc.fd (left_events x both))) es ∙ ctl in
    let (s, t, w, e) =
      trigger_in_lem fd read_event fc (called c m) f (ap (λ (x : Events). x.reads) es) in
    rw (any, handle_in)
      (rw (k, handle_in)
        (rw (e, trigger_real)
          (ap (λ r. r >>= λ s. done s.1)
            (trigger_in_unasked fd _ _ (ap (λ (x : Events). x.writes) es)))))

-- A descriptor on which only READ waits, reported with EPOLLIN and EPOLLOUT, which happens when WRITE was
-- taken out after `epoll_wait` returned, stops `idle` at the assertion of `triggerEvent`, if `epoll_ctl`
-- succeeds.
pub handle_report_unasked :
    (epoll_ctl : EpollCtl → Bool) (fd : ℕ) (r : Flags) (fc : FdContext) (m : IoManager)
    → IsValid m
    → get_elem? m.contexts fd ≡ some fc
    → fc.events ≡ record { reads = true; writes = false }
    → r.input ≡ true
    → r.output ≡ true
    → epoll_ctl (rearm_call fc.fd (record { reads = false; writes = false })) ≡ true
    → handle_report epoll_ctl (reported fd r) m ≡ aborted
unfolding handle_report handle_in trigger_real trigger_if real_events
handle_report_unasked epoll_ctl fd r fc m v at es i o ctl =
    let both_real : real_events r fc.events ≡ both =
      ap₂ (λ a b. real_events (record { failed = r.failed; input = a; output = b }) fc.events) i
        o in
    rw (at, handle_report)
      (ap (λ x. handle_in epoll_ctl fd x fc m) both_real
        ∙ handle_in_unasked epoll_ctl fd fc m (All-at m.contexts fd fc v.filled at) es ctl)

-- A time below 2 ^ 31 ms is waited for, but at most 3000 ms, as is the lack of a timer. From 2 ^ 31 to
-- 2 ^ 32 ms the argument of `epoll_wait` is negative, which waits without a limit.
pub wait_time_lem :
    (n : ℕ)
    → (n < 2 ^ 31 → wait_time n ≡ min n 3000)
      × (wait_time (2 ^ 64 - 1) ≡ 3000)
      × (2 ^ 31 ≤ n → n < 2 ^ 32 → 2 ^ 31 ≤ wait_time n)
unfolding wait_time
wait_time_lem n = (ground arith, refl, ground arith)
