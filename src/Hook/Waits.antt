-- ===== src/Hook/Waits.antt =====
-- What the loop of `io` in saturn/hook.cc does while it waits, and what it returns.
use mathlib.Core.List.{append-nil}
use saturn.Base.{
  subst, ℕ, ◌≡◌, refl, inl, inr, Bool, true, false, not, ◌||◌, Option, none, some, List, [], ◌∷◌,
  ◌++◌, ◌==◌, if◌then◌else◌, Bool-cases,
}
use saturn.FdManager.{FdContext, TimeoutType, get_timeout, no_timeout}
use saturn.IoManager.{Event}
use saturn.Hook.{
  Returned, returned, failed, eintr, ebadf, eagain, Turn, Action, called, event_refused, yielded,
  timer_cancelled, timer_added, event_added, start_timer, stop_timer, expired, wait_round, round,
  go_on, retry, call_once, io,
}

-- In order, from so many timers that run, and with the descriptor given to the manager or not: a timer is
-- added when none runs and cancelled when one does, a system call is made while none runs, and the fiber
-- yields only when the descriptor has been given to the manager since the last time.
abbrev pub Orderly : ℕ → Bool → List Action → Type 0
Orderly timers given [] = (timers ≡ 0) × (given ≡ false)
Orderly timers given (called ∷ as') = (timers ≡ 0) × (given ≡ false) × Orderly timers given as'
Orderly timers given (event_refused ∷ as') = (given ≡ false) × Orderly timers given as'
Orderly timers given (yielded ∷ as') = (given ≡ true) × Orderly timers false as'
Orderly timers given (timer_cancelled ∷ as') = (timers ≡ 1) × Orderly 0 given as'
Orderly timers given (timer_added ms ∷ as') = (timers ≡ 0) × Orderly 1 given as'
Orderly timers given (event_added e ∷ as') = (given ≡ false) × Orderly timers true as'

-- Whatever orderly actions follow, these are orderly before them.
abbrev Leads : List Action → Type 0
Leads as' = (more : List Action) → Orderly 0 false more → Orderly 0 false (as' ++ more)

wait_round-Orderly :
    (event : Event) (timeout : ℕ) (a : Option ℕ) (over : Bool)
    → Leads (wait_round event timeout a over).1
unfolding wait_round start_timer stop_timer
wait_round-Orderly event timeout (some e) over more o = elim (Bool-cases (timeout == no_timeout)) [
  | inl e ↦ rw e (refl, o)
  | inr e ↦ rw e (refl, (refl, (refl, o)))
]
wait_round-Orderly event timeout none over more o = elim (Bool-cases (timeout == no_timeout)) [
  | inl e ↦ rw e (refl, (refl, o))
  | inr e ↦ rw e (refl, (refl, (refl, (refl, o))))
]

round-Orderly :
    (r : Returned) (wait : Option Returned × List Action) → Leads wait.1 → Leads (round r wait).1
unfolding round
round-Orderly (returned n) wait l more o = (refl, refl, o)
round-Orderly (failed e) wait l more o = elim (Bool-cases (e == eintr)) [
  | inl i ↦ rw i (refl, refl, o)
  | inr i ↦ rw i (elim (Bool-cases (e == eagain)) [
    | inr g ↦ rw g (refl, refl, o)
    | inl g ↦ rw g (refl, refl, l more o)
  ])
]

abbrev OrderlyEnd : Option (Returned × List Action) → Type 0
OrderlyEnd none = Unit {0}
OrderlyEnd (some (r, as')) = Orderly 0 false as'

go_on-Orderly :
    (p : Option Returned × List Action) (rest : Option (Returned × List Action))
    → Leads p.1
    → OrderlyEnd rest
    → OrderlyEnd (go_on p rest)
unfolding go_on
go_on-Orderly (some r, as') rest l o = subst (Orderly 0 false) (append-nil as') (l [] (refl, refl))
go_on-Orderly (none, as') none l o = tt
go_on-Orderly (none, as') (some (r, more)) l o = l more o

retry-Orderly : (event : Event) (timeout : ℕ) (ts : List Turn) → OrderlyEnd (retry event timeout ts)
unfolding retry
retry-Orderly event timeout [] = tt
retry-Orderly event timeout (t ∷ ts) =
    go_on-Orderly (round t.result (wait_round event timeout t.add_error (expired timeout t)))
      (retry event timeout ts)
      (round-Orderly t.result (wait_round event timeout t.add_error (expired timeout t))
        (wait_round-Orderly event timeout t.add_error (expired timeout t)))
      (retry-Orderly event timeout ts)

call_once-OrderlyEnd : (ts : List Turn) → OrderlyEnd (call_once ts)
unfolding call_once
call_once-OrderlyEnd [] = tt
call_once-OrderlyEnd (t ∷ ts) = (refl, refl, (refl, refl))

either :
    (b : Bool) (x y : Option (Returned × List Action))
    → OrderlyEnd x
    → OrderlyEnd y
    → OrderlyEnd (if b then x else y)
either true x y l r = l
either false x y l r = r

io-OrderlyEnd :
    (hook_enable : Bool) (ctx : Option FdContext) (event : Event) (timeout_so : TimeoutType)
    (ts : List Turn)
    → OrderlyEnd (io hook_enable ctx event timeout_so ts)
unfolding io
io-OrderlyEnd hook_enable none event timeout_so ts = call_once-OrderlyEnd ts
io-OrderlyEnd hook_enable (some ctx) event timeout_so ts =
    let timeout = get_timeout timeout_so ctx in
    let rest =
      if not ctx.is_socket || ctx.user_nonblock then call_once ts else retry event timeout ts in
    either (not hook_enable) (call_once ts)
      (if ctx.is_closed then some (failed ebadf, []) else rest) (call_once-OrderlyEnd ts)
      (either ctx.is_closed (some (failed ebadf, [])) rest (refl, refl)
        (either (not ctx.is_socket || ctx.user_nonblock) (call_once ts) (retry event timeout ts)
          (call_once-OrderlyEnd ts) (retry-Orderly event timeout ts)))

-- Whatever the system calls give, and however the waits end, the actions of a hooked call that returns are
-- in order: no timer is left running, none is started while another runs, no system call is made while one
-- runs, and the fiber yields only after its descriptor has been given to the manager.
pub io-Orderly :
    (hook_enable : Bool) (ctx : Option FdContext) (event : Event) (timeout_so : TimeoutType)
    (ts : List Turn) (r : Returned) (as' : List Action)
    → io hook_enable ctx event timeout_so ts ≡ some (r, as')
    → Orderly 0 false as'
io-Orderly hook_enable ctx event timeout_so ts r as' e =
    subst OrderlyEnd e (io-OrderlyEnd hook_enable ctx event timeout_so ts)
