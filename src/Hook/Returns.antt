-- ===== src/Hook/Returns.antt =====
-- What the loop of `io` in saturn/hook.cc returns, and that it does.
use saturn.Base.{
  ℕ, ◌≡◌, ◌≢◌, refl, sym, ap, ◌∙◌, ◌⊎◌, inl, inr, Bool, true, false, Option, none, some, List, [],
  ◌∷◌, ◌++◌, All, ◌==◌, ==_iff, subst, Bool-cases,
}
use saturn.FdManager.{FdContext, TimeoutType, get_timeout, no_timeout}
use saturn.IoManager.{Event}
use saturn.Hook.{
  Returned, returned, failed, eintr, eagain, etimedout, Turn, Action, expired, wait_round, round,
  go_on, retry, io,
}

-- Neither EINTR nor EAGAIN.
abbrev pub Settled : Returned → Type 0
Settled r = (r ≢ failed eintr) × (r ≢ failed eagain)

-- A descriptor that the hook waits for: an open socket that the user has not made non-blocking.
pub record IsHooked (ctx : FdContext) : Type 0 where
  pub open_socket : ctx.is_closed ≡ false
  pub a_socket : ctx.is_socket ≡ true
  pub blocking : ctx.user_nonblock ≡ false

io_hooked :
    (ctx : FdContext) (event : Event) (timeout_so : TimeoutType) (ts : List Turn)
    → IsHooked ctx
    → io true (some ctx) event timeout_so ts ≡ retry event (get_timeout timeout_so ctx) ts
unfolding io
io_hooked ctx event timeout_so ts h = rw (h.open_socket, h.a_socket, h.blocking) refl

abbrev SettledStep : Option Returned → Type 0
SettledStep none = Unit {0}
SettledStep (some r) = Settled r

abbrev SettledEnd : Option (Returned × List Action) → Type 0
SettledEnd none = Unit {0}
SettledEnd (some (r, as')) = Settled r

abbrev error_of : Returned → ℕ
error_of (returned n) = 0
error_of (failed e) = e

apart : (e n : ℕ) → (e == n) ≡ false → failed e ≢ failed n
apart e n h p = absurd (cc ((==_iff e n).1 (ap error_of p)))

returned_apart : (n e : ℕ) → returned n ≢ failed e
returned_apart n e p = absurd cc

round-SettledStep :
    (r : Returned) (wait : Option Returned × List Action)
    → SettledStep wait.0
    → SettledStep (round r wait).0
unfolding round
round-SettledStep (returned n) wait l = (returned_apart n eintr, returned_apart n eagain)
round-SettledStep (failed e) wait l = elim (Bool-cases (e == eintr)) [
  | inl i ↦ rw i tt
  | inr i ↦ rw i (elim (Bool-cases (e == eagain)) [
    | inr g ↦ rw g (apart e eintr i, apart e eagain g)
    | inl g ↦ rw g l
  ])
]

wait_round-SettledStep :
    (event : Event) (timeout : ℕ) (a : Option ℕ) (over : Bool)
    → a ≡ none
    → SettledStep (wait_round event timeout a over).0
unfolding wait_round
wait_round-SettledStep event timeout (some e) over h = absurd cc
wait_round-SettledStep event timeout none true h =
    (λ p. absurd (cc (ap error_of p)), λ p. absurd (cc (ap error_of p)))
wait_round-SettledStep event timeout none false h = tt

go_on-SettledEnd :
    (p : Option Returned × List Action) (rest : Option (Returned × List Action))
    → SettledStep p.0
    → SettledEnd rest
    → SettledEnd (go_on p rest)
unfolding go_on
go_on-SettledEnd (some r, as') rest l o = l
go_on-SettledEnd (none, as') none l o = tt
go_on-SettledEnd (none, as') (some (r, more)) l o = o

retry-SettledEnd :
    (event : Event) (timeout : ℕ) (ts : List Turn)
    → All (λ (t : Turn). t.add_error ≡ none) ts
    → SettledEnd (retry event timeout ts)
unfolding retry
retry-SettledEnd event timeout [] h = tt
retry-SettledEnd event timeout (t ∷ ts) h =
    go_on-SettledEnd (round t.result (wait_round event timeout t.add_error (expired timeout t)))
      (retry event timeout ts)
      (round-SettledStep t.result (wait_round event timeout t.add_error (expired timeout t))
        (wait_round-SettledStep event timeout t.add_error (expired timeout t) h.0))
      (retry-SettledEnd event timeout ts h.1)

-- A hooked call on a descriptor that it waits for blocks as far as the fiber can see: where the descriptor
-- can be added to the manager, what it returns is never EAGAIN, and it is never EINTR either.
pub io-Settled :
    (ctx : FdContext) (event : Event) (timeout_so : TimeoutType) (ts : List Turn) (r : Returned)
    (as' : List Action)
    → IsHooked ctx
    → All (λ (t : Turn). t.add_error ≡ none) ts
    → io true (some ctx) event timeout_so ts ≡ some (r, as')
    → Settled r
io-Settled ctx event timeout_so ts r as' h a e =
    subst SettledEnd (sym (io_hooked ctx event timeout_so ts h) ∙ e)
      (retry-SettledEnd event (get_timeout timeout_so ctx) ts a)

-- A turn after which the loop goes on: the system call is interrupted, or would block and the wait is not
-- ended by the timer.
abbrev pub GoesOn : ℕ → Turn → Type 0
GoesOn timeout t =
    (t.result ≡ failed eintr)
    ⊎ ((t.result ≡ failed eagain) × (t.add_error ≡ none) × (expired timeout t ≡ false))

-- A turn that ends the loop with `r`.
abbrev pub Ends : ℕ → Turn → Returned → Type 0
Ends timeout t r =
    ((t.result ≡ r) × Settled r)
    ⊎ ((t.result ≡ failed eagain)
        × (t.add_error ≡ none)
        × (t.timed_out ≡ true)
        × (timeout ≢ no_timeout)
        × (r ≡ failed etimedout))

round-GoesOn :
    (event : Event) (timeout : ℕ) (t : Turn)
    → GoesOn timeout t
    → (round t.result (wait_round event timeout t.add_error (expired timeout t))).0 ≡ none
unfolding round wait_round expired
round-GoesOn event timeout t (inl e) = rw (e, round) refl
round-GoesOn event timeout t (inr (e, a, x)) = rw (e, a, x, round) refl

round-Settled :
    (r : Returned) (wait : Option Returned × List Action) → Settled r → (round r wait).0 ≡ some r
unfolding round
round-Settled (returned n) wait s = refl
round-Settled (failed e) wait s = elim (Bool-cases (e == eintr)) [
  | inl i ↦ absurd (s.0 (ap failed ((==_iff e eintr).0 i)))
  | inr i ↦ rw i (elim (Bool-cases (e == eagain)) [
    | inl g ↦ absurd (s.1 (ap failed ((==_iff e eagain).0 g)))
    | inr g ↦ rw g refl
  ])
]

round_over :
    (event : Event) (timeout : ℕ) (r : Returned) (a : Option ℕ) (over : Bool)
    → r ≡ failed eagain
    → a ≡ none
    → over ≡ true
    → (round r (wait_round event timeout a over)).0 ≡ some (failed etimedout)
unfolding round wait_round
round_over event timeout r a over e n o = rw (e, n, o) refl

expired_if :
    (timeout : ℕ) (t : Turn) → t.timed_out ≡ true → timeout ≢ no_timeout → expired timeout t ≡ true
unfolding expired
expired_if timeout t o p = elim (Bool-cases (timeout == no_timeout)) [
  | inl e ↦ absurd (p ((==_iff timeout no_timeout).0 e))
  | inr e ↦ rw (o, e) refl
]

round-Ends :
    (event : Event) (timeout : ℕ) (t : Turn) (r : Returned)
    → Ends timeout t r
    → (round t.result (wait_round event timeout t.add_error (expired timeout t))).0 ≡ some r
round-Ends event timeout t r (inl (e, s)) =
    round-Settled t.result (wait_round event timeout t.add_error (expired timeout t))
      (subst Settled (sym e) s)
    ∙ ap some e
round-Ends event timeout t r (inr (e, a, o, p, q)) =
    round_over event timeout t.result t.add_error (expired timeout t) e a (expired_if timeout t o p)
    ∙ ap some (sym q)

goes_on_to :
    (p : Option Returned × List Action) (rest : Option (Returned × List Action)) (r : Returned)
    (as' : List Action)
    → p.0 ≡ none
    → rest ≡ some (r, as')
    → (done : List Action) × (go_on p rest ≡ some (r, done))
unfolding go_on
goes_on_to (some x, as0) rest r as' e h = absurd cc
goes_on_to (none, as0) none r as' e h = absurd cc
goes_on_to (none, as0) (some (x, more)) r as' e h =
    (as0 ++ more, ap (λ y. some (y, as0 ++ more)) (cc h))

stops_at :
    (p : Option Returned × List Action) (rest : Option (Returned × List Action)) (r : Returned)
    → p.0 ≡ some r
    → (done : List Action) × (go_on p rest ≡ some (r, done))
unfolding go_on
stops_at (none, as0) rest r e = absurd cc
stops_at (some x, as0) rest r e = (as0, ap (λ y. some (y, as0)) (cc e))

retry_returns :
    (event : Event) (timeout : ℕ) (ts : List Turn) (t : Turn) (later : List Turn) (r : Returned)
    → All (GoesOn timeout) ts
    → Ends timeout t r
    → (done : List Action) × (retry event timeout (ts ++ t ∷ later) ≡ some (r, done))
unfolding retry
retry_returns event timeout [] t later r g h =
    stops_at (round t.result (wait_round event timeout t.add_error (expired timeout t)))
      (retry event timeout later) r (round-Ends event timeout t r h)
retry_returns event timeout (u ∷ ts) t later r g h =
    let (more, e) = retry_returns event timeout ts t later r g.1 h in
    goes_on_to (round u.result (wait_round event timeout u.add_error (expired timeout u)))
      (retry event timeout (ts ++ t ∷ later)) r more (round-GoesOn event timeout u g.0) e

-- A hooked call on a descriptor that it waits for returns: after any number of system calls that are
-- interrupted or would block, at the first one that gives anything else with what that gives, and at the
-- first wait that the timer ends with ETIMEDOUT, if the descriptor has a time-out.
pub io_returns :
    (ctx : FdContext) (event : Event) (timeout_so : TimeoutType) (ts : List Turn) (t : Turn)
    (later : List Turn) (r : Returned)
    → IsHooked ctx
    → All (GoesOn (get_timeout timeout_so ctx)) ts
    → Ends (get_timeout timeout_so ctx) t r
    → (done : List Action) × (io true (some ctx) event timeout_so (ts ++ t ∷ later)
        ≡ some (r, done))
io_returns ctx event timeout_so ts t later r h g e =
    let (done, same) = retry_returns event (get_timeout timeout_so ctx) ts t later r g e in
    (done, io_hooked ctx event timeout_so (ts ++ t ∷ later) h ∙ same)
