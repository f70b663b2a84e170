-- ===== src/Hook.antt =====
-- saturn/hook.cc: the system calls that a fiber waits in, and the flags that it and the kernel see.
pub mod Waits
pub mod Returns
pub mod Flags
pub mod NonBlocking
use Prim.Native.Nat.{ℕ}
use saturn.Base.{
  zero, suc, ◌+◌, ◌-◌, ◌*◌, ◌/◌, ◌%◌, ◌^◌, Bool, true, false, not, ◌&&◌, ◌||◌, Option, none, some,
  List, [], ◌∷◌, ◌++◌, ◌==◌, if◌then◌else◌,
}
use saturn.FdManager.{
  FdContext, Datas, TimeoutType, receive, send, set_timeout, get_timeout, no_timeout, get, entry_at,
}
use saturn.IoManager.{Event, read_event, write_event}

-- What a system call gives: its value, or -1 with this `errno`.
pub data Returned : Type 0 where
  returned : (n : ℕ) → Returned
  failed : (errno : ℕ) → Returned

abbrev pub eintr : ℕ
eintr = 4

abbrev pub ebadf : ℕ
ebadf = 9

abbrev pub eagain : ℕ
eagain = 11

abbrev pub etimedout : ℕ
etimedout = 110

abbrev pub einprogress : ℕ
einprogress = 115

-- What the world does in one round: what the system call gives, with which `errno` the descriptor cannot
-- be added to the manager, if it cannot, and whether the wait is ended by the timer.
pub record Turn : Type 0 where
  pub result : Returned
  pub add_error : Option ℕ
  pub timed_out : Bool

-- What the hook does.
pub data Action : Type 0 where
  called event_refused yielded timer_cancelled : Action
  timer_added : (ms : ℕ) → Action
  event_added : (event : Event) → Action

-- The condition timer, unless there is no time-out, and its cancellation.
unfoldable pub start_timer : ℕ → List Action
start_timer timeout = if timeout == no_timeout then [] else timer_added timeout ∷ []

unfoldable pub stop_timer : ℕ → List Action
stop_timer timeout = if timeout == no_timeout then [] else timer_cancelled ∷ []

-- `tinfo->cancelled` after the wait: only the timer sets it.
unfoldable pub expired : ℕ → Turn → Bool
expired timeout t = t.timed_out && not (timeout == no_timeout)

-- What is done on EAGAIN, by whether the descriptor can be added and whether the timer ends the wait: what
-- `io` returns, if it does not go on, and the actions.
unfoldable pub wait_round : Event → ℕ → Option ℕ → Bool → Option Returned × List Action
wait_round event timeout (some errno) over =
    (some (failed errno), start_timer timeout ++ event_refused ∷ stop_timer timeout)
wait_round event timeout none over = (
  if over then some (failed etimedout) else none,
  start_timer timeout ++ event_added event ∷ yielded ∷ stop_timer timeout,
)

-- One round from `retry` on, or of the loop on EINTR.
unfoldable pub round : Returned → Option Returned × List Action → Option Returned × List Action
round (returned n) wait = (some (returned n), called ∷ [])
round (failed e) wait =
    if e == eintr
    then (none, called ∷ [])
    else if not (e == eagain)
    then (some (failed e), called ∷ [])
    else (wait.0, called ∷ wait.1)

-- What follows a round: nothing, or the rest of the loop.
unfoldable pub go_on :
    Option Returned × List Action
    → Option (Returned × List Action)
    → Option (Returned × List Action)
go_on (some r, as') rest = some (r, as')
go_on (none, as') none = none
go_on (none, as') (some (r, more)) = some (r, as' ++ more)

-- The loop, one turn of the script for each system call; `none` when the script ends first.
unfoldable pub retry : Event → ℕ → List Turn → Option (Returned × List Action)
retry event timeout [] = none
retry event timeout (t ∷ ts) =
    go_on (round t.result (wait_round event timeout t.add_error (expired timeout t)))
      (retry event timeout ts)

-- The first call alone, for what is not hooked.
unfoldable pub call_once : List Turn → Option (Returned × List Action)
call_once [] = none
call_once (t ∷ ts) = some (t.result, called ∷ [])

-- `io`: `ctx` is what the manager of descriptors has for `fd`.
unfoldable pub io :
    Bool → Option FdContext → Event → TimeoutType → List Turn → Option (Returned × List Action)
io hook_enable none event timeout_so ts = call_once ts
io hook_enable (some ctx) event timeout_so ts =
    if not hook_enable
    then call_once ts
    else if ctx.is_closed
    then some (failed ebadf, [])
    else if not ctx.is_socket || ctx.user_nonblock
    then call_once ts
    else retry event (get_timeout timeout_so ctx) ts

-- `read`, `readv`, `recv`, `recvfrom` and `recvmsg`; `write`, `writev`, `send`, `sendto` and `sendmsg`.
unfoldable pub hooked_read : Bool → Option FdContext → List Turn → Option (Returned × List Action)
hooked_read hook_enable ctx ts = io hook_enable ctx read_event receive ts

unfoldable pub hooked_write : Bool → Option FdContext → List Turn → Option (Returned × List Action)
hooked_write hook_enable ctx ts = io hook_enable ctx write_event send ts

-- `accept`: a new descriptor is put into the table.
unfoldable pub accept :
    (ℕ → Option Bool)
    → Bool
    → Option FdContext
    → List Turn
    → Datas
    → Option (Returned × List Action × Datas)
accept fstat hook_enable ctx ts ds = elim (io hook_enable ctx read_event receive ts) [
  | none ↦ none
  | some (returned fd, as') ↦ some (returned fd, as', (get fstat fd true ds).0)
  | some (failed e, as') ↦ some (failed e, as', ds)
]

-- `socket`.
unfoldable pub socket : (ℕ → Option Bool) → Bool → Returned → Datas → Returned × Datas
socket fstat hook_enable (failed e) ds = (failed e, ds)
socket fstat hook_enable (returned fd) ds =
    (returned fd, if not hook_enable then ds else (get fstat fd true ds).0)

-- The end of `connect_with_timeout`: `getsockopt(SO_ERROR)` fails, or gives an error or 0.
unfoldable pub connected : Returned → Returned
connected (failed e) = failed e
connected (returned n) = if n == 0 then returned 0 else failed n

-- `connect_with_timeout`, on what `connect_f` gives, the turn of the wait and what `getsockopt` gives.
unfoldable pub connect_with_timeout :
    Bool → Option FdContext → Turn → Returned → ℕ → Returned × List Action
connect_with_timeout hook_enable ctx t so_error timeout_ms =
    if not hook_enable then (t.result, called ∷ []) else elim ctx [
      | none ↦ (failed ebadf, [])
      | some c ↦
          if c.is_closed
          then (failed ebadf, [])
          else if not c.is_socket || c.user_nonblock
          then (t.result, called ∷ [])
          else elim t.result [
            | returned n ↦ (returned n, called ∷ [])
            | failed e ↦
                if not (e == einprogress) then (failed e, called ∷ []) else elim t.add_error [
                  | some errno ↦ (
                    connected so_error,
                    called ∷ (start_timer timeout_ms ++ event_refused ∷ stop_timer timeout_ms),
                  )
                  | none ↦ (
                    if expired timeout_ms t then failed etimedout else connected so_error,
                    called
                        ∷ (start_timer timeout_ms
                            ++ event_added write_event ∷ yielded ∷ stop_timer timeout_ms),
                  )
                ]
          ]
    ]
