-- ===== src/Tests/Hooks.antt =====
-- The hooks of saturn/hook.cc at concrete inputs.
use saturn.Base.{
  ◌≢◌, ℕ, ◌-◌, ◌^◌, ◌≡◌, refl, inl, inr, Bool, true, false, Option, none, some, List, [], ◌∷◌, ◌++◌,
  arith,
}
use saturn.FdManager.{FdContext, Datas, receive, set_timeout, get_timeout, entry_at, get}
use saturn.IoManager.{read_event}
use saturn.Hook.{
  Returned, returned, failed, eintr, eagain, etimedout, Turn, Action, called, yielded, timer_added,
  timer_cancelled, event_added, retry, round, wait_round, go_on, expired, start_timer, stop_timer,
  io,
}
use saturn.Hook.Waits.{Orderly, io-Orderly}
use saturn.Hook.Returns.{Settled, IsHooked, io-Settled, io_returns}
use saturn.Hook.Flags.{
  has_nonblock, without_nonblock, put_nonblock, fcntl_setfl, fcntl_getfl, is_managed, change,
  user_nonblock_of, setsockopt_timeout, usleep_ms,
}
use saturn.Hook.NonBlocking.{fcntl_getfl-fcntl_setfl}

abbrev turn : Returned → Bool → Turn
turn r timed_out = record { result = r; add_error = none; timed_out = timed_out }

abbrev socket_context : FdContext
socket_context = record {
  is_init = true;
  is_socket = true;
  sys_nonblock = true;
  user_nonblock = false;
  is_closed = false;
  fd = 0;
  recv_timeout = 50;
  send_timeout = 2 ^ 64 - 1;
}

abbrev fds : Datas
fds = some socket_context ∷ none ∷ []

abbrev fstat : ℕ → Option Bool
fstat fd = some true

socket_context-IsHooked : IsHooked socket_context
socket_context-IsHooked = record { open_socket = refl; a_socket = refl; blocking = refl }

abbrev trace : List Action
trace =
    called
    ∷ called
    ∷ timer_added 50
    ∷ event_added read_event
    ∷ yielded
    ∷ timer_cancelled
    ∷ called
    ∷ []

-- Interrupted, then nothing to read yet, and then 7 bytes.
abbrev turns : List Turn
turns = turn (failed eintr) false ∷ turn (failed eagain) false ∷ turn (returned 7) false ∷ []

io_run : io true (some socket_context) read_event receive turns ≡ some (returned 7, trace)
unfolding io retry round wait_round go_on expired start_timer stop_timer get_timeout
io_run = refl

io_timed_out_run :
    io true (some socket_context) read_event receive (turn (failed eagain) true ∷ [])
    ≡ some (
      failed etimedout,
      called ∷ timer_added 50 ∷ event_added read_event ∷ yielded ∷ timer_cancelled ∷ [],
    )
unfolding io retry round wait_round go_on expired start_timer stop_timer get_timeout
io_timed_out_run = refl

-- A time-out of no time, which means none to the kernel, ends a wait at once.
setsockopt_timeout_run :
    entry_at (setsockopt_timeout fstat true 0 receive 0 0 fds) 0
    ≡ some (record socket_context { recv_timeout = 0 })
unfolding setsockopt_timeout get change set_timeout
setsockopt_timeout_run = refl

-- One millisecond.
usleep_ms_run : usleep_ms 1000 ≡ 1000000
unfolding usleep_ms
usleep_ms_run = refl

-- The kernel's -1.
fcntl_getfl_run : fcntl_getfl fstat 0 (2 ^ 32 - 1) fds ≡ 2 ^ 32 - 2049
unfolding fcntl_getfl get is_managed user_nonblock_of put_nonblock without_nonblock has_nonblock
fcntl_getfl_run = refl

io-Orderly_example : Orderly 0 false trace
io-Orderly_example =
    io-Orderly true (some socket_context) read_event receive turns (returned 7) trace io_run

io-Settled_example : Settled (returned 7)
io-Settled_example =
    io-Settled socket_context read_event receive turns (returned 7) trace socket_context-IsHooked
      (refl, (refl, (refl, tt))) io_run

fifty_apart : ◌≢◌ {A = ℕ} 50 (2 ^ 64 - 1)
fifty_apart e = omega (arith, e)

io_returns_example :
    (done : List Action) × (io true (some socket_context) read_event receive (
        (turn (failed eintr) false ∷ turn (failed eagain) false ∷ [])
        ++ turn (failed eagain) true ∷ [])
      ≡ some (failed etimedout, done))
unfolding expired get_timeout
io_returns_example =
    io_returns socket_context read_event receive
      (turn (failed eintr) false ∷ turn (failed eagain) false ∷ []) (turn (failed eagain) true) []
      (failed etimedout) socket_context-IsHooked (inl refl, (inr (refl, refl, refl), tt))
      (inr (refl, refl, refl, fifty_apart, refl))

fcntl_getfl-fcntl_setfl_example :
    let r = fcntl_setfl fstat 0 2050 fds in
    (has_nonblock (fcntl_getfl fstat 0 2 r.1) ≡ has_nonblock 2050)
    × (without_nonblock (fcntl_getfl fstat 0 2 r.1) ≡ without_nonblock 2)
    × (has_nonblock r.0 ≡ true)
    × (without_nonblock r.0 ≡ without_nonblock 2050)
unfolding is_managed
fcntl_getfl-fcntl_setfl_example =
    fcntl_getfl-fcntl_setfl fstat 0 2050 2 fds socket_context (omega arith) (omega arith) refl refl
