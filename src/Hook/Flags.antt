-- ===== src/Hook/Flags.antt =====
-- The calls of saturn/hook.cc that set what the descriptors' contexts hold: `fcntl`, `ioctl`, `setsockopt`,
-- `close` and the sleeps. A word of flags is its bit pattern.
use saturn.Base.{
  ℕ, ◌+◌, ◌-◌, ◌*◌, ◌/◌, ◌%◌, ◌^◌, Bool, true, false, not, ◌||◌, Option, none, some, set, ◌==◌,
  if◌then◌else◌,
}
use saturn.FdManager.{
  FdContext, Datas, TimeoutType, set_timeout, set_user_nonblock, get, entry_at, del,
}
use saturn.IoManager.{IoManager, EpollCtl, Attempt, done}
use saturn.IoManager.Calls.{cancel_all, ◌>>=◌}

-- `O_NONBLOCK`.
abbrev pub nonblock_bit : ℕ
nonblock_bit = 2048

unfoldable pub has_nonblock : ℕ → Bool
has_nonblock arg = (arg / nonblock_bit) % 2 == 1

-- `arg | O_NONBLOCK` and `arg & ~O_NONBLOCK`.
unfoldable pub with_nonblock : ℕ → ℕ
with_nonblock arg = if has_nonblock arg then arg else arg + nonblock_bit

unfoldable pub without_nonblock : ℕ → ℕ
without_nonblock arg = if has_nonblock arg then arg - nonblock_bit else arg

unfoldable pub put_nonblock : Bool → ℕ → ℕ
put_nonblock true arg = with_nonblock arg
put_nonblock false arg = without_nonblock arg

-- A context whose flags the hook looks at: one of an open socket.
unfoldable pub is_managed : Option FdContext → Bool
is_managed none = false
is_managed (some ctx) = not (ctx.is_closed || not ctx.is_socket)

-- The context of a descriptor, changed in place.
unfoldable pub change : (FdContext → FdContext) → ℕ → Datas → Datas
change f fd ds = elim (entry_at ds fd) [ none ↦ ds | some ctx ↦ set ds fd (some (f ctx)) ]

unfoldable pub sys_nonblock_of : Option FdContext → Bool
sys_nonblock_of none = false
sys_nonblock_of (some ctx) = ctx.sys_nonblock

unfoldable pub user_nonblock_of : Option FdContext → Bool
user_nonblock_of none = false
user_nonblock_of (some ctx) = ctx.user_nonblock

-- `fcntl(fd, F_SETFL, arg)`: the flags that `fcntl_f` is given, and the table behind it. `get` creates
-- nothing here.
unfoldable pub fcntl_setfl : (ℕ → Option Bool) → ℕ → ℕ → Datas → ℕ × Datas
fcntl_setfl fstat fd arg ds =
    let ctx = (get fstat fd false ds).1 in
    if is_managed ctx
    then (
      put_nonblock (sys_nonblock_of ctx) arg,
      change (set_user_nonblock (has_nonblock arg)) fd ds,
    )
    else (arg, ds)

-- `fcntl(fd, F_GETFL)`: what the caller is given for what `fcntl_f` gives.
unfoldable pub fcntl_getfl : (ℕ → Option Bool) → ℕ → ℕ → Datas → ℕ
fcntl_getfl fstat fd arg ds =
    let ctx = (get fstat fd false ds).1 in
    if is_managed ctx then put_nonblock (user_nonblock_of ctx) arg else arg

-- `ioctl(d, FIONBIO, &arg)`: the argument is handed to `ioctl_f` as it is.
unfoldable pub ioctl_fionbio : (ℕ → Option Bool) → ℕ → ℕ → Datas → ℕ × Datas
ioctl_fionbio fstat d arg ds =
    if is_managed (get fstat d false ds).1
    then (arg, change (set_user_nonblock (not (arg == 0))) d ds)
    else (arg, ds)

-- `setsockopt(sockfd, SOL_SOCKET, SO_RCVTIMEO or SO_SNDTIMEO, &v)` with the fields of `timeval`. The time
-- is unsigned.
unfoldable pub setsockopt_timeout :
    (ℕ → Option Bool) → Bool → ℕ → TimeoutType → ℕ → ℕ → Datas → Datas
setsockopt_timeout fstat hook_enable sockfd optname tv_sec tv_usec ds =
    if not hook_enable then ds else elim (get fstat sockfd false ds).1 [
      | none ↦ ds
      | some ctx ↦
          change (set_timeout optname ((tv_sec * 1000 + tv_usec / 1000) % 2 ^ 64)) sockfd ds
    ]

-- `close`, in a thread that has a manager, up to `close_f`: the waiters are triggered, and then the context is
-- dropped.
unfoldable pub close :
    (EpollCtl → Bool)
    → (ℕ → Option Bool)
    → Bool
    → ℕ
    → IoManager
    → Datas
    → Attempt (IoManager × Datas)
close epoll_ctl fstat hook_enable fd m ds =
    if not hook_enable then done (m, ds) else elim (get fstat fd false ds).1 [
      | none ↦ done (m, ds)
      | some ctx ↦ cancel_all epoll_ctl fd m >>= λ r. done (r.0, del fd ds)
    ]

-- The time that `sleep`, `usleep` and `nanosleep` give to the timer; the argument of `addTimer` is a
-- `uint64_t`, the products are of the widths that the arguments have.
unfoldable pub sleep_ms : ℕ → ℕ
sleep_ms seconds = (seconds * 1000) % 2 ^ 32

unfoldable pub usleep_ms : ℕ → ℕ
usleep_ms usec = (usec * 1000) % 2 ^ 32

-- The sum is cut to an `int`, and widened with its sign.
unfoldable pub nanosleep_ms : ℕ → ℕ → ℕ
nanosleep_ms tv_sec tv_nsec =
    let ms = (tv_sec * 1000 + tv_nsec / 1000 / 1000) % 2 ^ 32 in
    if ms / 2 ^ 31 == 0 then ms else ms + (2 ^ 64 - 2 ^ 32)
