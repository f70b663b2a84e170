-- ===== src/FdManager.antt =====
-- saturn/fdmanager.h and saturn/fdmanager.cc: the table of the descriptors' flags and time-outs. A
-- descriptor is the bit pattern of its `int`.
pub mod Entries
use saturn.Base.{
  ℕ, zero, suc, ◌+◌, ◌-◌, ◌*◌, ◌^◌, Bool, true, false, not, ◌&&◌, ◌||◌, Option, none, some, List,
  [], ◌∷◌, ◌++◌, length, get_elem?, set, replicate, ltb, leb, if◌then◌else◌,
}

pub record FdContext : Type 0 where
  pub is_init : Bool
  pub is_socket : Bool
  pub sys_nonblock : Bool
  pub user_nonblock : Bool
  pub is_closed : Bool
  pub fd : ℕ
  pub recv_timeout : ℕ
  pub send_timeout : ℕ

-- `(uint64_t)-1`: no time-out.
abbrev pub no_timeout : ℕ
no_timeout = 2 ^ 64 - 1

-- `FdContext(fd)` with its `init`. `fstat` is the system's: `none` when it fails, and otherwise whether the
-- descriptor is a socket.
unfoldable pub new_context : (ℕ → Option Bool) → ℕ → FdContext
new_context fstat fd =
    let blank : FdContext = record {
      is_init = false;
      is_socket = false;
      sys_nonblock = false;
      user_nonblock = false;
      is_closed = false;
      fd = fd;
      recv_timeout = no_timeout;
      send_timeout = no_timeout;
    } in
    elim (fstat fd) [
      | none ↦ blank
      | some socket ↦ record blank { is_init = true; is_socket = socket; sys_nonblock = socket }
    ]

-- `SO_RCVTIMEO`, or any other option.
pub data TimeoutType : Type 0 where
  receive send : TimeoutType

unfoldable pub set_timeout : TimeoutType → ℕ → FdContext → FdContext
set_timeout receive v c = record c { recv_timeout = v }
set_timeout send v c = record c { send_timeout = v }

unfoldable pub get_timeout : TimeoutType → FdContext → ℕ
get_timeout receive c = c.recv_timeout
get_timeout send c = c.send_timeout

unfoldable pub set_user_nonblock : Bool → FdContext → FdContext
set_user_nonblock v c = record c { user_nonblock = v }

unfoldable pub set_sys_nonblock : Bool → FdContext → FdContext
set_sys_nonblock v c = record c { sys_nonblock = v }

-- `m_datas`, with `none` for a null pointer.
abbrev pub Datas : Type 0
Datas = List (Option FdContext)

unfoldable pub new_datas : Datas
new_datas = replicate 64 none

-- `while(size <= fd) resize(size * 2)`, in `fuel` rounds.
unfoldable pub enlarge : ℕ → ℕ → Datas → Datas
enlarge zero fd ds = ds
enlarge (suc fuel) fd ds = elim (leb (length ds) fd) [
  | false ↦ ds
  | true ↦ enlarge fuel fd (ds ++ replicate (length ds) none)
]

-- The end of `get`, under the exclusive lock. A table that is not empty doubles past `fd` within `fd + 1`
-- rounds.
unfoldable pub create : (ℕ → Option Bool) → ℕ → Datas → Datas × Option FdContext
unfolding enlarge new_context
create fstat fd ds =
    (set (enlarge (suc fd) fd ds) fd (some (new_context fstat fd)), some (new_context fstat fd))

-- What `m_datas[fd]` points to, or null where there is no such entry.
abbrev pub entry_at : Datas → ℕ → Option FdContext
entry_at ds fd = elim (get_elem? ds fd) [ none ↦ none | some p ↦ p ]

unfoldable pub get : (ℕ → Option Bool) → ℕ → Bool → Datas → Datas × Option FdContext
get fstat fd auto_create ds =
    if leb (2 ^ 31) fd
    then (ds, none)
    else if leb (length ds) fd
    then (if not auto_create then (ds, none) else create fstat fd ds)
    else elim (entry_at ds fd) [
      | some c ↦ (ds, some c)
      | none ↦ if not auto_create then (ds, none) else create fstat fd ds
    ]

unfoldable pub del : ℕ → Datas → Datas
del fd ds = if leb (length ds) fd then ds else set ds fd none
