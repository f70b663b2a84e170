-- ===== src/Hook/NonBlocking.antt =====
-- What the user and the kernel see of O_NONBLOCK through saturn/hook.cc, and what `close` leaves.
use saturn.Base.{
  zero, suc, [], ◌∷◌, subst, ℕ, ◌^◌, ◌<◌, ◌≡◌, refl, sym, ap, ◌∙◌, inl, inr, Bool, true, false,
  Option, none, some, length, set, get_elem?, ==_iff, arith, Bool-cases, leb, leb→lt, leb→le,
}
use saturn.FdManager.{set_user_nonblock, FdContext, Datas, get, del, entry_at}
use saturn.FdManager.Entries.{get-Got, entry_at-set, entry_at-past, entry_at-del}
use saturn.IoManager.{IoManager, EpollCtl, Attempt, done, any_event}
use saturn.IoManager.Calls.{none_call}
use saturn.IoManager.Kept.{IsValid}
use saturn.IoManager.Rounds.{Scheduled, cancel_all-IsValid}
use saturn.Hook.Flags.{
  has_nonblock, with_nonblock, without_nonblock, put_nonblock, is_managed, change, sys_nonblock_of,
  user_nonblock_of, fcntl_setfl, fcntl_getfl, close,
}

has-put_nonblock : (v : Bool) (arg : ℕ) → has_nonblock (put_nonblock v arg) ≡ v
unfolding put_nonblock with_nonblock without_nonblock has_nonblock
has-put_nonblock true arg = ground arith
has-put_nonblock false arg = ground arith

without-put_nonblock :
    (v : Bool) (arg : ℕ) → without_nonblock (put_nonblock v arg) ≡ without_nonblock arg
unfolding put_nonblock with_nonblock without_nonblock has_nonblock
without-put_nonblock true arg = ground arith
without-put_nonblock false arg = ground arith

-- What `get` finds when it creates nothing.
got :
    (fstat : ℕ → Option Bool) (fd : ℕ) (ds : Datas)
    → 0 < length ds
    → fd < 2 ^ 31
    → (get fstat fd false ds).1 ≡ entry_at ds fd
got fstat fd ds p h = (get-Got fstat fd false ds p h).0 ∙ same (entry_at ds fd)
  where
    same :
        (o : Option FdContext)
        → elim o as (λ _. Option FdContext) [ some c ↦ some c | none ↦ none ] ≡ o
    same none = refl
    same (some c) = refl

inside : (ds : Datas) (fd : ℕ) (c : FdContext) → entry_at ds fd ≡ some c → fd < length ds
inside ds fd c e = elim (Bool-cases (leb (length ds) fd)) [
  | inr h ↦ leb→lt (length ds) fd h
  | inl h ↦
      let gone : entry_at ds fd ≡ none = entry_at-past ds fd (leb→le (length ds) fd h) in
      absurd (cc (gone, e))
]

entry_at-change :
    (f : FdContext → FdContext) (fd : ℕ) (ds : Datas) (c : FdContext)
    → entry_at ds fd ≡ some c
    → entry_at (change f fd ds) fd ≡ some (f c)
unfolding change
entry_at-change f fd ds c e =
    rw (e, change)
      (entry_at-set ds fd (some (f c)) fd (inside ds fd c e) ∙ rw ((==_iff fd fd).1 refl) refl)

length-set_entry : (ds : Datas) (i : ℕ) (v : Option FdContext) → length (set ds i v) ≡ length ds
length-set_entry [] i v = refl
length-set_entry (d ∷ ds) zero v = refl
length-set_entry (d ∷ ds) (suc i) v = ap suc (length-set_entry ds i v)

length-change :
    (f : FdContext → FdContext) (fd : ℕ) (ds : Datas) (c : FdContext)
    → entry_at ds fd ≡ some c
    → length (change f fd ds) ≡ length ds
unfolding change
length-change f fd ds c e = rw (e, change) (length-set_entry ds fd (some (f c)))

setfl_managed :
    (fstat : ℕ → Option Bool) (fd arg : ℕ) (ds : Datas) (ctx : FdContext)
    → (get fstat fd false ds).1 ≡ some ctx
    → is_managed (some ctx) ≡ true
    → fcntl_setfl fstat fd arg ds
      ≡ (put_nonblock ctx.sys_nonblock arg, change (set_user_nonblock (has_nonblock arg)) fd ds)
unfolding fcntl_setfl sys_nonblock_of
setfl_managed fstat fd arg ds ctx g m = rw (g, fcntl_setfl) (rw (m, fcntl_setfl) refl)

getfl_managed :
    (fstat : ℕ → Option Bool) (fd kernel : ℕ) (ds : Datas) (ctx : FdContext)
    → (get fstat fd false ds).1 ≡ some ctx
    → is_managed (some ctx) ≡ true
    → fcntl_getfl fstat fd kernel ds ≡ put_nonblock ctx.user_nonblock kernel
unfolding fcntl_getfl user_nonblock_of
getfl_managed fstat fd kernel ds ctx g m = rw (g, fcntl_getfl) (rw (m, fcntl_getfl) refl)

-- What F_GETFL gives after F_SETFL.
getfl_after :
    (fstat : ℕ → Option Bool) (fd arg kernel : ℕ) (ds : Datas) (ctx : FdContext)
    → 0 < length ds
    → fd < 2 ^ 31
    → entry_at ds fd ≡ some ctx
    → is_managed (some ctx) ≡ true
    → fcntl_getfl fstat fd kernel (change (set_user_nonblock (has_nonblock arg)) fd ds)
      ≡ put_nonblock (has_nonblock arg) kernel
unfolding set_user_nonblock is_managed
getfl_after fstat fd arg kernel ds ctx p h e m =
    let f = set_user_nonblock (has_nonblock arg) in
    let ds' = change f fd ds in
    let long : length ds' ≡ length ds = length-change f fd ds ctx e in
    getfl_managed fstat fd kernel ds' (f ctx)
      (got fstat fd ds' (subst (λ n. 0 < n) (sym long) p) h ∙ entry_at-change f fd ds ctx e) m

-- The user of an open socket sees the O_NONBLOCK that was set last, whatever flags the kernel gives, and
-- the kernel's other flags; the kernel is given the O_NONBLOCK that the hook needs, and the user's other
-- flags.
pub fcntl_getfl-fcntl_setfl :
    (fstat : ℕ → Option Bool) (fd arg kernel : ℕ) (ds : Datas) (ctx : FdContext)
    → 0 < length ds
    → fd < 2 ^ 31
    → entry_at ds fd ≡ some ctx
    → is_managed (some ctx) ≡ true
    → let r = fcntl_setfl fstat fd arg ds in
      (has_nonblock (fcntl_getfl fstat fd kernel r.1) ≡ has_nonblock arg)
      × (without_nonblock (fcntl_getfl fstat fd kernel r.1) ≡ without_nonblock kernel)
      × (has_nonblock r.0 ≡ ctx.sys_nonblock)
      × (without_nonblock r.0 ≡ without_nonblock arg)
fcntl_getfl-fcntl_setfl fstat fd arg kernel ds ctx p h e m =
    let set_to = setfl_managed fstat fd arg ds ctx (got fstat fd ds p h ∙ e) m in
    let seen =
      ap (λ (r : ℕ × Datas). fcntl_getfl fstat fd kernel r.1) set_to
      ∙ getfl_after fstat fd arg kernel ds ctx p h e m in
    (
      ap has_nonblock seen ∙ has-put_nonblock (has_nonblock arg) kernel,
      ap without_nonblock seen ∙ without-put_nonblock (has_nonblock arg) kernel,
      ap (λ (r : ℕ × Datas). has_nonblock r.0) set_to ∙ has-put_nonblock ctx.sys_nonblock arg,
      ap (λ (r : ℕ × Datas). without_nonblock r.0) set_to
          ∙ without-put_nonblock ctx.sys_nonblock arg,
    )

-- Closing a descriptor that has a context, and on which something waits, reaches no assertion when
-- `epoll_ctl` succeeds: each task that waits is given to its own scheduler, once, that of READ first, and no other
-- is; the manager is left valid with no event of the descriptor, and the descriptor has no context any more.
pub close-IsReleased :
    (epoll_ctl : EpollCtl → Bool) (fstat : ℕ → Option Bool) (fd : ℕ) (m : IoManager) (ds : Datas)
    (waiting : saturn.IoManager.FdContext) (ctx : FdContext)
    → IsValid m
    → get_elem? m.contexts fd ≡ some waiting
    → any_event waiting.events ≡ true
    → epoll_ctl (none_call fd) ≡ true
    → entry_at ds fd ≡ some ctx
    → fd < 2 ^ 31
    → (m' : IoManager) × (left : saturn.IoManager.FdContext) × (close epoll_ctl fstat true fd m ds
        ≡ done (m', del fd ds))
      × IsValid m'
      × Scheduled waiting.events waiting m m'
      × (get_elem? m'.contexts fd ≡ some left)
      × (any_event left.events ≡ false)
      × (entry_at (del fd ds) fd ≡ none)
unfolding close
close-IsReleased epoll_ctl fstat fd m ds waiting ctx v at any ctl e h =
    let (m', left, did, valid, number, at', none') =
      cancel_all-IsValid epoll_ctl fd waiting m v at any ctl in
    let some_entry : 0 < length ds =
      (let i : fd < length ds = inside ds fd ctx e in omega (arith, i)) in
    let found : (get fstat fd false ds).1 ≡ some ctx = got fstat fd ds some_entry h ∙ e in
    (
      m',
      left,
      rw (found, close) (rw (did, close) refl),
      valid,
      number,
      at',
      none',
      entry_at-del fd ds fd ∙ rw ((==_iff fd fd).1 refl) refl,
    )
