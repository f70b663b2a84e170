-- ===== src/Tests/Fds.antt =====
-- The table of saturn/fdmanager.cc at concrete inputs.
use saturn.Base.{
  ℕ, ◌≡◌, refl, Bool, true, false, Option, none, some, [], ◌∷◌, length, arith, ◌==◌, if◌then◌else◌,
}
use saturn.FdManager.{
  Datas, new_context, enlarge, create, entry_at, get, del, set_timeout, get_timeout, receive, send,
  no_timeout,
}
use saturn.FdManager.Entries.{get-Got, Got}

-- Descriptor 4 is not open, and the odd ones are sockets.
abbrev fstat : ℕ → Option Bool
fstat fd = if fd == 4 then none else some (if fd == 3 then true else false)

abbrev two : Datas
two = none ∷ none ∷ []

new_context_run :
    (new_context fstat 3).sys_nonblock ≡ true × ((new_context fstat 4).is_init ≡ false)
unfolding new_context
new_context_run = (refl, refl)

get_timeout_run : get_timeout receive (set_timeout send 9 (new_context fstat 3)) ≡ no_timeout
unfolding new_context set_timeout get_timeout
get_timeout_run = refl

get_run : length (get fstat 3 true two).0 ≡ 4
unfolding get create enlarge new_context
get_run = refl

del_run : entry_at (del 3 (get fstat 3 true two).0) 3 ≡ none
unfolding get create enlarge new_context del
del_run = refl

get-Got_example : Got fstat 3 true two (get fstat 3 true two)
get-Got_example = get-Got fstat 3 true two (omega arith) (omega arith)
