-- ===== src/Fiber.antt =====
-- saturn/fiber.h and saturn/fiber.cc: the states of a fiber. The switch of contexts is the system's: a fiber
-- that is swapped in runs until it swaps out, in one of four ways.
use saturn.Base.{ℕ, Bool, true, false, ◌==◌, if◌then◌else◌}
use saturn.IoManager.{Attempt, done, aborted}

pub data State : Type 0 where
  init hold exec term ready except : State

-- How a fiber swaps out: by `YieldToReady`, by `YieldToHold`, or at the end of `MainFunc`, where its callback
-- has returned or thrown.
pub data Leave : Type 0 where
  yields_ready yields_hold returns throws : Leave

unfoldable pub is_exec : State → Bool
is_exec exec = true
is_exec _ = false

-- `TERM` or `EXCEPT`.
unfoldable pub is_over : State → Bool
is_over term = true
is_over except = true
is_over _ = false

-- The state in which `reset` may find the fiber.
unfoldable pub is_resettable : State → Bool
is_resettable term = true
is_resettable except = true
is_resettable init = true
is_resettable _ = false

-- The states of the fibers, by address.
abbrev pub States : Type 0
States = ℕ → State

unfoldable pub set_state : ℕ → State → States → States
set_state f s states g = if f == g then s else states g

-- `reset`, up to the context.
unfoldable pub reset : ℕ → States → Attempt States
reset f states = if is_resettable (states f) then done (set_state f init states) else aborted

-- The state that the fiber has when it swaps out.
unfoldable pub left : Leave → State
left yields_ready = ready
left yields_hold = hold
left returns = term
left throws = except

-- `swapIn` until the fiber has swapped out.
unfoldable pub swap_in : ℕ → Leave → States → Attempt States
swap_in f l states =
    if is_exec (states f) then aborted else done (set_state f (left l) (set_state f exec states))
