-- ===== src/Scheduler/Tasks.antt =====
-- Which task the search of `run` in saturn/scheduler.cc takes.
use saturn.Base.{
  ℕ, ◌≡◌, refl, ap, ◌⊎◌, inl, inr, Bool, true, false, not, ◌||◌, Option, none, some, List, [], ◌∷◌,
  ◌++◌, All, Bool-cases,
}
use saturn.IoManager.{Attempt, done}
use saturn.Fiber.{States}
use saturn.Scheduler.{FiberAndThread, has_work, is_empty, for_another, is_running, keep, take_task}

-- A task that the thread does not take: it is for another thread, or its fiber runs.
abbrev pub PassedOver : ℕ → States → FiberAndThread → Type 0
PassedOver me states t = (for_another me t ≡ true) ⊎ (is_running states t ≡ true)

-- A task that the thread takes.
abbrev pub CanTake : ℕ → States → FiberAndThread → Type 0
CanTake me states t = (for_another me t ≡ false) × (is_running states t ≡ false)

-- What a search has found: nothing, where every task is passed over and stays, or the first that is not,
-- and then the others stay in their order.
abbrev pub Found :
    ℕ → States → List FiberAndThread → Option FiberAndThread × List FiberAndThread × Bool → Type 0
Found me states ts (none, rest, b) = (rest ≡ ts) × All (PassedOver me states) ts
Found me states ts (some t, rest, b) =
    (before : List FiberAndThread) × (after : List FiberAndThread) × (ts ≡ before ++ t ∷ after)
    × (rest ≡ before ++ after)
    × All (PassedOver me states) before
    × CanTake me states t

-- The search has come to an end, and this holds of what it has found.
abbrev pub Finds :
    ℕ
    → States
    → List FiberAndThread
    → Attempt (Option FiberAndThread × List FiberAndThread × Bool)
    → Type 0
Finds me states ts r =
    (found : Option FiberAndThread × List FiberAndThread × Bool) × (r ≡ done found)
    × Found me states ts found

keep-Finds :
    (me : ℕ) (states : States) (b : Bool) (t : FiberAndThread) (ts : List FiberAndThread)
    (r : Attempt (Option FiberAndThread × List FiberAndThread × Bool))
    → PassedOver me states t
    → Finds me states ts r
    → Finds me states (t ∷ ts) (keep b t r)
unfolding keep
keep-Finds me states b t ts r p ((none, rest, k), e, (same, all)) =
    ((none, t ∷ rest, b || k), rw (e, keep) refl, (ap (λ l. t ∷ l) same, (p, all)))
keep-Finds me states b t ts r p ((some u, rest, k), e, (before, after, split, left, all, can)) = (
  (some u, t ∷ rest, b || k),
  rw (e, keep) refl,
  (t ∷ before, after, ap (λ l. t ∷ l) split, ap (λ l. t ∷ l) left, (p, all), can),
)

-- Where every task has a fiber or a callback, the search reaches no assertion. It takes the first task that
-- is not for another thread and whose fiber does not run, and leaves all the others in their order; it takes
-- none only if there is none.
pub take_task-Finds :
    (me : ℕ) (states : States) (ts : List FiberAndThread)
    → All (λ t. has_work t ≡ true) ts
    → Finds me states ts (take_task me states ts)
unfolding take_task
take_task-Finds me states [] h = ((none, [], false), refl, (refl, tt))
take_task-Finds me states (t ∷ ts) h = elim (Bool-cases (for_another me t)) [
  | inl a ↦
      rw (a, take_task)
        (keep-Finds me states true t ts (take_task me states ts) (inl a)
          (take_task-Finds me states ts h.1))
  | inr a ↦
      rw (a, h.0, take_task)
        (elim (Bool-cases (is_running states t)) [
          | inl e ↦
              rw (e, take_task)
                (keep-Finds me states false t ts (take_task me states ts) (inr e)
                  (take_task-Finds me states ts h.1))
          | inr e ↦
              rw (e, take_task)
                ((some t, ts, not (is_empty ts)), refl, ([], ts, refl, refl, tt, (a, e)))
        ])
]
