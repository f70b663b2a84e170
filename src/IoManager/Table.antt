-- ===== src/IoManager/Table.antt =====
-- The table of contexts: what a store at one descriptor does to all of them, and how the table grows.
use saturn.Base.{
  ℕ, zero, suc, ◌+◌, ◌≤◌, ◌<◌, ◌≡◌, refl, ap, subst, ◌∙◌, some, List, [], ◌∷◌, All, length,
  get_elem?, set, arith,
}
use mathlib.Core.Option.{some-injective}
use saturn.IoManager.{FdContext, new_context, context_resize}
use saturn.IoManager.Waiting.{IsFilled, waiters}

-- The number of events that wait in the table.
abbrev pub registered : List FdContext → ℕ
registered [] = 0
registered (fc ∷ cs) = waiters fc + registered cs

pub All-at :
    (cs : List FdContext) (i : ℕ) (fc : FdContext)
    → All IsFilled cs
    → get_elem? cs i ≡ some fc
    → IsFilled fc
All-at [] i fc h e = absurd cc
All-at (c ∷ cs) zero fc h e = subst IsFilled {x = c} {y = fc} (some-injective c fc e) h.0
All-at (c ∷ cs) (suc i) fc h e = All-at cs i fc h.1 e

pub All-set :
    (cs : List FdContext) (i : ℕ) (fc : FdContext)
    → All IsFilled cs
    → IsFilled fc
    → All IsFilled (set cs i fc)
All-set [] i fc h k = h
All-set (c ∷ cs) zero fc h k = (k, h.1)
All-set (c ∷ cs) (suc i) fc h k = (h.0, All-set cs i fc h.1 k)

pub registered-set :
    (cs : List FdContext) (i : ℕ) (fc fc' : FdContext)
    → get_elem? cs i ≡ some fc
    → registered (set cs i fc') + waiters fc ≡ registered cs + waiters fc'
registered-set [] i fc fc' e = absurd cc
registered-set (c ∷ cs) zero fc fc' e =
    omega (arith, ap waiters {x = c} {y = fc} (some-injective c fc e))
registered-set (c ∷ cs) (suc i) fc fc' e = omega (arith, registered-set cs i fc fc' e)

pub get_elem?-set :
    (cs : List FdContext) (i : ℕ) (fc fc' : FdContext)
    → get_elem? cs i ≡ some fc
    → get_elem? (set cs i fc') i ≡ some fc'
get_elem?-set [] i fc fc' e = absurd cc
get_elem?-set (c ∷ cs) zero fc fc' e = refl
get_elem?-set (c ∷ cs) (suc i) fc fc' e = get_elem?-set cs i fc fc' e

pub context_resize-All :
    (i size : ℕ) (cs : List FdContext) → All IsFilled cs → All IsFilled (context_resize i size cs)
unfolding context_resize
context_resize-All i zero cs h = tt
context_resize-All i (suc size) [] h = ((refl, refl), context_resize-All (suc i) size [] tt)
context_resize-All i (suc size) (c ∷ cs) h = (h.0, context_resize-All (suc i) size cs h.1)

new_registered : (i size : ℕ) → registered (context_resize i size []) ≡ 0
unfolding context_resize
new_registered i zero = refl
new_registered i (suc size) = omega (arith, new_registered (suc i) size)

pub registered-context_resize :
    (i size : ℕ) (cs : List FdContext)
    → length cs ≤ size
    → registered (context_resize i size cs) ≡ registered cs
unfolding context_resize
registered-context_resize i zero [] h = refl
registered-context_resize i zero (c ∷ cs) h = absurd (omega arith)
registered-context_resize i (suc size) [] h = new_registered i (suc size)
registered-context_resize i (suc size) (c ∷ cs) h =
    omega (arith, registered-context_resize (suc i) size cs (omega arith))

-- The contexts that the table has after a resize, where it had `cs`.
pub get_elem?-context_resize :
    (i size : ℕ) (cs : List FdContext) (j : ℕ) (fc : FdContext)
    → j < size
    → get_elem? cs j ≡ some fc
    → get_elem? (context_resize i size cs) j ≡ some fc
unfolding context_resize
get_elem?-context_resize i zero cs j fc h e = absurd (omega arith)
get_elem?-context_resize i (suc size) [] j fc h e = absurd cc
get_elem?-context_resize i (suc size) (c ∷ cs) zero fc h e = e
get_elem?-context_resize i (suc size) (c ∷ cs) (suc j) fc h e =
    get_elem?-context_resize (suc i) size cs j fc (omega arith) e

pub get_elem?-grown :
    (i size : ℕ) (cs : List FdContext) (j : ℕ)
    → length cs ≤ j
    → j < size
    → get_elem? (context_resize i size cs) j ≡ some (new_context (i + j))
unfolding context_resize
get_elem?-grown i zero cs j h k = absurd (omega arith)
get_elem?-grown i (suc size) [] zero h k = ap (λ n. some (new_context n)) (omega arith)
get_elem?-grown i (suc size) [] (suc j) h k =
    get_elem?-grown (suc i) size [] j (omega arith) (omega arith)
    ∙ ap (λ n. some (new_context n)) {x = suc i + j} {y = i + suc j} (omega arith)
get_elem?-grown i (suc size) (c ∷ cs) zero h k = absurd (omega arith)
get_elem?-grown i (suc size) (c ∷ cs) (suc j) h k =
    get_elem?-grown (suc i) size cs j (omega arith) (omega arith)
    ∙ ap (λ n. some (new_context n)) {x = suc i + j} {y = i + suc j} (omega arith)

-- A descriptor within the table has a context.
pub within_table :
    (cs : List FdContext) (j : ℕ) → j < length cs → (fc : FdContext) × (get_elem? cs j ≡ some fc)
within_table [] j h = absurd (omega arith)
within_table (c ∷ cs) zero h = (c, refl)
within_table (c ∷ cs) (suc j) h = within_table cs j (omega arith)
