-- ===== src/Timer/Recurring.antt =====
-- The second part of `listExpiredCb` in saturn/timer.cc: which callbacks are handed out, and the order
-- of the set behind it.
use mathlib.Core.List.{map}
use saturn.Base.{
  ℕ, ◌≡◌, refl, sym, ap, ap₂, subst, ◌∙◌, inl, inr, true, Option, List, [], ◌∷◌, ◌++◌, All,
  Bool-cases, ◌⊎◌,
}
use saturn.Timer.{Callback, Timer, TimerManager, less, take_expired, requeue, list_expired_cb}
use saturn.Timer.Order.{In, IsOrdered, All-In, less_irrefl, update_other, set_insert-IsOrdered}
use saturn.Timer.Requeue.{
  Apart, Apart-insert, renewed, requeue-others, requeue-renewed, requeue-In, In-requeue,
}
use saturn.Timer.Kept.{IsKept, update-IsOrdered}
use saturn.Timer.Expiry.{set_split-append, Due, take_expired-Due}

pub requeue-IsKept :
    (now : ℕ) (expired : List ℕ) (m : TimerManager)
    → Apart expired m.timers
    → IsKept m
    → IsKept (requeue now expired m).0
unfolding requeue
requeue-IsKept now [] m p h = h
requeue-IsKept now (a ∷ expired) m p h = elim (Bool-cases (m.store a).recurring) [
  | inl again ↦ rw again (
      requeue-IsKept now expired _ (Apart-insert _ a expired m.timers p.1 p.2)
        (set_insert-IsOrdered _ a m.timers (update-IsOrdered m.store a _ m.timers p.0 h)))
  | inr once ↦ rw once (requeue-IsKept now expired m p.2 h)
]

-- A callback is that of the store from before, since no timer comes twice.
callbacks_agree :
    (s s' : ℕ → Timer) (expired : List ℕ)
    → ((b : ℕ) → In b expired → s' b ≡ s b)
    → map (λ b. (s' b).cb) expired ≡ map (λ b. (s b).cb) expired
callbacks_agree s s' [] f = refl
callbacks_agree s s' (a ∷ expired) f =
    ap₂ ◌∷◌ (ap (λ (t : Timer). t.cb) (f a (inl refl)))
      (callbacks_agree s s' expired (λ b i. f b (inr i)))

requeue-callbacks :
    (now : ℕ) (expired : List ℕ) (m : TimerManager)
    → Apart expired m.timers
    → (requeue now expired m).1 ≡ map (λ a. (m.store a).cb) expired
unfolding requeue
requeue-callbacks now [] m p = refl
requeue-callbacks now (a ∷ expired) m p = elim (Bool-cases (m.store a).recurring) [
  | inl again ↦ rw again (
      ap (λ t. (m.store a).cb ∷ t)
        (requeue-callbacks now expired _ (Apart-insert _ a expired m.timers p.1 p.2)
          ∙ callbacks_agree m.store _ expired
              (λ b i. update_other m.store a b _ (λ e. p.1 (subst (λ x. In x expired) e i)))))
  | inr once ↦ rw once (ap (λ t. (m.store a).cb ∷ t) (requeue-callbacks now expired m p.2))
]

All-append-split : (P : ℕ → Type 0) (xs ys : List ℕ) → All P (xs ++ ys) → All P xs × All P ys
All-append-split P [] ys h = (tt, h)
All-append-split P (x ∷ xs) ys h = let (p, q) = All-append-split P xs ys h.1 in ((h.0, p), q)

not-In_behind : (s : ℕ → Timer) (x : ℕ) (ys : List ℕ) → All (λ y. less s x y ≡ true) ys → ¬ In x ys
not-In_behind s x ys h i =
    let p : less s x x ≡ true = All-In (λ y. less s x y ≡ true) ys x h i in cc (less_irrefl s x)

split-Apart :
    (s : ℕ → Timer) (xs ys : List ℕ) → IsOrdered s (xs ++ ys) → Apart xs ys × IsOrdered s ys
split-Apart s [] ys h = (tt, h)
split-Apart s (x ∷ xs) ys h =
    let (p, q) = All-append-split (λ y. less s x y ≡ true) xs ys h.0 in
    let (apart, ordered) = split-Apart s xs ys h.1 in
    ((not-In_behind s x ys q, not-In_behind s x xs p, apart), ordered)

taken-Apart :
    (cur now : ℕ) (m : TimerManager)
    → IsKept m
    → Apart (take_expired cur now m).1 (take_expired cur now m).0.timers
      × IsKept (take_expired cur now m).0
unfolding take_expired
taken-Apart cur now m h =
    split-Apart m.store _ _ (subst (IsOrdered m.store) (sym (set_split-append _ cur m.timers)) h)

-- What a call with the mark `cur` at the time `now` makes of `m`: the timers of the set are those that it takes,
-- which are all due, and behind them those that are left, which are not.
pub record Expired (cur now : ℕ) (m m' : TimerManager) (callbacks : List (Option Callback))
    : Type 0 where
  pub taken : List ℕ
  pub left : List ℕ
  pub whole : taken ++ left ≡ m.timers
  pub due : All (Due cur now m.store) taken
  pub not_due : All (λ a. ¬ Due cur now m.store a) left
  pub callbacks_of : callbacks ≡ map (λ a. (m.store a).cb) taken
  pub ordered : IsKept m'
  pub renews : All (λ a. m'.store a ≡ renewed now (m.store a)) taken
  pub others : (a : ℕ) → ¬ In a taken → m'.store a ≡ m.store a
  pub only : (a : ℕ) → In a m'.timers → In a left ⊎ (In a taken × ((m.store a).recurring ≡ true))
  pub back : (a : ℕ) → In a left ⊎ (In a taken × ((m.store a).recurring ≡ true)) → In a m'.timers

-- `listExpiredCb` takes just the timers of the set that are due, hands out their callbacks in the order of the
-- set, makes the recurring ones due again their interval after `now`, and changes no other timer; the set is in order
-- and has just the timers that were left and the recurring ones that were taken. The mark's address `cur` is no
-- timer of the set.
pub list_expired_cb_lem :
    (cur now : ℕ) (m : TimerManager)
    → IsKept m
    → ¬ In cur m.timers
    → Expired cur now m (list_expired_cb cur now m).0 (list_expired_cb cur now m).1
unfolding list_expired_cb take_expired
list_expired_cb_lem cur now m h out =
    let (apart, kept) = taken-Apart cur now m h in
    let (whole, due, not_due) = take_expired-Due cur now m h out in
    let r = take_expired cur now m in
    record {
      taken = r.1;
      left = r.0.timers;
      whole = whole;
      due = due;
      not_due = not_due;
      callbacks_of = requeue-callbacks now r.1 r.0 apart;
      ordered = requeue-IsKept now r.1 r.0 apart kept;
      renews = requeue-renewed now r.1 r.0 apart;
      others = requeue-others now r.1 r.0;
      only = λ a. requeue-In now r.1 r.0 a apart;
      back = λ a. In-requeue now r.1 r.0 a apart;
    }
