-- ===== src/FdManager/Entries.antt =====
-- The table of saturn/fdmanager.cc: how it grows, and what it holds after each call.
use saturn.Base.{
  ℕ, zero, suc, ◌+◌, ◌*◌, ◌^◌, ◌≤◌, ◌<◌, ◌≡◌, refl, sym, ap, ◌∙◌, ◌⊎◌, inl, inr, Bool, true, false,
  not, Option, none, some, [], ◌∷◌, ◌++◌, length, length-append, set, replicate, leb, ◌==◌, ==_iff,
  if◌then◌else◌, arith, Bool-cases, leb→le, lt→leb, leb→lt,
}
use saturn.FdManager.{FdContext, Datas, enlarge, create, entry_at, get, del, new_context}

length-replicate : (n : ℕ) → length {A = Option FdContext} (replicate n none) ≡ n
length-replicate zero = refl
length-replicate (suc n) = omega (arith, length-replicate n)

-- What an enlarged table holds is what it held, and null behind that.
entry_at-replicate : (n j : ℕ) → entry_at (replicate n none) j ≡ none
entry_at-replicate zero j = refl
entry_at-replicate (suc n) zero = refl
entry_at-replicate (suc n) (suc j) = entry_at-replicate n j

entry_at-append : (ds : Datas) (n j : ℕ) → entry_at (ds ++ replicate n none) j ≡ entry_at ds j
entry_at-append [] n j = entry_at-replicate n j
entry_at-append (d ∷ ds) n zero = refl
entry_at-append (d ∷ ds) n (suc j) = entry_at-append ds n j

entry_at-enlarge :
    (fuel fd : ℕ) (ds : Datas) (j : ℕ) → entry_at (enlarge fuel fd ds) j ≡ entry_at ds j
unfolding enlarge
entry_at-enlarge zero fd ds j = refl
entry_at-enlarge (suc fuel) fd ds j = elim (Bool-cases (leb (length ds) fd)) [
  | inr e ↦ rw (e, enlarge) refl
  | inl e ↦
      rw (e, enlarge)
        (entry_at-enlarge fuel fd (ds ++ replicate (length ds) none) j
          ∙ entry_at-append ds (length ds) j)
]

length-doubled :
    (ds : Datas)
    → length (ds ++ replicate {A = Option FdContext} (length ds) none) ≡ length ds + length ds
length-doubled ds =
    length-append ds (replicate (length ds) none)
    ∙ ap (λ n. length ds + n) (length-replicate (length ds))

-- How far the table has come after one doubling and the rounds behind it.
doubled_once :
    (fuel fd : ℕ) (ds : Datas)
    → fd < length ds + suc fuel
    → length ds ≤ fd
    → (fd < length (enlarge fuel fd (ds ++ replicate (length ds) none)))
      × (length (ds ++ replicate (length ds) none)
          ≤ length (enlarge fuel fd (ds ++ replicate (length ds) none)))
      × ((length (enlarge fuel fd (ds ++ replicate (length ds) none))
            ≡ length (ds ++ replicate (length ds) none))
          ⊎ (length (enlarge fuel fd (ds ++ replicate (length ds) none)) ≤ 2 * fd))
    → (fd < length (enlarge fuel fd (ds ++ replicate (length ds) none)))
      × (length ds ≤ length (enlarge fuel fd (ds ++ replicate (length ds) none)))
      × ((length (enlarge fuel fd (ds ++ replicate (length ds) none)) ≡ length ds)
          ⊎ (length (enlarge fuel fd (ds ++ replicate (length ds) none)) ≤ 2 * fd))
doubled_once fuel fd ds h small (reaches, grows, inl same) = (
  reaches,
  omega (arith, length-doubled ds, grows),
  inr (omega (arith, length-doubled ds, same, small)),
)
doubled_once fuel fd ds h small (reaches, grows, inr b) =
    (reaches, omega (arith, length-doubled ds, grows), inr b)

-- The loop that doubles the table ends: from a table that is not empty, `fd + 1` rounds are enough for the
-- table to reach `fd`. It only grows, and not past twice `fd`.
pub length-enlarge :
    (fuel fd : ℕ) (ds : Datas)
    → 0 < length ds
    → fd < length ds + fuel
    → (fd < length (enlarge fuel fd ds))
      × (length ds ≤ length (enlarge fuel fd ds))
      × ((length (enlarge fuel fd ds) ≡ length ds) ⊎ (length (enlarge fuel fd ds) ≤ 2 * fd))
unfolding enlarge
length-enlarge zero fd ds p h = (omega (arith, h), omega arith, inl refl)
length-enlarge (suc fuel) fd ds p h = elim (Bool-cases (leb (length ds) fd)) [
  | inr e ↦ rw (e, enlarge) (leb→lt (length ds) fd e, omega arith, inl refl)
  | inl e ↦
      rw (e, enlarge)
        (doubled_once fuel fd ds h (leb→le (length ds) fd e) (
          length-enlarge fuel fd (ds ++ replicate (length ds) none)
            (omega (arith, length-doubled ds, p)) (omega (arith, length-doubled ds, p, h))))
]

same_if : (j : ℕ) (a b : Option FdContext) → (if 0 == suc j then a else b) ≡ b
same_if j a b = rw (apart_suc j) refl
  where
    apart_suc : (j : ℕ) → (0 == suc j) ≡ false
    apart_suc j = ground arith

pub entry_at-set :
    (ds : Datas) (i : ℕ) (v : Option FdContext) (j : ℕ)
    → i < length ds
    → entry_at (set ds i v) j ≡ (if i == j then v else entry_at ds j)
entry_at-set [] i v j h = absurd (omega arith)
entry_at-set (d ∷ ds) zero v zero h = refl
entry_at-set (d ∷ ds) zero v (suc j) h = sym (same_if j v (entry_at ds j))
entry_at-set (d ∷ ds) (suc i) v zero h = sym (rw (suc_apart i) refl)
  where
    suc_apart : (i : ℕ) → (suc i == 0) ≡ false
    suc_apart i = ground arith
entry_at-set (d ∷ ds) (suc i) v (suc j) h =
    entry_at-set ds i v j (omega (arith, h)) ∙ rw (shift i j) refl
  where
    shift : (i j : ℕ) → (suc i == suc j) ≡ (i == j)
    shift i j = ground arith

pub entry_at-past : (ds : Datas) (j : ℕ) → length ds ≤ j → entry_at ds j ≡ none
entry_at-past [] j h = refl
entry_at-past (d ∷ ds) zero h = absurd (omega (arith, h))
entry_at-past (d ∷ ds) (suc j) h = entry_at-past ds j (omega (arith, h))

-- An entry that is written over with itself.
kept :
    (ds : Datas) (fd j : ℕ) (v : Option FdContext)
    → entry_at ds fd ≡ v
    → entry_at ds j ≡ (if fd == j then v else entry_at ds j)
kept ds fd j v e = elim (Bool-cases (fd == j)) [
  | inl h ↦ rw h (sym (ap (entry_at ds) ((==_iff fd j).0 h)) ∙ e)
  | inr h ↦ rw h refl
]

entry_at-create :
    (fstat : ℕ → Option Bool) (fd : ℕ) (ds : Datas) (j : ℕ)
    → 0 < length ds
    → entry_at (create fstat fd ds).0 j
      ≡ (if fd == j then some (new_context fstat fd) else entry_at ds j)
unfolding create
entry_at-create fstat fd ds j p =
    entry_at-set (enlarge (suc fd) fd ds) fd (some (new_context fstat fd)) j
      (length-enlarge (suc fd) fd ds p (omega arith)).0
    ∙ ap (λ o. if fd == j then some (new_context fstat fd) else o)
        (entry_at-enlarge (suc fd) fd ds j)

-- What a call has done: what it returns, and every entry behind it.
abbrev pub Got : (ℕ → Option Bool) → ℕ → Bool → Datas → Datas × Option FdContext → Type 0
Got fstat fd auto_create ds r =
    (r.1 ≡ elim (entry_at ds fd) [
      | some c ↦ some c
      | none ↦ if auto_create then some (new_context fstat fd) else none
    ])
    × ((j : ℕ) → entry_at r.0 j ≡ (if fd == j then r.1 else entry_at ds j))

created :
    (fstat : ℕ → Option Bool) (fd : ℕ) (auto_create : Bool) (ds : Datas)
    → 0 < length ds
    → entry_at ds fd ≡ none
    → Got fstat fd auto_create ds (if not auto_create then (ds, none) else create fstat fd ds)
unfolding create
created fstat fd true ds p e = (rw e refl, λ j. entry_at-create fstat fd ds j p)
created fstat fd false ds p e = (rw e refl, λ j. kept ds fd j none e)

looked_up :
    (fstat : ℕ → Option Bool) (fd : ℕ) (auto_create : Bool) (ds : Datas)
    → 0 < length ds
    → (o : Option FdContext) → entry_at ds fd ≡ o
    → Got fstat fd auto_create ds (elim o [
      | some c ↦ (ds, some c)
      | none ↦ if not auto_create then (ds, none) else create fstat fd ds
    ])
looked_up fstat fd auto_create ds p none e = created fstat fd auto_create ds p e
looked_up fstat fd auto_create ds p (some c) e = (rw e refl, λ j. kept ds fd j (some c) e)

-- `get` finds the context of a descriptor that has one, and otherwise makes one if it is asked to and
-- returns null if not; the context returned is the descriptor's from then on, and every other descriptor
-- keeps what it has. The table is not empty, and the descriptor is not negative.
pub get-Got :
    (fstat : ℕ → Option Bool) (fd : ℕ) (auto_create : Bool) (ds : Datas)
    → 0 < length ds
    → fd < 2 ^ 31
    → Got fstat fd auto_create ds (get fstat fd auto_create ds)
unfolding get
get-Got fstat fd auto_create ds p h =
    rw (lt→leb (2 ^ 31) fd h) (elim (Bool-cases (leb (length ds) fd)) [
      | inl e ↦
          rw e (created fstat fd auto_create ds p (entry_at-past ds fd (leb→le (length ds) fd e)))
      | inr e ↦ rw e (looked_up fstat fd auto_create ds p (entry_at ds fd) refl)
    ])

-- After `del` the descriptor has no context, and every other one keeps what it has.
pub entry_at-del :
    (fd : ℕ) (ds : Datas) (j : ℕ)
    → entry_at (del fd ds) j ≡ (if fd == j then none else entry_at ds j)
unfolding del
entry_at-del fd ds j = elim (Bool-cases (leb (length ds) fd)) [
  | inl e ↦ rw e (kept ds fd j none (entry_at-past ds fd (leb→le (length ds) fd e)))
  | inr e ↦ rw e (entry_at-set ds fd none j (leb→lt (length ds) fd e))
]
