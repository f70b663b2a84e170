-- ===== src/StringUtil/Trim.antt =====
-- `Trim`, `TrimLeft` and `TrimRight` of `StringUtil` in saturn/util.cc.
use saturn.Base.{
  ℕ, suc, ◌+◌, ◌-◌, Bool, false, not, ◌||◌, Option, none, some, List, [], ◌∷◌, take, drop, ◌==◌,
  if◌then◌else◌,
}

-- Whether a character is one of `delimit`.
unfoldable pub one_of : List ℕ → ℕ → Bool
one_of [] c = false
one_of (d ∷ ds) c = (c == d) || one_of ds c

-- `npos` is `none`.
unfoldable pub find_first_not_of : List ℕ → List ℕ → Option ℕ
find_first_not_of delimit [] = none
find_first_not_of delimit (c ∷ cs) =
    if not (one_of delimit c)
    then some 0
    else elim (find_first_not_of delimit cs) [ none ↦ none | some i ↦ some (suc i) ]

unfoldable pub find_last_not_of : List ℕ → List ℕ → Option ℕ
find_last_not_of delimit [] = none
find_last_not_of delimit (c ∷ cs) = elim (find_last_not_of delimit cs) [
  | some i ↦ some (suc i)
  | none ↦ if not (one_of delimit c) then some 0 else none
]

unfoldable pub trim : List ℕ → List ℕ → List ℕ
trim str delimit = elim (find_first_not_of delimit str) [
  | none ↦ []
  | some start ↦ elim (find_last_not_of delimit str) [
    | none ↦ drop start str
    | some end ↦ take (end - start + 1) (drop start str)
  ]
]

unfoldable pub trim_left : List ℕ → List ℕ → List ℕ
trim_left str delimit = elim (find_first_not_of delimit str) [
  | none ↦ []
  | some start ↦ drop start str
]

unfoldable pub trim_right : List ℕ → List ℕ → List ℕ
trim_right str delimit = elim (find_last_not_of delimit str) [
  | none ↦ []
  | some end ↦ take (end + 1) str
]
