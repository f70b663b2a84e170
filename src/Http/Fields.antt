-- ===== src/Http/Fields.antt =====
-- `MapType` of saturn/http/http.h: `std::map` of strings under `CaseInsensitiveLess`, and the functions on
-- it that headers, parameters and cookies share in saturn/http/http.cc.
use Prim.Native.Nat.{Ordering}
use saturn.Base.{ℕ, Bool, true, false, Option, none, some, List, [], ◌∷◌, strcasecmp, if◌then◌else◌}

-- The pairs of a map, in its order.
abbrev pub MapType : Type 0
MapType = List (List ℕ × List ℕ)

-- `CaseInsensitiveLess::operator()`.
unfoldable pub less : List ℕ → List ℕ → Bool
less lhs rhs = elim (strcasecmp lhs rhs) [ Ordering.lt ↦ true | _ ↦ false ]

-- Neither key is less than the other: one key to the map.
unfoldable pub same_key : List ℕ → List ℕ → Bool
same_key j k = elim (strcasecmp j k) [ Ordering.eq ↦ true | _ ↦ false ]

-- `find`.
unfoldable pub find : List ℕ → MapType → Option (List ℕ)
find key [] = none
find key ((j, v) ∷ m) = if same_key key j then some v else find key m

-- `m[key] = val`: the value of an equal key is replaced, and its spelling stays.
unfoldable pub assign : List ℕ → List ℕ → MapType → MapType
assign key val [] = (key, val) ∷ []
assign key val ((j, v) ∷ m) = elim (strcasecmp key j) [
  | Ordering.lt ↦ (key, val) ∷ (j, v) ∷ m
  | Ordering.eq ↦ (j, val) ∷ m
  | Ordering.gt ↦ (j, v) ∷ assign key val m
]

-- `insert`, which leaves an equal key as it is.
unfoldable pub insert_new : List ℕ → List ℕ → MapType → MapType
insert_new key val m = elim (find key m) [ none ↦ assign key val m | some v ↦ m ]

-- `erase`.
unfoldable pub erase : List ℕ → MapType → MapType
erase key [] = []
erase key ((j, v) ∷ m) = if same_key key j then erase key m else (j, v) ∷ erase key m

-- `getHeader`, `getParam`, `getCookie`.
unfoldable pub get_field : MapType → List ℕ → List ℕ → List ℕ
get_field m key def = elim (find key m) [ none ↦ def | some v ↦ v ]

-- `hasHeader`, `hasParam`, `hasCookie`: the value is stored through `val` unless that is null, and what
-- `val` points to is returned.
unfoldable pub has_field : MapType → List ℕ → Option (List ℕ) → Bool × Option (List ℕ)
has_field m key val = elim (find key m) [
  | none ↦ (false, val)
  | some v ↦ (true, elim val [ none ↦ none | some old ↦ some v ])
]

-- `getAs`, where `cast` is `boost::lexical_cast`, which throws or returns.
unfoldable pub get_as {ℓ} : {T : Type ℓ} → (List ℕ → Option T) → MapType → List ℕ → T → T
get_as cast m key def = elim (find key m) [
  | none ↦ def
  | some v ↦ elim (cast v) [ none ↦ def | some t ↦ t ]
]

-- `checkGetAs`.
unfoldable pub check_get_as {ℓ} :
    {T : Type ℓ} → (List ℕ → Option T) → MapType → List ℕ → T → Bool × T
check_get_as cast m key def = elim (find key m) [
  | none ↦ (false, def)
  | some v ↦ elim (cast v) [ none ↦ (false, def) | some t ↦ (true, t) ]
]
