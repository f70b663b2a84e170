-- ===== src/Servlet/Routes.antt =====
-- Which servlet a path finds, in saturn/http/servlet.cc.
use saturn.Base.{
  ℕ, ◌≡◌, refl, sym, ap, ◌∙◌, inl, inr, Bool, true, false, Option, none, some, List, [], ◌∷◌, ◌++◌,
  c_str, equal, equal_iff, if◌then◌else◌, arith, Bool-cases,
}
use saturn.Servlet.{
  Servlet, Entries, ServletDispatch, find_entry, assign_entry, erase_entry, find_glob, add_servlet,
  add_glob_servlet, del_servlet, del_glob_servlet, get_servlet, get_glob_servlet,
  get_matched_servlet,
}

-- No path stands twice in a table.
abbrev pub Distinct : Entries → Type 0
Distinct [] = Unit {0}
Distinct ((u, s) ∷ es) = (find_entry u es ≡ none) × Distinct es

pub find_entry-assign_entry :
    (j uri : List ℕ) (slt : Option Servlet) (es : Entries)
    → find_entry j (assign_entry uri slt es) ≡ (if equal uri j then some slt else find_entry j es)
unfolding find_entry assign_entry
find_entry-assign_entry j uri slt [] = refl
find_entry-assign_entry j uri slt ((u, s) ∷ es) =
    ground
      (arith, equal_iff u uri, equal_iff uri j, equal_iff u j, find_entry-assign_entry j uri slt es)

pub find_entry-erase_entry :
    (j uri : List ℕ) (es : Entries)
    → Distinct es
    → find_entry j (erase_entry uri es) ≡ (if equal uri j then none else find_entry j es)
unfolding find_entry erase_entry
find_entry-erase_entry j uri [] h = ground arith
find_entry-erase_entry j uri ((u, s) ∷ es) h =
    ground (arith, equal_iff u uri, equal_iff uri j, equal_iff u j, find_entry-erase_entry j uri es)

pub erase_entry-Distinct :
    (uri : List ℕ) (es : Entries) → Distinct es → Distinct (erase_entry uri es)
unfolding erase_entry
erase_entry-Distinct uri [] h = tt
erase_entry-Distinct uri ((u, s) ∷ es) h = elim (Bool-cases (equal u uri)) [
  | inl e ↦ rw e h.1
  | inr e ↦ rw e (
    find_entry-erase_entry u uri es h.1 ∙ (rw h.0 (if_none (equal uri u))),
    erase_entry-Distinct uri es h.1,
  )
]
  where
    if_none : (b : Bool) → ◌≡◌ {A = Option (Option Servlet)} (if b then none else none) none
    if_none true = refl
    if_none false = refl

find_entry-append :
    (j uri : List ℕ) (slt : Option Servlet) (es : Entries)
    → find_entry j (es ++ (uri, slt) ∷ [])
      ≡ elim (find_entry j es) [ some s ↦ some s | none ↦ if equal uri j then some slt else none ]
unfolding find_entry
find_entry-append j uri slt [] = refl
find_entry-append j uri slt ((u, s) ∷ es) = elim (Bool-cases (equal u j)) [
  | inl e ↦ rw e refl
  | inr e ↦ rw e (find_entry-append j uri slt es)
]

find_glob-append :
    (fnmatch : List ℕ → List ℕ → Bool) (path uri : List ℕ) (slt : Option Servlet) (es : Entries)
    → find_glob fnmatch path (es ++ (uri, slt) ∷ []) ≡ elim (find_glob fnmatch path es) [
      | some s ↦ some s
      | none ↦ if fnmatch (c_str uri) (c_str path) then some slt else none
    ]
unfolding find_glob
find_glob-append fnmatch path uri slt [] = refl
find_glob-append fnmatch path uri slt ((u, s) ∷ es) =
    elim (Bool-cases (fnmatch (c_str u) (c_str path))) [
      | inl e ↦ rw e refl
      | inr e ↦ rw e (find_glob-append fnmatch path uri slt es)
    ]

-- A table in which no path stands twice.
pub record IsValid (d : ServletDispatch) : Type 0 where
  pub datas_distinct : Distinct d.datas
  pub globs_distinct : Distinct d.globs

assign_entry-Distinct :
    (uri : List ℕ) (slt : Option Servlet) (es : Entries)
    → Distinct es
    → Distinct (assign_entry uri slt es)
unfolding assign_entry find_entry
assign_entry-Distinct uri slt [] h = (refl, tt)
assign_entry-Distinct uri slt ((u, s) ∷ es) h = elim (Bool-cases (equal u uri)) [
  | inl e ↦ rw e h
  | inr e ↦ rw e (
    find_entry-assign_entry u uri slt es ∙ ground (arith, equal_iff u uri, equal_iff uri u, h.0),
    assign_entry-Distinct uri slt es h.1,
  )
]

equal_sym : (u v : List ℕ) → equal u v ≡ false → equal v u ≡ false
equal_sym u v e = ground (arith, equal_iff u v, equal_iff v u)

find_hit :
    (j u : List ℕ) (s : Option Servlet) (es : Entries)
    → equal u j ≡ true
    → find_entry j ((u, s) ∷ es) ≡ some s
unfolding find_entry
find_hit j u s es e = rw (e, find_entry) refl

find_miss :
    (j u : List ℕ) (s : Option Servlet) (es : Entries)
    → equal u j ≡ false
    → find_entry j ((u, s) ∷ es) ≡ find_entry j es
unfolding find_entry
find_miss j u s es e = rw (e, find_entry) refl

append-Distinct :
    (uri : List ℕ) (slt : Option Servlet) (es : Entries)
    → find_entry uri es ≡ none
    → Distinct es
    → Distinct (es ++ (uri, slt) ∷ [])
unfolding find_entry
append-Distinct uri slt [] n h = (refl, tt)
append-Distinct uri slt ((u, s) ∷ es) n h = elim (Bool-cases (equal u uri)) [
  | inl e ↦ absurd (cc (sym (find_hit uri u s es e) ∙ n))
  | inr e ↦ (
    find_entry-append u uri slt es ∙ rw h.0 (if_false (equal uri u) (equal_sym u uri e)),
    append-Distinct uri slt es (sym (find_miss uri u s es e) ∙ n) h.1,
  )
]
  where
    if_false :
        (b : Bool)
        → b ≡ false
        → ◌≡◌ {A = Option (Option Servlet)} (if b then some slt else none) none
    if_false true e = absurd cc
    if_false false e = refl

-- One call of a function that changes the tables.
pub data Step : ServletDispatch → ServletDispatch → Type 0 where
  added :
      (uri : List ℕ) (slt : Option Servlet) (d : ServletDispatch) → Step d (add_servlet uri slt d)
  added_glob :
      (uri : List ℕ) (slt : Option Servlet) (d : ServletDispatch)
      → Step d (add_glob_servlet uri slt d)
  deleted : (uri : List ℕ) (d : ServletDispatch) → Step d (del_servlet uri d)
  deleted_glob : (uri : List ℕ) (d : ServletDispatch) → Step d (del_glob_servlet uri d)

-- Each call leaves no path twice in either table.
pub Step-IsValid : (d e : ServletDispatch) → Step d e → IsValid d → IsValid e
unfolding add_servlet add_glob_servlet del_servlet del_glob_servlet
Step-IsValid _ _ (added uri slt d) v = record {
  datas_distinct = assign_entry-Distinct uri slt d.datas v.datas_distinct;
  globs_distinct = v.globs_distinct;
}
Step-IsValid _ _ (added_glob uri slt d) v = record {
  datas_distinct = v.datas_distinct;
  globs_distinct =
      append-Distinct uri slt (erase_entry uri d.globs)
        (find_entry-erase_entry uri uri d.globs v.globs_distinct
          ∙ rw ((equal_iff uri uri).1 refl) refl)
        (erase_entry-Distinct uri d.globs v.globs_distinct);
}
Step-IsValid _ _ (deleted uri d) v = record {
  datas_distinct = erase_entry-Distinct uri d.datas v.datas_distinct;
  globs_distinct = v.globs_distinct;
}
Step-IsValid _ _ (deleted_glob uri d) v = record {
  datas_distinct = v.datas_distinct;
  globs_distinct = erase_entry-Distinct uri d.globs v.globs_distinct;
}

-- A servlet of a path itself serves that path before every pattern, the last one given for it, and every
-- other path is served as before.
pub get_matched_servlet-add_servlet :
    (fnmatch : List ℕ → List ℕ → Bool) (path uri : List ℕ) (slt : Option Servlet)
    (d : ServletDispatch)
    → get_matched_servlet fnmatch path (add_servlet uri slt d)
      ≡ (if equal uri path then slt else get_matched_servlet fnmatch path d)
unfolding get_matched_servlet add_servlet
get_matched_servlet-add_servlet fnmatch path uri slt d =
    ap
      (λ (r : Option (Option Servlet)). elim r [
        | some s ↦ s
        | none ↦ elim (find_glob fnmatch path d.globs) [ some s ↦ s | none ↦ d.default ]
      ])
      (find_entry-assign_entry path uri slt d.datas)
    ∙ split (equal uri path)
  where
    split :
        (b : Bool)
        → elim (if b then some slt else find_entry path d.datas) [
          | some s ↦ s
          | none ↦ elim (find_glob fnmatch path d.globs) [ some s ↦ s | none ↦ d.default ]
        ]
          ≡ (if b then slt else get_matched_servlet fnmatch path d)
    split true = refl
    split false = refl

-- A pattern that is given comes behind all the others, and an older servlet of the same pattern is
-- forgotten: a path that has no servlet of its own is served by the first of the other patterns that
-- matches, or else by the new one if that matches, or else by the default.
pub get_matched_servlet-add_glob_servlet :
    (fnmatch : List ℕ → List ℕ → Bool) (path uri : List ℕ) (slt : Option Servlet)
    (d : ServletDispatch)
    → find_entry path d.datas ≡ none
    → get_matched_servlet fnmatch path (add_glob_servlet uri slt d)
      ≡ elim (find_glob fnmatch path (del_glob_servlet uri d).globs) [
        | some s ↦ s
        | none ↦ if fnmatch (c_str uri) (c_str path) then slt else d.default
      ]
unfolding get_matched_servlet add_glob_servlet del_glob_servlet
get_matched_servlet-add_glob_servlet fnmatch path uri slt d e =
    let gs = erase_entry uri d.globs in
    rw (e, get_matched_servlet)
      (ap served (find_glob-append fnmatch path uri slt gs)
        ∙ split (find_glob fnmatch path gs) (fnmatch (c_str uri) (c_str path)))
  where
    served : Option (Option Servlet) → Option Servlet
    served r = elim r [ some s ↦ s | none ↦ d.default ]

    one_more : Option (Option Servlet) → Bool → Option (Option Servlet)
    one_more r b = elim r [ some s ↦ some s | none ↦ if b then some slt else none ]

    split :
        (r : Option (Option Servlet)) (b : Bool)
        → served (one_more r b) ≡ elim r [ some s ↦ s | none ↦ if b then slt else d.default ]
    split (some s) b = refl
    split none true = refl
    split none false = refl

-- After a deletion the path or the pattern is not found, and all the others are found as before.
pub get_servlet-del_servlet :
    (j uri : List ℕ) (d : ServletDispatch)
    → IsValid d
    → (get_servlet j (del_servlet uri d) ≡ (if equal uri j then none else get_servlet j d))
      × (get_glob_servlet j (del_glob_servlet uri d)
          ≡ (if equal uri j then none else get_glob_servlet j d))
unfolding get_servlet del_servlet get_glob_servlet del_glob_servlet
get_servlet-del_servlet j uri d v = (
  ap found (find_entry-erase_entry j uri d.datas v.datas_distinct)
      ∙ split (equal uri j) (find_entry j d.datas),
  ap found (find_entry-erase_entry j uri d.globs v.globs_distinct)
      ∙ split (equal uri j) (find_entry j d.globs),
)
  where
    found : Option (Option Servlet) → Option Servlet
    found r = elim r [ none ↦ none | some s ↦ s ]

    split :
        (b : Bool) (r : Option (Option Servlet))
        → found (if b then none else r) ≡ (if b then none else found r)
    split true r = refl
    split false r = refl
