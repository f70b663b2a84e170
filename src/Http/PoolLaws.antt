-- ===== src/Http/PoolLaws.antt =====
-- What the pool of saturn/http/http_connection.cc keeps count of, and what it keeps.
use saturn.Base.{
  ℕ, suc, ◌+◌, ◌-◌, ◌^◌, ◌%◌, ◌<◌, ◌≡◌, subst, inl, inr, Bool, true, false, not, ◌||◌, Option, none,
  some, List, [], ◌∷◌, ◌++◌, All, All-append, length, length-append, ltb, leb, leb→lt,
  if◌then◌else◌, arith, Bool-cases,
}
use saturn.Http.Pool.{
  Connection, ConnectionPool, new_pool, new_connection, search, get_connection, release,
}

-- A pool that has given away so many connections: it counts these and those that it has, and each that it
-- has has served fewer requests than the limit.
pub record IsCounted (out : ℕ) (p : ConnectionPool) : Type 0 where
  pub total : p.total ≡ length p.conns + out
  pub fresh : All (λ (c : Connection). c.request < p.max_request) p.conns

-- The pools that come about, with how many connections each has given away: the calls in any order, at any
-- times, and whatever has become of the connections that come back.
pub data Reachable : ℕ → ConnectionPool → Type 0 where
  made : (max_alive_time max_request : ℕ) → Reachable 0 (new_pool max_alive_time max_request)
  given :
      (out now_ms : ℕ) (dials : Bool) (p q : ConnectionPool) (c : Connection)
      → Reachable out p
      → get_connection now_ms dials p ≡ (some c, q)
      → Reachable (suc out) q
  refused :
      (out now_ms : ℕ) (dials : Bool) (p q : ConnectionPool)
      → Reachable out p
      → get_connection now_ms dials p ≡ (none, q)
      → Reachable out q
  released :
      (out now_ms : ℕ) (c : Connection) (p : ConnectionPool)
      → Reachable (suc out) p
      → Reachable out (release now_ms c p)

-- What a search has found.
abbrev Searched : ℕ → List Connection → Option Connection × List Connection × ℕ → Type 0
Searched limit conns (none, rest, n) =
    (length conns ≡ length rest + n) × All (λ (c : Connection). c.request < limit) rest
Searched limit conns (some c, rest, n) =
    (length conns ≡ suc (length rest) + n) × All (λ (c : Connection). c.request < limit) rest

Searched-more :
    (limit : ℕ) (conn : Connection) (conns : List Connection)
    (r : Option Connection × List Connection × ℕ)
    → Searched limit conns r
    → Searched limit (conn ∷ conns) (r.0, r.1, suc r.2)
Searched-more limit conn conns (none, rest, n) (e, all) = (omega (arith, e), all)
Searched-more limit conn conns (some c, rest, n) (e, all) = (omega (arith, e), all)

search-Searched :
    (now_ms alive limit : ℕ) (conns : List Connection)
    → All (λ (c : Connection). c.request < limit) conns
    → Searched limit conns (search now_ms alive conns)
unfolding search
search-Searched now_ms alive limit [] h = (omega arith, tt)
search-Searched now_ms alive limit (conn ∷ conns) h =
    elim (Bool-cases (not conn.is_connected || ltb now_ms ((conn.create_time + alive) % 2 ^ 64))) [
      | inl e ↦
          rw (e, search)
            (Searched-more limit conn conns (search now_ms alive conns)
              (search-Searched now_ms alive limit conns h.1))
      | inr e ↦ rw (e, search) (omega arith, h.1)
    ]

-- What `getConnection` leaves, by whether it gives a connection.
abbrev Got : ℕ → Option Connection × ConnectionPool → Type 0
Got out (none, q) = IsCounted out q
Got out (some c, q) = IsCounted (suc out) q

get_connection-Got :
    (out now_ms : ℕ) (dials : Bool) (p : ConnectionPool)
    → IsCounted out p
    → Got out (get_connection now_ms dials p)
unfolding get_connection
get_connection-Got out now_ms dials p h =
    go dials (search now_ms p.max_alive_time p.conns)
      (search-Searched now_ms p.max_alive_time p.max_request p.conns h.fresh)
  where
    go :
        (dials : Bool) (r : Option Connection × List Connection × ℕ)
        → Searched p.max_request p.conns r
        → Got out (elim r.0 as (λ _. Option Connection × ConnectionPool) [
          | some conn ↦ (some conn, record p { conns = r.1; total = p.total - r.2 })
          | none ↦
              if dials
              then (some new_connection, record p { conns = r.1; total = suc (p.total - r.2) })
              else (none, record p { conns = r.1; total = p.total - r.2 })
        ])
    go dials (some c, rest, n) (e, all) = record { total = omega (arith, e, h.total); fresh = all }
    go true (none, rest, n) (e, all) = record { total = omega (arith, e, h.total); fresh = all }
    go false (none, rest, n) (e, all) = record { total = omega (arith, e, h.total); fresh = all }

or_right : (a b : Bool) → (a || b) ≡ false → b ≡ false
or_right false b e = e
or_right true b e = absurd cc

release-IsCounted :
    (out now_ms : ℕ) (c : Connection) (p : ConnectionPool)
    → IsCounted (suc out) p
    → IsCounted out (release now_ms c p)
unfolding release
release-IsCounted out now_ms c p h =
    let late = leb now_ms ((c.create_time + p.max_alive_time) % 2 ^ 64) in
    let used = leb p.max_request (suc c.request) in
    elim (Bool-cases (not c.is_connected || (late || used))) [
      | inl e ↦ rw (e, release) (record { total = omega (arith, h.total); fresh = h.fresh })
      | inr e ↦
          let few : suc c.request < p.max_request =
            leb→lt p.max_request (suc c.request)
              (or_right late used (or_right (not c.is_connected) (late || used) e)) in
          let again = record c { request = suc c.request } in
          let longer : length (p.conns ++ again ∷ []) ≡ length p.conns + 1 =
            length-append p.conns (again ∷ []) in
          rw (e, release)
            (record {
              total = omega (arith, h.total, longer);
              fresh =
                  All-append (λ (c : Connection). c.request < p.max_request) p.conns (again ∷ [])
                    h.fresh (few, tt);
            })
    ]

-- However the calls follow each other, the pool counts just the connections that it has and those that it has
-- given away, and each that it has has served fewer requests than the limit.
pub Reachable-IsCounted : (out : ℕ) (p : ConnectionPool) → Reachable out p → IsCounted out p
unfolding new_pool
Reachable-IsCounted _ _ (made alive limit) = record { total = omega arith; fresh = tt }
Reachable-IsCounted _ _ (given out now_ms dials p q c r e) =
    subst (Got out) e (get_connection-Got out now_ms dials p (Reachable-IsCounted out p r))
Reachable-IsCounted _ _ (refused out now_ms dials p q r e) =
    subst (Got out) e (get_connection-Got out now_ms dials p (Reachable-IsCounted out p r))
Reachable-IsCounted _ _ (released out now_ms c p r) =
    release-IsCounted out now_ms c p (Reachable-IsCounted (suc out) p r)
