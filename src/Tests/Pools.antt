-- ===== src/Tests/Pools.antt =====
-- The pool of saturn/http/http_connection.cc at concrete inputs.
use saturn.Base.{◌≡◌, refl, true, some, []}
use saturn.Http.Pool.{ConnectionPool, new_pool, new_connection, search, get_connection, release}
use saturn.Http.PoolLaws.{IsCounted, Reachable, made, given, released, Reachable-IsCounted}

abbrev one_out : ConnectionPool
one_out = record { max_alive_time = 10; max_request = 3; conns = []; total = 1 }

get_connection_run : get_connection 50 true (new_pool 10 3) ≡ (some new_connection, one_out)
unfolding get_connection search new_pool
get_connection_run = refl

one_out-Reachable : Reachable 1 one_out
one_out-Reachable =
    given 0 50 true (new_pool 10 3) one_out new_connection (made 10 3) get_connection_run

-- A connection that is not over its time is not kept.
release_run :
    release 50 (record new_connection { create_time = 45 }) one_out ≡ record one_out { total = 0 }
unfolding release
release_run = refl

Reachable-IsCounted_example : IsCounted 0 (release 60 new_connection one_out)
Reachable-IsCounted_example =
    Reachable-IsCounted 0 (release 60 new_connection one_out)
      (released 0 60 new_connection one_out one_out-Reachable)
