-- ===== src/Transports/ConnectionPool/Examples.antt =====
-- Pools of backend/app/transports/connection_pool.py at concrete inputs.
use network_operations_platf.Common.{◌≡◌, ◌<◌, refl, none, some, [], ◌∷◌, length, arith, eq_iff}
use mathlib.Core.Bool.{false≢true}
use network_operations_platf.Transports.ConnectionPool.{
  ConnectionPool, TransportSession, makes, ok, get_or_create, release, lookup, insert, reserve,
  store, create,
}
use network_operations_platf.Transports.ConnectionPool.Laws.{IsBounded, pool-IsBounded, overshoot}

abbrev session : TransportSession
session = record { session_id = "s"; opened_at = none; closed_at = none }

abbrev empty : ConnectionPool
empty = record { max_size = 1; sessions = [] }

abbrev opened : TransportSession
opened = record { session_id = "s"; opened_at = some 5; closed_at = none }

abbrev pooled : ConnectionPool
pooled = record { max_size = 1; sessions = ("a", opened) ∷ [] }

pooled_by_request : get_or_create 5 empty "a" (makes session) ≡ (pooled, ok opened)
unfolding get_or_create store lookup insert
pooled_by_request = refl

pool-IsBounded_example :
    IsBounded (get_or_create 5 empty "a" (makes session)).0 × IsBounded (release 5 empty "a").0
pool-IsBounded_example = pool-IsBounded 5 empty "a" (makes session) (omega arith)

overshoot_example :
    (reserve empty "a" ≡ create)
    × (reserve empty "b" ≡ create)
    × (1 < length (store (store empty "a" opened) "b" opened).sessions)
unfolding lookup
overshoot_example =
    overshoot empty "a" "b" opened opened refl refl refl (λ p. false≢true ((eq_iff "a" "b").1 p))
