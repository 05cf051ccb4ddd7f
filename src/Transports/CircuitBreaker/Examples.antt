-- ===== src/Transports/CircuitBreaker/Examples.antt =====
-- Runs of the circuit breaker (backend/app/transports/circuit_breaker.py) at concrete inputs.
use network_operations_platf.Common.{
  ℕ, ◌≡◌, ◌≤◌, ◌<◌, ◌+◌, ◌++◌, suc, length, refl, arith, true, false, some, List, [], ◌∷◌, map,
  replicate, All,
}
use network_operations_platf.Transports.CircuitBreaker.{
  CircuitBreaker, closed, open_, half_open, fresh, run, step, Call, allow, success, failure,
  allow_request,
}
use network_operations_platf.Transports.CircuitBreaker.Laws.{
  IsSound, run-fresh-IsSound, trips_at_threshold, recovers,
}

abbrev calls : List Call
calls = failure 1 ∷ failure 2 ∷ allow 40 ∷ []

abbrev tripped : CircuitBreaker
tripped = record {
  failure_threshold = 2;
  recovery_timeout = 30;
  half_open_success_threshold = 1;
  state = open_;
  failure_count = 2;
  half_open_success_count = 0;
  opened_at = some 7;
}

abbrev healthy : CircuitBreaker
healthy = record tripped { state = closed; failure_count = 0 }

probing : (run (fresh 2 30 1) calls).state ≡ half_open
unfolding run step fresh
probing = refl

run-fresh-IsSound_example : IsSound (run (fresh 2 30 1) calls)
run-fresh-IsSound_example = run-fresh-IsSound 2 30 1 calls (omega arith) (omega arith)

trips_at_threshold_example :
    let c = run healthy (map failure ((3 ∷ []) ++ 7 ∷ [])) in
    (healthy.failure_count + suc (length {A = ℕ} (3 ∷ [])) < healthy.failure_threshold
      → All (λ now. allow_request now c ≡ (c, true)) (8 ∷ 36 ∷ []))
    × (healthy.failure_threshold ≤ healthy.failure_count + suc (length {A = ℕ} (3 ∷ []))
        → All (λ now. now < 7 + healthy.recovery_timeout) (8 ∷ 36 ∷ [])
        → (run c (map allow (8 ∷ 36 ∷ [])) ≡ c)
          × All (λ now. allow_request now c ≡ (c, false)) (8 ∷ 36 ∷ []))
trips_at_threshold_example = trips_at_threshold healthy (3 ∷ []) 7 (8 ∷ 36 ∷ []) refl

recovers_example :
    ((allow_request 40 tripped).1 ≡ true)
    × ((run tripped (allow 40 ∷ replicate 1 success)).state ≡ closed)
    × ((run tripped (allow 40 ∷ replicate 1 success)).failure_count ≡ 0)
recovers_example = recovers tripped 7 40 0 refl refl (omega arith) refl
