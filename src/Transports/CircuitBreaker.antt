-- ===== src/Transports/CircuitBreaker.antt =====
-- backend/app/transports/circuit_breaker.py. Instants and durations are microseconds; the clock
-- reading of a method is its argument `now`.
pub mod Laws
mod Examples
use network_operations_platf.Common.{
  ℕ, ◌+◌, Bool, true, false, Option, none, some, List, [], ◌∷◌, leb, if◌then◌else◌,
}

pub data CircuitBreakerState : Type 0 where
  closed open_ half_open : CircuitBreakerState

pub record CircuitBreaker : Type 0 where
  pub failure_threshold : ℕ
  pub recovery_timeout : ℕ
  pub half_open_success_threshold : ℕ
  pub state : CircuitBreakerState
  pub failure_count : ℕ
  pub half_open_success_count : ℕ
  pub opened_at : Option ℕ

-- A breaker as the dataclass builds it from its three settings.
pub fresh : ℕ → ℕ → ℕ → CircuitBreaker
fresh threshold timeout successes = record {
  failure_threshold = threshold;
  recovery_timeout = timeout;
  half_open_success_threshold = successes;
  state = closed;
  failure_count = 0;
  half_open_success_count = 0;
  opened_at = none;
}

-- `now - opened_at >= recovery_timeout`, with the subtraction moved to the other side.
recovered : ℕ → CircuitBreaker → Bool
recovered now b = elim b.opened_at [ none ↦ false | some t ↦ leb (t + b.recovery_timeout) now ]

allow_in : CircuitBreakerState → ℕ → CircuitBreaker → CircuitBreaker × Bool
unfolding recovered
allow_in closed now b = (b, true)
allow_in open_ now b =
    if recovered now b
    then (record b { state = half_open; half_open_success_count = 0 }, true)
    else (b, false)
allow_in half_open now b = (b, true)

pub allow_request : ℕ → CircuitBreaker → CircuitBreaker × Bool
unfolding allow_in
allow_request now b = allow_in b.state now b

success_in : CircuitBreakerState → CircuitBreaker → CircuitBreaker
success_in half_open b =
    let c = record b { half_open_success_count = b.half_open_success_count + 1 } in
    if leb c.half_open_success_threshold c.half_open_success_count
    then record c { state = closed; half_open_success_count = 0 }
    else c
success_in _ b = b

pub record_success : CircuitBreaker → CircuitBreaker
unfolding success_in
record_success b = success_in b.state (record b { failure_count = 0 })

pub record_failure : ℕ → CircuitBreaker → CircuitBreaker
record_failure now b =
    let c = record b { failure_count = b.failure_count + 1; half_open_success_count = 0 } in
    if leb c.failure_threshold c.failure_count
    then record c { state = open_; opened_at = some now }
    else c

-- The calls that a transport manager makes, in the order of their arrival.
pub data Call : Type 0 where
  allow : ℕ → Call
  success : Call
  failure : ℕ → Call

pub step : CircuitBreaker → Call → CircuitBreaker
unfolding allow_request record_success record_failure
step b (allow now) = (allow_request now b).0
step b success = record_success b
step b (failure now) = record_failure now b

pub run : CircuitBreaker → List Call → CircuitBreaker
run b [] = b
run b (c ∷ cs) = run (step b c) cs
