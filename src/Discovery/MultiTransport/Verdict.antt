-- ===== src/Discovery/MultiTransport/Verdict.antt =====
-- The verdict on a host (`discover_with_fallback` of backend/app/discovery/multi_transport.py)
-- against the failure codes of its attempts.
use network_operations_platf.Common.{
  ℕ, suc, ◌≡◌, refl, Bool, true, false, String, Option, none, some, List, [], ◌∷◌, any, all, not,
  ◌||◌, arith, if◌then◌else◌, is_none,
}
use network_operations_platf.Discovery.Contracts.{
  DiscoveryFailureCode, value, authentication_failed, transport_unavailable, host_unreachable,
  connection_timeout, timeout, discovery_timeout, connection_failed,
}
use network_operations_platf.Discovery.Contracts.Codes.{failure_code-value}
use network_operations_platf.Discovery.ResultStates.{
  DiscoveryResultState, unreachable, reachable_no_management, auth_rejected, discovered, unverified,
  from_failure_and_success, classify_code, classify_transport_failure,
}
use network_operations_platf.Discovery.MultiTransport.{
  code_text, TransportAttemptConfig, TransportAttemptResult, Recording, Progress, TransportService,
  execute_transport_attempt, run_attempts, start, on_failure, attempt_sequence,
  discover_with_fallback,
}
use network_operations_platf.Discovery.MultiTransport.Attempts.{
  tried, execute-IsRecorded, attempts_in_order,
}

-- The device rejected the credentials.
pub rejected : Option DiscoveryFailureCode → Bool
rejected (some authentication_failed) = true
rejected _ = false

-- The transport was not available to be tried.
pub untried : Option DiscoveryFailureCode → Bool
untried (some transport_unavailable) = true
untried _ = false

-- Nothing was heard from the host.
pub silent : Option DiscoveryFailureCode → Bool
silent (some host_unreachable) = true
silent (some connection_timeout) = true
silent (some timeout) = true
silent (some discovery_timeout) = true
silent (some connection_failed) = true
silent (some transport_unavailable) = true
silent _ = false

-- The verdict, by the codes alone.
unfoldable pub verdict : List TransportAttemptResult → DiscoveryResultState
verdict attempts =
    if any (λ r. r.success) attempts
    then discovered
    else if any (λ r. rejected r.failure_code) attempts
    then auth_rejected
    else if any (λ r. untried r.failure_code) attempts
    then unverified
    else if all (λ r. silent r.failure_code) attempts
    then unreachable
    else reachable_no_management

classify-value :
    (c : DiscoveryFailureCode) → classify_transport_failure (some (value c)) ≡ classify_code c
unfolding classify_transport_failure
classify-value c = rw (failure_code-value c, classify_transport_failure)

classify_value :
    (c : Option DiscoveryFailureCode)
    → let i = classify_transport_failure (code_text c) in
      (i.auth_failed ≡ rejected c)
      × (i.transport_unavailable ≡ untried c)
      × (i.host_reachable ≡ not (silent c))
unfolding rejected untried silent code_text classify_code
classify_value none = unfold classify_transport_failure in (refl, refl, refl)
classify_value (some c) = rw (classify-value c) (ground arith, ground arith, ground arith)

silent-none : (c : Option DiscoveryFailureCode) → is_none c ≡ true → silent c ≡ false
unfolding silent
silent-none none h = refl
silent-none (some c) h = cc

module _ (redact : String → String) (rec : Recording) where
  run-discovered :
      (n : ℕ) (configs : List TransportAttemptConfig) (p : Progress)
      → (run_attempts redact rec n configs p).is_fully_discovered
        ≡ (p.is_fully_discovered || any (λ r. r.success) (tried redact n configs))
  unfolding run_attempts tried
  run-discovered n [] p = ground arith
  run-discovered n (config ∷ rest) p =
      let r = execute_transport_attempt redact config n in
      ground (arith, run-discovered (suc n) rest (on_failure redact rec p config n r))

  run-auth_failed :
      (n : ℕ) (configs : List TransportAttemptConfig) (p : Progress)
      → (run_attempts redact rec n configs p).any_auth_failed
        ≡ (p.any_auth_failed || any (λ r. rejected r.failure_code) (tried redact n configs))
  unfolding run_attempts tried rejected
  run-auth_failed n [] p = ground arith
  run-auth_failed n (config ∷ rest) p =
      let r = execute_transport_attempt redact config n in
      ground (
        arith,
        run-auth_failed (suc n) rest (on_failure redact rec p config n r),
        classify_value r.failure_code,
        (execute-IsRecorded redact config n).coded,
      )

  run-transport_unavailable :
      (n : ℕ) (configs : List TransportAttemptConfig) (p : Progress)
      → (run_attempts redact rec n configs p).any_transport_unavailable ≡ (
          p.any_transport_unavailable || any (λ r. untried r.failure_code) (tried redact n configs))
  unfolding run_attempts tried untried
  run-transport_unavailable n [] p = ground arith
  run-transport_unavailable n (config ∷ rest) p =
      let r = execute_transport_attempt redact config n in
      ground (
        arith,
        run-transport_unavailable (suc n) rest (on_failure redact rec p config n r),
        classify_value r.failure_code,
        (execute-IsRecorded redact config n).coded,
      )

  run-host_reachable :
      (n : ℕ) (configs : List TransportAttemptConfig) (p : Progress)
      → (run_attempts redact rec n configs p).host_is_reachable
        ≡ (p.host_is_reachable || not (all (λ r. silent r.failure_code) (tried redact n configs)))
  unfolding run_attempts tried
  run-host_reachable n [] p = ground arith
  run-host_reachable n (config ∷ rest) p =
      let r = execute_transport_attempt redact config n in
      ground (
        arith,
        run-host_reachable (suc n) rest (on_failure redact rec p config n r),
        classify_value r.failure_code,
        silent-none r.failure_code,
        (execute-IsRecorded redact config n).coded,
      )

  -- The verdict on a host depends only on its attempts: discovered if one succeeded; else
  -- authentication failed as soon as one was rejected, however the others failed; else unverified if a
  -- transport was unavailable; else
  -- unreachable if every failure is one without an answer from the host; else reachable without
  -- management.
  pub result_state_lem :
      (should_probe allow_reorder : Bool) (probed : Option (List TransportService))
      (address : String) (configs : List TransportAttemptConfig)
      → let r =
          discover_with_fallback redact should_probe allow_reorder probed rec address configs in
        r.result_state ≡ verdict r.attempts
  unfolding discover_with_fallback from_failure_and_success verdict
  result_state_lem should_probe allow_reorder probed address configs =
      let sequence = attempt_sequence should_probe allow_reorder probed configs in
      ground (
        arith,
        attempts_in_order redact rec should_probe allow_reorder probed address configs,
        run-discovered 1 sequence start,
        run-auth_failed 1 sequence start,
        run-transport_unavailable 1 sequence start,
        run-host_reachable 1 sequence start,
      )
