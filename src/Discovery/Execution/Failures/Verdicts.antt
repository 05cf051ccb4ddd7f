-- ===== src/Discovery/Execution/Failures/Verdicts.antt =====
-- What is stored for a device that was not discovered, against the verdict of the orchestrator and
-- against the totals of its run (backend/app/discovery/execution.py).
use network_operations_platf.Common.{
  ◌≡◌, ◌≢◌, ◌↔◌, ◌⊎◌, inl, inr, refl, sym, subst, Bool, true, false, String, Option, none, some,
  List, arith, Bool-cases, Option-cases, ◌∙◌,
}
use network_operations_platf.Discovery.Contracts.{DiscoveryFailureCode}
use network_operations_platf.Discovery.ResultStates.{
  DiscoveryResultState, unreachable, reachable_no_management, auth_rejected, partial_discovery,
  discovered, unverified, was_cancelled, interrupted,
}
use network_operations_platf.Discovery.MultiTransport.{
  TransportService, TransportAttemptConfig, TransportAttemptResult, MultiTransportDiscoveryResult,
  Recording, discover_with_fallback,
}
use network_operations_platf.Discovery.MultiTransport.Verdict.{verdict, result_state_lem}
use network_operations_platf.Discovery.Execution.Failures.{
  is_workflow_failure, workflow_failure, last_failure, reached_failure, failure_of,
  state_of_failure, stored_state,
}

-- The verdicts that a device keeps when its job fails.
pub is_kept : DiscoveryResultState → Bool
is_kept unreachable = true
is_kept reachable_no_management = true
is_kept auth_rejected = true
is_kept _ = false

-- No failure stands for anything else.
state_of_failure-is_kept : (c : DiscoveryFailureCode) → is_kept (state_of_failure c) ≡ true
unfolding is_kept state_of_failure
state_of_failure-is_kept c = ground arith

workflow_lem :
    (c : DiscoveryFailureCode)
    → is_workflow_failure c ≡ true
    → state_of_failure c ≡ reachable_no_management
unfolding is_workflow_failure state_of_failure
workflow_lem c h = ground (arith, h)

reached_lem :
    (last : Option TransportAttemptResult)
    → state_of_failure (reached_failure last).0 ≡ reachable_no_management
unfolding reached_failure
reached_lem none = unfold state_of_failure in refl
reached_lem (some attempt) =
    let nothing : state_of_failure DiscoveryFailureCode.transport_unavailable
        ≡ reachable_no_management =
      unfold state_of_failure in refl in
    elim (Option-cases attempt.failure_code) [
      | inl n ↦ unfold workflow_failure in ground (arith, n, nothing)
      | inr (c, n) ↦ elim (Bool-cases (is_workflow_failure c)) [
        | inl y ↦ unfold workflow_failure in ground (arith, n, y, workflow_lem c y)
        | inr z ↦ unfold workflow_failure in ground (arith, n, z, nothing)
      ]
    ]

stored_kept :
    (r : MultiTransportDiscoveryResult) (v : DiscoveryResultState)
    → r.result_state ≡ v
    → is_kept v ≡ true
    → stored_state r ≡ v
unfolding stored_state failure_of is_kept
stored_kept r unreachable e k = unfold state_of_failure in ground (arith, e)
stored_kept r reachable_no_management e k = ground (arith, e, reached_lem (last_failure r.attempts))
stored_kept r auth_rejected e k = unfold state_of_failure in ground (arith, e)
stored_kept r partial_discovery e k = ground (arith, k)
stored_kept r discovered e k = ground (arith, k)
stored_kept r unverified e k = ground (arith, k)
stored_kept r was_cancelled e k = ground (arith, k)
stored_kept r interrupted e k = ground (arith, k)

-- A device whose job fails keeps the verdict of the orchestrator exactly if the host was unreachable,
-- reachable without management, or rejected the credentials. Any other verdict, such as a partial
-- discovery or a host that could not be verified, is overwritten by one of these three.
pub stored_state_lem :
    (r : MultiTransportDiscoveryResult)
    → ((stored_state r ≡ r.result_state) ↔ (is_kept r.result_state ≡ true))
      × (is_kept (stored_state r) ≡ true)
unfolding stored_state
stored_state_lem r =
    let kept = state_of_failure-is_kept (failure_of r).0 in
    ((λ e. subst (λ z. is_kept z ≡ true) e kept, stored_kept r r.result_state refl), kept)

verdict_kept :
    (attempts : List TransportAttemptResult)
    → verdict attempts ≢ discovered
    → (verdict attempts ≡ unverified) ⊎ (is_kept (verdict attempts) ≡ true)
unfolding verdict is_kept
verdict_kept attempts n = ground (arith, n)

-- When the orchestrator has tried the transports of a host and has not discovered it, whatever the
-- probing, the order and the recording, the state that is stored for the device is the
-- orchestrator's verdict, except that a host that could not be verified is never stored as such.
pub fallback-stored_state :
    (redact : String → String) (should_probe allow_reorder : Bool)
    (probed : Option (List TransportService)) (rec : Recording) (address : String)
    (configs : List TransportAttemptConfig) (r : MultiTransportDiscoveryResult)
    → discover_with_fallback redact should_probe allow_reorder probed rec address configs ≡ r
    → r.result_state ≢ discovered
    → (stored_state r ≡ r.result_state)
      ⊎ ((r.result_state ≡ unverified) × (stored_state r ≢ unverified))
fallback-stored_state redact should_probe allow_reorder probed rec address configs r run n =
    let by_codes : r.result_state ≡ verdict r.attempts =
      subst (λ z. z.result_state ≡ verdict z.attempts) run
        (result_state_lem redact rec should_probe allow_reorder probed address configs) in
    let other : verdict r.attempts ≢ discovered = λ e. n (by_codes ∙ e) in
    elim (verdict_kept r.attempts other) [
      | inl u ↦ inr (
        by_codes ∙ u,
        λ e.
            let kept : is_kept unverified ≡ true =
              subst (λ z. is_kept z ≡ true) e (stored_state_lem r).1 in
            unfold is_kept in ground (arith, kept),
      )
      | inr k ↦ inl ((stored_state_lem r).0.1 (subst (λ z. is_kept z ≡ true) (sym by_codes) k))
    ]
