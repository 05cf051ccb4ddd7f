-- ===== src/Discovery/Execution/Multi.antt =====
-- The multi-transport path of `execute` in backend/app/discovery/execution.py: `_build_transport_configs`,
-- `_record_unsupported_credential_attempt` and `_execute_multi_transport`. The collector of a transport,
-- with the outcome of its calls, is selected by the environment.
pub mod Moves
use network_operations_platf.Common.{
  ℕ, suc, Bool, true, false, String, Option, none, some, List, [], ◌∷◌, ◌++◌, any, first, str_eq,
  not, ◌==◌, ◌&&◌, ◌||◌, or_else, if◌then◌else◌,
}
use network_operations_platf.Discovery.Contracts.{
  DiscoveryFailureCode, unsupported_capability, unsupported_credential, value, telnet, http,
  capability_eq, succeeded, failed,
}
use network_operations_platf.Discovery.ResultStates.{
  DiscoveryResultState, discovered, is_discovered,
}
use network_operations_platf.Discovery.TransportPolicy.{TransportPolicyEntry, MultiTransportPolicy}
use network_operations_platf.Discovery.MultiTransport.{
  Fields, Collection, Validation, TransportAttemptConfig, AttemptRow, MultiTransportDiscoveryResult,
  discover_with_fallback,
}
use network_operations_platf.Persistence.Tables.{
  DiscoveryJobRecord, DeviceResult, of_job, TransportAttempt, Session, alone, commit, interleave,
}
use network_operations_platf.Persistence.Jobs.{
  Result, record_selection, transition, mark_failed_after_rollback,
}
use network_operations_platf.Persistence.Evidence.{
  on_others, start_attempt, finish_attempt, create_evidence,
}
use network_operations_platf.Discovery.Execution.Policy.{resolve_transport_policy}
use network_operations_platf.Discovery.Execution.Failures.{
  ExecutionError, cancellation_signal, lease_lost, execution_failure, raised, unclassified,
  failure_of,
}
use network_operations_platf.Discovery.Execution.Devices.{
  TargetView, Device, payload_string, is_result_of, upsert_result, record_device_result,
  ensure_device_result_for_failure, finalize_single_device_run,
}
use network_operations_platf.Discovery.Execution.Calls.{
  Done, returns, raises, and_next, Environment, outside, lift, raise_if_cancelled,
}
use network_operations_platf.Discovery.Execution.Single.{
  DiscoveryExecutionOutcome, build_evidence, success_change, closing,
}

-- The attempts of the orchestrator, as rows of the table; `ids` are fresh.
rows_of :
    (ℕ → ℕ) → ℕ → DiscoveryJobRecord → TargetView → ℕ → List AttemptRow → List TransportAttempt
rows_of ids now job target n [] = []
rows_of ids now job target n (a ∷ rest) =
    let later = rows_of ids now job target (suc n) rest in
    record {
      id = ids n;
      tenant_id = target.tenant_id;
      child_job_id = job.id;
      transport = a.transport;
      attempt_order = a.row_order;
      result = elim a.finished [ none ↦ "running" | some (result, _, _) ↦ result ];
      failure_code = elim a.finished [ none ↦ none | some (_, code, _) ↦ code ];
      failure_message = elim a.finished [ none ↦ none | some (_, _, message) ↦ message ];
      started_at = now;
      completed_at = elim a.finished [ none ↦ none | some _ ↦ some now ];
      duration_ms = elim a.finished [ none ↦ none | some _ ↦ some 0 ];
      correlation_id = job.correlation_id;
    }
    ∷ later

-- The configuration of a transport for which a collector was selected.
unfoldable pub with_config :
    TransportPolicyEntry
    → Option (Collection × Option (Fields → Validation))
    → Session × List TransportAttemptConfig
    → Session × List TransportAttemptConfig
with_config entry none skipped = skipped
with_config entry (some (collection, validate)) skipped = (
  skipped.0,
  record {
    transport_name = entry.transport_name;
    capability = entry.capability;
    is_insecure = entry.is_insecure;
    collection = collection;
    validate_payload = validate;
  }
      ∷ skipped.1,
)

module _ (env : Environment) (tenant_id : String) (parent_job_id : Option ℕ)
    (job : DiscoveryJobRecord) (target : TargetView) where
  -- `_record_unsupported_credential_attempt`
  unfoldable pub record_unsupported : ℕ → TransportPolicyEntry → Session → Session
  unfolding is_result_of start_attempt finish_attempt
  record_unsupported id entry s =
      let known = any (is_result_of target.tenant_id job.id) s.others.results in
      let tried =
        any (λ a. a.child_job_id == job.id && str_eq a.transport entry.transport_name)
          s.others.attempts in
      if not known || tried
      then s
      else finish_attempt env.now id "failed" (some (value unsupported_credential)) none (
          start_attempt env.now id target.tenant_id job.id entry.transport_name 0 job.correlation_id
            s)

  -- `_build_transport_configs`: what the loop leaves of the session, and the configurations.
  unfoldable pub build_transport_configs :
      MultiTransportPolicy
      → ℕ
      → List TransportPolicyEntry
      → Session
      → Session × List TransportAttemptConfig
  unfolding record_unsupported with_config
  build_transport_configs policy n [] s = (s, [])
  build_transport_configs policy n (entry ∷ rest) s =
      let skipped = build_transport_configs policy (suc n) rest s in
      let refused =
        build_transport_configs policy (suc n) rest
          (record_unsupported (env.unsupported_ids n) entry s) in
      if not entry.credential_compatible
      then refused
      else if capability_eq entry.capability telnet && not policy.allow_insecure
          || capability_eq entry.capability http && not policy.allow_insecure_http
      then skipped
      else with_config entry (env.select entry) skipped

  unfoldable pub check_again : ℕ → Session → Session × Done Unit
  unfolding raise_if_cancelled
  check_again n = raise_if_cancelled env n tenant_id job.id parent_job_id

  -- The commit of a success, and the state that is set after it.
  unfoldable pub succeeded_with :
      Option DiscoveryJobRecord → Session → Session × Done DiscoveryExecutionOutcome
  unfolding commit finalize_single_device_run upsert_result
  succeeded_with completed s = (
    upsert_result (or_else parent_job_id job.id) job target
        (λ r. record r { state = of_job succeeded })
        (commit (finalize_single_device_run env.now job.run_id discovered s)),
    returns (record { job = completed; executed = true; evidence_count = 1 }),
  )

  -- The end of the `try` block of section 6.
  unfoldable pub succeed : Session → Session × Done DiscoveryExecutionOutcome
  unfolding and_next lift transition success_change succeeded_with
  succeed s =
      and_next
        (lift env.text_of (transition alone env.now tenant_id job.id (success_change none) s))
        (λ completed next. succeeded_with completed next)

  -- The rest of it, from the committed evidence on.
  unfoldable pub process_discovered :
      MultiTransportDiscoveryResult → Fields → Session → Session × Done DiscoveryExecutionOutcome
  unfolding and_next check_again outside record_device_result succeed
  process_discovered r payload s = and_next (check_again 2 s) (λ _ s.
      and_next (outside (env.process payload) s) (λ device s. and_next (check_again 3 s) (λ _ s.
        and_next (outside env.add_live_snapshot s) (λ _ s.
          succeed (
            record_device_result env.now job target device r.selected_transport r.result_state
              s)))))

  -- The `try` block of section 6.
  unfoldable pub store_discovered :
      MultiTransportDiscoveryResult → Fields → Session → Session × Done DiscoveryExecutionOutcome
  unfolding and_next lift record_selection payload_string check_again create_evidence build_evidence
      process_discovered commit
  store_discovered r payload s =
      and_next
        (lift env.text_of (
          record_selection env.now tenant_id job.id r.selected_transport
            (payload_string env.str payload "platform_family" target.platform_family) s))
        (λ _ s. and_next (check_again 1 s) (λ _ s.
          and_next
            (lift env.text_of (
              create_evidence env.hash
                (build_evidence env job target (env.collector_of r.selected_transport) payload) s))
            (λ _ s. process_discovered r payload (commit s))))

  -- Section 7: the failure path. What it sets on the device result before the rollback is lost in it.
  unfoldable pub fail_transports :
      MultiTransportDiscoveryResult → Session → Session × Done DiscoveryExecutionOutcome
  unfolding and_next lift failure_of value mark_failed_after_rollback finalize_single_device_run
      ensure_device_result_for_failure closing
  fail_transports r s =
      let (code, message) = failure_of r in
      and_next
        (lift env.text_of
          (mark_failed_after_rollback alone env.now tenant_id job.id (value code) message none s))
        (λ job_failed next. closing 0 job_failed (
          ensure_device_result_for_failure env.now job target code message r.selected_transport
            (finalize_single_device_run env.now job.run_id r.result_state next)))

  -- After section 6: only cancellation and a lost lease get past it.
  unfoldable pub after_discovered :
      MultiTransportDiscoveryResult
      → Session × Done DiscoveryExecutionOutcome
      → Session × Done DiscoveryExecutionOutcome
  unfolding fail_transports
  after_discovered r (s, returns o) = (s, returns o)
  after_discovered r (s, raises cancellation_signal) = (s, raises cancellation_signal)
  after_discovered r (s, raises lease_lost) = (s, raises lease_lost)
  after_discovered r (s, raises e) = fail_transports r s

  unfoldable pub conclude_transports :
      MultiTransportDiscoveryResult → Session → Session × Done DiscoveryExecutionOutcome
  unfolding store_discovered after_discovered fail_transports
  conclude_transports r s =
      if is_discovered r.result_state
      then elim r.discovery_payload [
        | none ↦ fail_transports r s
        | some payload ↦ after_discovered r (store_discovered r payload s)
      ]
      else fail_transports r s

  -- What the orchestrator did: its attempts are committed, its verdict goes to the device result.
  unfoldable pub with_attempts : MultiTransportDiscoveryResult → Session → Session
  unfolding rows_of commit interleave upsert_result
  with_attempts r s =
      upsert_result (or_else parent_job_id job.id) job target
        (λ d. record d {
          result_state = some r.result_state;
          selected_transport = r.selected_transport;
          completed_at = some env.now;
        })
        (commit (
          on_others
            (λ o. record o {
              attempts = o.attempts ++ rows_of env.row_ids env.now job target 0 r.rows;
            })
            (interleave env.while_collecting s)))

  -- `_execute_multi_transport`, with the policy.
  unfoldable pub run_transports :
      MultiTransportPolicy → Session → Session × Done DiscoveryExecutionOutcome
  unfolding build_transport_configs upsert_result commit discover_with_fallback with_attempts
      conclude_transports
  run_transports policy s =
      let ready = upsert_result (or_else parent_job_id job.id) job target (λ r. r) s in
      let (built, configs) = build_transport_configs policy 0 policy.transports ready in
      elim configs [
        | [] ↦ (
          commit built,
          raises (
              execution_failure unsupported_capability
                "No transport configurations available for the credential profile."),
        )
        | c ∷ cs ↦
            (let r =
                discover_with_fallback env.redact false false none env.recording target.address
                  (c ∷ cs) in
              conclude_transports r (with_attempts r built))
      ]

  unfoldable pub execute_multi_transport : Session → Session × Done DiscoveryExecutionOutcome
  unfolding resolve_transport_policy run_transports
  execute_multi_transport s =
      elim (resolve_transport_policy env.uuid env.find_profile target.policy) [
        | none ↦ (s, raises (raised unclassified "insecure transport in policy"))
        | some policy ↦ run_transports policy s
      ]
