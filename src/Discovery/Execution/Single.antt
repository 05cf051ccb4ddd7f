-- ===== src/Discovery/Execution/Single.antt =====
-- The single-transport path of `execute` in backend/app/discovery/execution.py, for a job that has been
-- claimed.
pub mod Moves
use network_operations_platf.Common.{ℕ, Bool, true, false, String, Option, none, some, List}
use network_operations_platf.Discovery.Contracts.{DiscoveryJobStatus, succeeded}
use network_operations_platf.Discovery.ResultStates.{discovered}
use network_operations_platf.Discovery.MultiTransport.{Value, text, Fields, get as get_value}
use network_operations_platf.Persistence.Tables.{
  DiscoveryJobRecord, Session, alone, commit, interleave,
}
use network_operations_platf.Persistence.Jobs.{Change, record_selection, transition}
use network_operations_platf.Persistence.Evidence.{
  DiscoveryEvidence, create_evidence, finish_attempt,
}
use network_operations_platf.Discovery.Execution.Devices.{
  TargetView, Device, payload_string, start_transport_attempt, record_device_result,
}
use network_operations_platf.Discovery.Execution.Calls.{
  Done, returns, raises, and_next, Environment, outside, lift, raise_if_cancelled,
}

pub record DiscoveryExecutionOutcome : Type 0 where
  pub job : Option DiscoveryJobRecord
  pub executed : Bool
  pub evidence_count : ℕ

-- The end of an execution.
unfoldable pub closing :
    ℕ → Option DiscoveryJobRecord → Session → Session × Done DiscoveryExecutionOutcome
unfolding commit
closing n job s = (commit s, returns (record { job = job; executed = true; evidence_count = n }))

-- `_build_evidence`; the redaction of the payload is part of `json`.
unfoldable pub build_evidence :
    Environment → DiscoveryJobRecord → TargetView → String → Fields → DiscoveryEvidence
build_evidence env job target collector payload = record {
  id = env.evidence_id;
  tenant_id = target.tenant_id;
  job_id = job.id;
  target_id = target.id;
  run_id = job.run_id;
  evidence_type = "raw_discovery";
  collector_name = collector;
  captured_at = env.now;
  payload = env.json payload;
  content_hash = env.hash (env.json payload);
  command_or_probe = "collector.collect";
  sequence = 0;
}

unfoldable pub success_change : Option ℕ → Change
success_change owner = record {
  target_state = succeeded;
  failure_code = none;
  failure_message = none;
  require_no_cancellation = true;
  expected_execution_owner = owner;
}

module _ (env : Environment) (tenant_id : String) (parent_job_id : Option ℕ) (owner : ℕ)
    (job : DiscoveryJobRecord) (target : TargetView) where
  unfoldable pub check : ℕ → Session → Session × Done Unit
  unfolding raise_if_cancelled
  check n = raise_if_cancelled env n tenant_id job.id parent_job_id

  -- Other sessions go on while a collector is awaited.
  unfoldable pub await :
      {A : Type 0}
      → (List DiscoveryJobRecord → List DiscoveryJobRecord)
      → Done A
      → Session
      → Session × Done A
  unfolding interleave
  await meanwhile result s = (interleave meanwhile s, result)

  unfoldable pub transport_of : Fields → Option String
  unfolding payload_string
  transport_of payload = payload_string env.str payload "transport" target.transport_name

  -- From the last check on.
  unfoldable pub conclude : Session → Session × Done DiscoveryExecutionOutcome
  unfolding and_next lift transition success_change closing
  conclude s =
      and_next
        (lift env.text_of
          (transition alone env.now tenant_id job.id (success_change (some owner)) s))
        (λ completed next.
          (commit next, returns (record { job = completed; executed = true; evidence_count = 1 })))

  -- From the committed evidence on.
  unfoldable pub process_payload : Fields → Session → Session × Done DiscoveryExecutionOutcome
  unfolding and_next check outside record_device_result conclude transport_of
  process_payload payload s = and_next (check 4 s) (λ _ s.
      and_next (outside (env.process payload) s) (λ device s. and_next (check 5 s) (λ _ s.
        and_next (outside env.add_live_snapshot s) (λ _ s.
          let recorded =
            record_device_result env.now job target device (transport_of payload) discovered s in
          and_next (check 6 recorded) (λ _ s. conclude s)))))

  -- From the collected payload on.
  unfoldable pub store_payload :
      String → Fields → Session → Session × Done DiscoveryExecutionOutcome
  unfolding and_next lift finish_attempt record_selection check create_evidence build_evidence
      process_payload payload_string transport_of
  store_payload collector payload s =
      and_next
        (lift env.text_of (
          record_selection env.now tenant_id job.id (transport_of payload)
            (payload_string env.str payload "platform_family" target.platform_family)
            (finish_attempt env.now env.attempt_id "success" none none s)))
        (λ _ s. and_next (check 3 s) (λ _ s.
          and_next
            (lift env.text_of
              (create_evidence env.hash (build_evidence env job target collector payload) s))
            (λ _ s. process_payload payload (commit s))))

  -- From the started attempt on.
  unfoldable pub run_attempt : String → Session → Session × Done DiscoveryExecutionOutcome
  unfolding and_next check await store_payload
  run_attempt collector s = and_next (check 1 s) (λ _ s.
      and_next (await env.while_checking env.health_check s) (λ _ s. and_next (check 2 s) (λ _ s.
        and_next (await env.while_collecting env.collect s)
          (λ payload s. store_payload collector payload s))))
