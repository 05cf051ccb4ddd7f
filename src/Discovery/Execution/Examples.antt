-- ===== src/Discovery/Execution/Examples.antt =====
-- Runs of backend/app/discovery/execution.py, and the inputs that its theorems are applied to.
use network_operations_platf.Common.{
  ℕ, ◌+◌, ◌≡◌, ◌≢◌, ◌⊎◌, ◌↔◌, refl, true, false, String, Option, none, some, [], ◌∷◌, length, arith,
  lower, upper, sym, ◌∙◌,
}
use network_operations_platf.Discovery.Contracts.{
  failure_code, ssh, https, succeeded, transition_job, capability_eq,
}
use network_operations_platf.Discovery.ResultStates.{
  classify_code, from_failure_and_success, classify_transport_failure, discovered, unverified,
  partial_discovery,
}
use network_operations_platf.Discovery.TransportPolicy.{CredentialProfile, from_credential_profile}
use network_operations_platf.Discovery.MultiTransport.{
  start, code_text, run_attempts, execute_transport_attempt, classify_exception, attempt_sequence,
  text, end, field, failed as failed_collection, https_service, get, TransportAttemptConfig,
  MultiTransportDiscoveryResult, discover_with_fallback, unavailable,
}
use network_operations_platf.Persistence.Tables.{DiscoveryJobRecord, Session}
use network_operations_platf.Persistence.Jobs.{cancellation_requested}
use network_operations_platf.Persistence.Jobs.Settled.{IsSettled}
use network_operations_platf.Persistence.Samples.{
  waiting_job, taken_job, holding, small_network, next_ids,
}
use network_operations_platf.Persistence.Steps.{stays}
use network_operations_platf.Persistence.Steps.Follows.{Follows}
use network_operations_platf.Discovery.Execution.Policy.{TargetMetadata, resolve_transport_policy}
use network_operations_platf.Discovery.Execution.Policy.Permitted.{
  IsResolved, resolve_transport_policy_lem,
}
use network_operations_platf.Discovery.Execution.Failures.{raised, unclassified, stored_state}
use network_operations_platf.Discovery.Execution.Failures.Verdicts.{
  is_kept, stored_state_lem, fallback-stored_state,
}
use network_operations_platf.Discovery.Execution.Calls.{returns, raises, Environment}
use network_operations_platf.Discovery.Execution.Service.{on_failure, execute}
use network_operations_platf.Discovery.Execution.Service.Refinement.{execute-Follows}
use network_operations_platf.Discovery.Execution.Service.Conclusions.{execute-ended}
use network_operations_platf.Discovery.Execution.Service.Attempts.{
  ended_attempts, on_failure-attempts,
}
use network_operations_platf.Persistence.Evidence.{start_attempt}
use network_operations_platf.Discovery.Execution.Single.{DiscoveryExecutionOutcome}

-- A laboratory whose collector answers, and which nobody disturbs.
abbrev quiet_lab : Environment
quiet_lab = record {
  now = 200;
  attempt_id = 71;
  evidence_id = 81;
  lease_is_lost = λ n. false;
  collector = returns "cisco";
  collector_of = λ transport. "cisco";
  health_check = returns tt;
  collect = returns (field "transport" (text "ssh") end);
  process = λ payload. returns none;
  add_live_snapshot = returns tt;
  while_checking = λ rows. rows;
  while_collecting = λ rows. rows;
  uuid = λ t. none;
  find_profile = λ k. none;
  select = λ entry. none;
  unsupported_ids = λ n. 500 + n;
  row_ids = λ n. 600 + n;
  recording = record { present = true; start_ok = λ n. true; finish_ok = λ n. true };
  redact = λ t. t;
  metadata = λ t. end;
  str = λ v. elim v [ text t ↦ t | _ ↦ "?" ];
  json = λ p. "payload";
  hash = λ t. t;
  text_of = λ e. "conflict";
  safe_message = λ e. "failed";
  ip = small_network;
  synchronised = true;
  fresh = next_ids;
}

-- The collector raises when it is asked for its health.
abbrev sick_lab : Environment
sick_lab = record quiet_lab { health_check = raises (raised unclassified "refused by peer") }

abbrev lab : Session
lab = holding (waiting_job ∷ [])

-- The job after the collector has answered.
abbrev ended_job : DiscoveryJobRecord
ended_job = record waiting_job {
  state = succeeded;
  started_at = some 200;
  completed_at = some 200;
  updated_at = 200;
  attempts = 1;
  selected_transport = some "ssh";
}

discovered_run : (execute quiet_lab "acme" none 5 11 30 false lab).0.committed ≡ ended_job ∷ []
unfolding execute get transition_job
discovered_run = refl

-- The attempt of a run that fails at the health check is in no saved table.
failed_run : (execute sick_lab "acme" none 5 11 30 false lab).0.saved.attempts ≡ []
unfolding execute get transition_job
failed_run = refl

failed_job : length (execute sick_lab "acme" none 5 11 30 false lab).0.saved.results ≡ 1
unfolding execute get transition_job
failed_job = refl

execute-Follows_example : Follows lab.committed (execute sick_lab "acme" none 5 11 30 false lab).0
execute-Follows_example =
    execute-Follows sick_lab "acme" none 5 11 30 false lab (λ rows. stays) (λ rows. stays)
      (refl, refl)

execute-ended_example :
    IsSettled "acme" 11
      (execute quiet_lab "acme" none 5 11 30 false lab).0.committed
      (some ended_job)
execute-ended_example =
    execute-ended quiet_lab "acme" none 5 11 30 false lab
      (execute quiet_lab "acme" none 5 11 30 false lab).0
      (record { job = some ended_job; executed = true; evidence_count = 1 }) (λ rows. stays)
      (λ rows. stays) (refl, refl) (refl, tt) (unfold execute get transition_job in refl) refl

-- The session of a run that has started its attempt and not committed it.
abbrev begun : Session
begun = start_attempt 100 71 "acme" 11 "ssh" 1 none (holding (taken_job ∷ []))

begun_attempts : (length begun.others.attempts ≡ 1) × (begun.saved.attempts ≡ [])
unfolding start_attempt
begun_attempts = (refl, refl)

on_failure-attempts_example :
    (cancellation_requested "acme" taken_job.id begun ≡ false
      → (on_failure sick_lab "acme" none 5
          (some 71)
          (raised unclassified "refused by peer")
          taken_job
          begun).0.saved.attempts
        ≡ begun.saved.attempts)
    × ((s' : Session)
        → (o : DiscoveryExecutionOutcome) → cancellation_requested "acme" taken_job.id begun ≡ true
        → on_failure sick_lab "acme" none 5
            (some 71)
            (raised unclassified "refused by peer")
            taken_job
            begun
          ≡ (s', returns o)
        → s'.saved.attempts ≡ (ended_attempts sick_lab "acme" none 5 (some 71) begun).attempts)
on_failure-attempts_example =
    on_failure-attempts sick_lab "acme" none 5 (some 71) (raised unclassified "refused by peer")
      taken_job begun

-- A target that allows insecure HTTP alone, and prefers it.
abbrev web_target : TargetMetadata
web_target = record {
  allow_insecure_telnet = false;
  allow_insecure_http = true;
  credential_profile_id = some "p4";
  allowed_fallback_transports = "HTTP" ∷ "https" ∷ [];
  transport_name = some "http";
}

abbrev web_profile : CredentialProfile
web_profile = record {
  id = 4;
  credential_type = some "http_basic";
  transport_types = "http" ∷ "HTTPS" ∷ [];
}

abbrev read_id : String → Option ℕ
read_id t = some 4

abbrev find_web : ℕ → Option CredentialProfile
find_web k = some web_profile

resolve_transport_policy_lem_example :
    IsResolved web_target (resolve_transport_policy read_id find_web web_target)
resolve_transport_policy_lem_example = resolve_transport_policy_lem read_id find_web web_target

-- Only HTTPS is left for it.
http_lost :
    resolve_transport_policy read_id find_web web_target
    ≡ some (record {
      transports =
          record {
            capability = https;
            transport_name = "https";
            service = https_service;
            is_insecure = false;
            credential_compatible = true;
          }
          ∷ [];
      allow_insecure = false;
      allow_insecure_http = true;
      credential_profile_id = some 4;
    })
unfolding resolve_transport_policy from_credential_profile capability_eq lower upper
http_lost = refl

abbrev half_known : MultiTransportDiscoveryResult
half_known = record {
  address = "10.0.0.1";
  result_state = partial_discovery;
  selected_transport = none;
  attempts = [];
  discovery_payload = none;
  device_info = none;
  rows = [];
}

stored_state_lem_example :
    ((stored_state half_known ≡ half_known.result_state) ↔ (is_kept half_known.result_state ≡ true))
    × (is_kept (stored_state half_known) ≡ true)
stored_state_lem_example = stored_state_lem half_known

-- A transport that cannot be loaded.
abbrev missing_driver : TransportAttemptConfig
missing_driver = record {
  transport_name = "ssh";
  capability = ssh;
  is_insecure = false;
  collection = failed_collection (record {
    class = unavailable;
    type_name = "TransportUnavailableError";
    message = "no driver";
  });
  validate_payload = none;
}

abbrev unverified_host : MultiTransportDiscoveryResult
unverified_host =
    discover_with_fallback quiet_lab.redact false false none quiet_lab.recording "10.0.0.1"
      (missing_driver ∷ [])

its_verdict : unverified_host.result_state ≡ unverified
unfolding discover_with_fallback run_attempts execute_transport_attempt from_failure_and_success
    classify_transport_failure classify_exception attempt_sequence code_text start failure_code
    classify_code
its_verdict = refl

not_discovered : unverified_host.result_state ≢ discovered
not_discovered e = let q : unverified ≡ discovered = sym its_verdict ∙ e in ground (arith, q)

fallback-stored_state_example :
    (stored_state unverified_host ≡ unverified_host.result_state)
    ⊎ ((unverified_host.result_state ≡ unverified) × (stored_state unverified_host ≢ unverified))
fallback-stored_state_example =
    fallback-stored_state quiet_lab.redact false false none quiet_lab.recording "10.0.0.1"
      (missing_driver ∷ []) unverified_host refl not_discovered
