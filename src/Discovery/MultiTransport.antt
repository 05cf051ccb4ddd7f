-- ===== src/Discovery/MultiTransport.antt =====
-- backend/app/discovery/multi_transport.py: discovery with fallback between transports. What the
-- collectors, the prober and the attempts repository do is given by the environment: the outcome
-- of a collector's calls stands in its configuration, and of the repository it is known which
-- calls raise. Secrets are redacted by a regular expression, which is the parameter `redact`.
-- Time stamps and durations of attempts are left out.
mod Payloads
mod Configs
mod Exceptions
pub mod Attempts
pub mod Verdict
pub mod Order
mod Examples
unfoldable pub use Payloads.*
unfoldable pub use Exceptions.*
unfoldable pub use Configs.*
use network_operations_platf.Common.{
  ℕ, suc, ◌+◌, ltb, Bool, true, false, String, Option, none, some, Option-cases, List, [], ◌∷◌,
  ◌++◌, map, any, keep, length, not, ◌&&◌, ◌||◌, if◌then◌else◌,
}
use network_operations_platf.Discovery.Contracts.{
  DiscoveryFailureCode, discovery_failed, value, TransportCapability, ssh, snmp, telnet, icmp, http,
  https,
}
use network_operations_platf.Discovery.ResultStates.{
  DiscoveryResultState, Indicators, from_failure_and_success, classify_transport_failure,
}

-- Of the attempts repository: whether there is one, and for which attempts its calls succeed.
pub record Recording : Type 0 where
  pub present : Bool
  pub start_ok : ℕ → Bool
  pub finish_ok : ℕ → Bool

-- The variables of the loop over the transports.
pub record Progress : Type 0 where
  pub attempt_results : List TransportAttemptResult
  pub rows : List AttemptRow
  pub successful_payload : Option Fields
  pub selected_transport : Option String
  pub device_info : Option Fields
  pub host_is_reachable : Bool
  pub any_auth_failed : Bool
  pub any_service_available : Bool
  pub any_transport_unavailable : Bool
  pub is_fully_discovered : Bool

unfoldable pub start : Progress
start = record {
  attempt_results = [];
  rows = [];
  successful_payload = none;
  selected_transport = none;
  device_info = none;
  host_is_reachable = false;
  any_auth_failed = false;
  any_service_available = false;
  any_transport_unavailable = false;
  is_fully_discovered = false;
}

attempt_succeeded : TransportAttemptConfig → ℕ → Fields → Option Fields → TransportAttemptResult
attempt_succeeded config n payload info = record {
  transport_name = config.transport_name;
  attempt_order = n;
  success = true;
  failure_code = none;
  failure_message = none;
  payload = some payload;
  device_info = info;
}

attempt_useless : TransportAttemptConfig → ℕ → TransportAttemptResult
attempt_useless config n = record {
  transport_name = config.transport_name;
  attempt_order = n;
  success = false;
  failure_code = some discovery_failed;
  failure_message = some "Collector did not return device identification data";
  payload = none;
  device_info = none;
}

-- A payload that no validator accepted: it still counts if it identifies a device.
attempt_unvalidated : TransportAttemptConfig → ℕ → Fields → TransportAttemptResult
attempt_unvalidated config n payload =
    if identifies payload
    then attempt_succeeded config n payload (device_info_of payload)
    else attempt_useless config n

-- The row of an attempt, if it could be started.
record_attempt : Recording → ℕ → String → String × Option String × Option String → List AttemptRow
record_attempt rec n name outcome =
    if rec.present && rec.start_ok n
    then record {
      transport = name;
      row_order = n;
      finished = if rec.finish_ok n then some outcome else none;
    }
      ∷ []
    else []

on_success : Recording → Progress → TransportAttemptConfig → ℕ → TransportAttemptResult → Progress
on_success rec p config n result = record p {
  attempt_results = p.attempt_results ++ result ∷ [];
  rows = p.rows ++ record_attempt rec n config.transport_name ("success", none, none);
  successful_payload = result.payload;
  selected_transport = some config.transport_name;
  device_info = result.device_info;
  host_is_reachable = true;
  any_service_available = true;
  is_fully_discovered = true;
}

pub finish : String → Progress → MultiTransportDiscoveryResult
finish address p = record {
  address = address;
  result_state =
      from_failure_and_success p.host_is_reachable p.any_service_available p.any_auth_failed false
        p.is_fully_discovered p.any_transport_unavailable;
  selected_transport = p.selected_transport;
  attempts = p.attempt_results;
  discovery_payload = p.successful_payload;
  device_info = p.device_info;
  rows = p.rows;
}

-- The text that is stored for a failure code.
unfoldable pub code_text : Option DiscoveryFailureCode → Option String
code_text none = none
code_text (some code) = some (value code)

module _ (redact : String → String) where
  attempt_raised : TransportAttemptConfig → ℕ → Exception → TransportAttemptResult
  attempt_raised config n exc = record {
    transport_name = config.transport_name;
    attempt_order = n;
    success = false;
    failure_code = some (classify_exception exc);
    failure_message = safe_failure_message redact (some exc.message);
    payload = none;
    device_info = none;
  }

  attempt_validated :
      TransportAttemptConfig → ℕ → Fields → Option (Fields → Validation) → TransportAttemptResult
  attempt_validated config n payload none = attempt_unvalidated config n payload
  attempt_validated config n payload (some validate) = elim (validate payload) [
    | valid info ↦ attempt_succeeded config n payload (some info)
    | invalid ↦ attempt_unvalidated config n payload
    | raises exc ↦ attempt_raised config n exc
  ]

  unfoldable pub execute_transport_attempt : TransportAttemptConfig → ℕ → TransportAttemptResult
  unfolding attempt_succeeded attempt_raised attempt_useless attempt_unvalidated attempt_validated
  execute_transport_attempt config n = elim config.collection [
    | failed exc ↦ attempt_raised config n exc
    | not_a_dict ↦ attempt_useless config n
    | collected payload ↦
        if nonempty payload
        then attempt_validated config n payload config.validate_payload
        else attempt_useless config n
  ]

  on_failure : Recording → Progress → TransportAttemptConfig → ℕ → TransportAttemptResult → Progress
  on_failure rec p config n result =
      let code = code_text result.failure_code in
      let seen = classify_transport_failure code in
      record p {
        attempt_results = p.attempt_results ++ result ∷ [];
        rows =
            p.rows
            ++ record_attempt rec n config.transport_name
                ("failed", code, safe_failure_message redact result.failure_message);
        host_is_reachable = p.host_is_reachable || seen.host_reachable;
        any_auth_failed = p.any_auth_failed || seen.auth_failed;
        any_service_available = p.any_service_available || seen.service_available;
        any_transport_unavailable = p.any_transport_unavailable || seen.transport_unavailable;
      }

  unfoldable pub run_attempts : Recording → ℕ → List TransportAttemptConfig → Progress → Progress
  unfolding record_attempt on_success on_failure
  run_attempts rec n [] p = p
  run_attempts rec n (config ∷ rest) p =
      let result = execute_transport_attempt config n in
      let others = run_attempts rec (suc n) rest (on_failure rec p config n result) in
      if result.success then on_success rec p config n result else others

  unfoldable pub discover_with_fallback :
      Bool
      → Bool
      → Option (List TransportService)
      → Recording
      → String
      → List TransportAttemptConfig
      → MultiTransportDiscoveryResult
  unfolding start finish
  discover_with_fallback should_probe allow_reorder probed rec address configs =
      finish address
        (run_attempts rec 1 (attempt_sequence should_probe allow_reorder probed configs) start)
