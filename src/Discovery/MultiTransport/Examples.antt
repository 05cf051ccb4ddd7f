-- ===== src/Discovery/MultiTransport/Examples.antt =====
-- A discovery whose first transport is refused (backend/app/discovery/multi_transport.py).
use mathlib.Core.List.{Perm}
use network_operations_platf.Common.{◌≡◌, ◌&&◌, some, refl, true, false, String, none, [], ◌∷◌}
use network_operations_platf.Discovery.Contracts.{ssh, https}
use network_operations_platf.Discovery.ResultStates.{from_failure_and_success, discovered}
use network_operations_platf.Discovery.MultiTransport.{
  identifies, other, text, end, field, failed, collected, TransportAttemptConfig, Recording,
  discover_with_fallback, attempt_sequence, https_service, execute_transport_attempt, run_attempts,
}
use network_operations_platf.Discovery.MultiTransport.Attempts.{
  tried, winner, name_of, payload_of, attempts_in_order,
}
use network_operations_platf.Discovery.MultiTransport.Verdict.{verdict, result_state_lem}
use network_operations_platf.Discovery.MultiTransport.Order.{attempt_sequence_lem}

abbrev refused : TransportAttemptConfig
refused = record {
  transport_name = "ssh";
  capability = ssh;
  is_insecure = false;
  collection =
      failed (record { class = other; type_name = "SSHException"; message = "Login incorrect" });
  validate_payload = none;
}

abbrev answers : TransportAttemptConfig
answers = record {
  transport_name = "https";
  capability = https;
  is_insecure = false;
  collection = collected (field "hostname" (text "sw1") end);
  validate_payload = none;
}

abbrev silent_log : Recording
silent_log = record { present = false; start_ok = λ n. true; finish_ok = λ n. true }

abbrev unchanged : String → String
unchanged s = s

falls_back :
    (discover_with_fallback unchanged false false none silent_log "10.0.0.1"
      (refused ∷ answers ∷ [])).result_state
    ≡ discovered
unfolding discover_with_fallback run_attempts execute_transport_attempt attempt_sequence
    from_failure_and_success identifies
falls_back = refl

attempts_in_order_example :
    let r =
      discover_with_fallback unchanged false false none silent_log "10.0.0.1"
        (refused ∷ answers ∷ []) in
    let all_tried =
      tried unchanged 1 (attempt_sequence false false none (refused ∷ answers ∷ [])) in
    (r.attempts ≡ all_tried)
    × (r.selected_transport ≡ name_of (winner all_tried))
    × (r.discovery_payload ≡ payload_of (winner all_tried))
attempts_in_order_example =
    attempts_in_order unchanged silent_log false false none "10.0.0.1" (refused ∷ answers ∷ [])

result_state_lem_example :
    let r =
      discover_with_fallback unchanged false false none silent_log "10.0.0.1" (refused ∷ []) in
    r.result_state ≡ verdict r.attempts
result_state_lem_example =
    result_state_lem unchanged silent_log false false none "10.0.0.1" (refused ∷ [])

attempt_sequence_lem_example :
    Perm
      (attempt_sequence true true (some (https_service ∷ [])) (refused ∷ answers ∷ []))
      (refused ∷ answers ∷ [])
    × ((true && true) ≡ false
        → attempt_sequence true true (some (https_service ∷ [])) (refused ∷ answers ∷ [])
          ≡ refused ∷ answers ∷ [])
attempt_sequence_lem_example =
    attempt_sequence_lem true true (some (https_service ∷ [])) (refused ∷ answers ∷ [])
