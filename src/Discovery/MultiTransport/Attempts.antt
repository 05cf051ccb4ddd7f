-- ===== src/Discovery/MultiTransport/Attempts.antt =====
-- Which transports are attempted (`discover_with_fallback` of backend/app/discovery/
-- multi_transport.py), against the list of all attempts cut after its first success.
use network_operations_platf.Common.{
  ℕ, suc, ◌≡◌, sym, refl, Bool, String, Option, none, some, List, [], ◌∷◌, ◌++◌, append_assoc,
  append-nil, arith, if◌then◌else◌, is_none,
}
use network_operations_platf.Discovery.MultiTransport.{
  Fields, TransportAttemptConfig, TransportAttemptResult, Recording, Progress, TransportService,
  execute_transport_attempt, run_attempts, start, on_failure, attempt_sequence,
  discover_with_fallback,
}

-- The attempts one after the other, the first that succeeds being the last; each with its number.
unfoldable pub tried :
    (String → String) → ℕ → List TransportAttemptConfig → List TransportAttemptResult
tried redact n [] = []
tried redact n (config ∷ rest) =
    let result = execute_transport_attempt redact config n in
    let others = tried redact (suc n) rest in
    if result.success then result ∷ [] else result ∷ others

-- The attempt that succeeded.
pub winner : List TransportAttemptResult → Option TransportAttemptResult
winner [] = none
winner (r ∷ rs) = if r.success then some r else winner rs

pub name_of : Option TransportAttemptResult → Option String
name_of none = none
name_of (some r) = some r.transport_name

pub payload_of : Option TransportAttemptResult → Option Fields
payload_of none = none
payload_of (some r) = r.payload

-- A result has a failure code exactly when it failed, and carries its number and transport.
pub record IsRecorded (config : TransportAttemptConfig) (n : ℕ) (r : TransportAttemptResult)
    : Type 0 where
  pub coded : is_none r.failure_code ≡ r.success
  pub numbered : r.attempt_order ≡ n
  pub named : r.transport_name ≡ config.transport_name

pub execute-IsRecorded :
    (redact : String → String) (config : TransportAttemptConfig) (n : ℕ)
    → IsRecorded config n (execute_transport_attempt redact config n)
unfolding execute_transport_attempt
execute-IsRecorded redact config n = record {
  coded = ground arith;
  numbered = ground arith;
  named = ground arith;
}

module _ (redact : String → String) (rec : Recording) where
  run-attempts :
      (n : ℕ) (configs : List TransportAttemptConfig) (p : Progress)
      → (run_attempts redact rec n configs p).attempt_results
        ≡ p.attempt_results ++ tried redact n configs
  unfolding run_attempts tried
  run-attempts n [] p = sym (append-nil _)
  run-attempts n (config ∷ rest) p =
      let r = execute_transport_attempt redact config n in
      ground (
        arith,
        run-attempts (suc n) rest (on_failure redact rec p config n r),
        append_assoc p.attempt_results (r ∷ []) (tried redact (suc n) rest),
      )

  -- What the loop selects, if nothing was selected before it.
  run-selected :
      (n : ℕ) (configs : List TransportAttemptConfig) (p : Progress)
      → p.selected_transport ≡ none
      → p.successful_payload ≡ none
      → let q = run_attempts redact rec n configs p in
        let w = winner (tried redact n configs) in
        (q.selected_transport ≡ name_of w) × (q.successful_payload ≡ payload_of w)
  unfolding run_attempts tried winner name_of payload_of
  run-selected n [] p h k = (h, k)
  run-selected n (config ∷ rest) p h k =
      let r = execute_transport_attempt redact config n in
      ground (
        arith,
        run-selected (suc n) rest (on_failure redact rec p config n r),
        execute-IsRecorded redact config n,
      )

  -- Discovery tries the transports in their order and stops at the first success: its attempts are
  -- those of the configurations up to it, numbered from 1; it selects the transport and the payload
  -- of the successful attempt, and none if all fail.
  pub attempts_in_order :
      (should_probe allow_reorder : Bool) (probed : Option (List TransportService))
      (address : String) (configs : List TransportAttemptConfig)
      → let r =
          discover_with_fallback redact should_probe allow_reorder probed rec address configs in
        let all_tried =
          tried redact 1 (attempt_sequence should_probe allow_reorder probed configs) in
        (r.attempts ≡ all_tried)
        × (r.selected_transport ≡ name_of (winner all_tried))
        × (r.discovery_payload ≡ payload_of (winner all_tried))
  unfolding discover_with_fallback
  attempts_in_order should_probe allow_reorder probed address configs =
      let sequence = attempt_sequence should_probe allow_reorder probed configs in
      let s = run-selected 1 sequence start refl refl in (run-attempts 1 sequence start, s.0, s.1)
