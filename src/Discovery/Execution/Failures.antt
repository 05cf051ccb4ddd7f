-- ===== src/Discovery/Execution/Failures.antt =====
-- How backend/app/discovery/execution.py names the failure of a job and what it stores for the device:
-- `_failure_code`, the failure path of `_execute_multi_transport`, the classification of
-- `_ensure_device_result_for_failure` and the totals of `_finalize_single_device_run`.
pub mod Verdicts
use network_operations_platf.Common.{
  ℕ, Bool, true, false, String, Option, none, some, List, [], ◌∷◌, any, str_eq, lower, contains,
  not, or_else, is_none, ◌&&◌, ◌||◌, if◌then◌else◌,
}
use network_operations_platf.Discovery.Contracts.{DiscoveryFailureCode}
use network_operations_platf.Discovery.ResultStates.{
  DiscoveryResultState, unreachable, reachable_no_management, auth_rejected, partial_discovery,
  discovered,
}
use network_operations_platf.Discovery.MultiTransport.{
  TransportAttemptResult, MultiTransportDiscoveryResult,
}
use network_operations_platf.Persistence.Tables.{
  DiscoveryRunStatus, run_succeeded, run_failed, RunTotals, RunRow,
}
use network_operations_platf.Persistence.Jobs.{
  DiscoveryPersistenceError, scope_error, integrity_error,
}

-- The classes of exceptions that are told apart by `isinstance`.
pub data ErrorClass : Type 0 where
  credential_resolution secret_provider transport_dependency transport_unavailable timed_out
        unclassified :
      ErrorClass

-- What the execution of a job can raise; the last two carry their messages.
pub data ExecutionError : Type 0 where
  cancellation_signal lease_lost : ExecutionError
  persistence : DiscoveryPersistenceError → String → ExecutionError
  execution_failure : DiscoveryFailureCode → String → ExecutionError
  raised : ErrorClass → String → ExecutionError

-- The tests on the message, in lower case.
unfoldable pub code_of_message : String → DiscoveryFailureCode
unfolding contains
code_of_message message =
    if any (λ term. contains term message) ("authentication" ∷ "unauthorized" ∷ "credential" ∷ [])
    then DiscoveryFailureCode.authentication_failed
    else if contains "timeout" message || contains "timed out" message
    then DiscoveryFailureCode.connection_timeout
    else if contains "refused" message
    then DiscoveryFailureCode.connection_refused
    else if contains "transport" message || contains "connection" message
    then DiscoveryFailureCode.transport_unavailable
    else DiscoveryFailureCode.discovery_failed

-- The last two errors of the repository are those of other modules.
unfoldable pub failure_code : ExecutionError → DiscoveryFailureCode
unfolding code_of_message lower
failure_code (execution_failure code message) = code
failure_code (raised credential_resolution message) =
    DiscoveryFailureCode.credential_resolution_failed
failure_code (raised secret_provider message) = DiscoveryFailureCode.credential_resolution_failed
failure_code (raised transport_dependency message) = DiscoveryFailureCode.transport_unavailable
failure_code (raised transport_unavailable message) = DiscoveryFailureCode.transport_unavailable
failure_code (raised timed_out message) = DiscoveryFailureCode.discovery_timeout
failure_code (raised unclassified message) = code_of_message (lower message)
failure_code (persistence scope_error message) = code_of_message (lower message)
failure_code (persistence integrity_error message) = code_of_message (lower message)
failure_code (persistence e message) = DiscoveryFailureCode.evidence_persistence_failed
failure_code cancellation_signal = code_of_message ""
failure_code lease_lost = code_of_message ""

-- The first failure with a code, of the attempts in reverse.
unfoldable pub last_failure : List TransportAttemptResult → Option TransportAttemptResult
last_failure [] = none
last_failure (attempt ∷ later) = elim (last_failure later) [
  | some found ↦ some found
  | none ↦ if not attempt.success && not (is_none attempt.failure_code) then some attempt else none
]

-- `message or default`
unfoldable pub text_or : String → Option String → String
text_or default none = default
text_or default (some s) = if str_eq s "" then default else s

-- What the attempts say, before the verdict is looked at.
unfoldable pub attempt_failure : Option TransportAttemptResult → DiscoveryFailureCode × String
unfolding text_or
attempt_failure none =
    (DiscoveryFailureCode.discovery_failed, "Discovery did not complete successfully.")
attempt_failure (some attempt) = (
  or_else attempt.failure_code DiscoveryFailureCode.discovery_failed,
  text_or "Discovery did not complete successfully." attempt.failure_message,
)

-- The codes that are kept for a host that was reached.
unfoldable pub is_workflow_failure : DiscoveryFailureCode → Bool
is_workflow_failure DiscoveryFailureCode.discovery_failed = true
is_workflow_failure DiscoveryFailureCode.collector_failed = true
is_workflow_failure DiscoveryFailureCode.parser_failed = true
is_workflow_failure DiscoveryFailureCode.normalization_failed = true
is_workflow_failure DiscoveryFailureCode.evidence_persistence_failed = true
is_workflow_failure DiscoveryFailureCode.snapshot_persistence_failed = true
is_workflow_failure _ = false

unfoldable pub workflow_failure : TransportAttemptResult → Option DiscoveryFailureCode
unfolding is_workflow_failure
workflow_failure attempt = elim attempt.failure_code [
  | none ↦ none
  | some code ↦ if is_workflow_failure code then some code else none
]

-- For a host that was reached without management.
unfoldable pub reached_failure : Option TransportAttemptResult → DiscoveryFailureCode × String
unfolding workflow_failure text_or
reached_failure last =
    let nothing : DiscoveryFailureCode × String = (
      DiscoveryFailureCode.transport_unavailable,
      "Host is reachable but no configured management transport succeeded.",
    ) in
    elim last [
      | none ↦ nothing
      | some attempt ↦ elim (workflow_failure attempt) [
        | none ↦ nothing
        | some code ↦
            (code, text_or "Discovery failed on a reachable host." attempt.failure_message)
      ]
    ]

-- Section 7 of `_execute_multi_transport`: the code and the message of the failed job.
unfoldable pub failure_of : MultiTransportDiscoveryResult → DiscoveryFailureCode × String
unfolding last_failure attempt_failure reached_failure
failure_of r = elim r.result_state [
  | unreachable ↦ (
    DiscoveryFailureCode.connection_failed, "Host was unreachable for all configured transports.",
  )
  | reachable_no_management ↦ reached_failure (last_failure r.attempts)
  | auth_rejected ↦ (
    DiscoveryFailureCode.authentication_failed,
    "Authentication failed for all applicable management transports.",
  )
  | partial_discovery ↦ (
    DiscoveryFailureCode.discovery_failed,
    "Partial discovery data collected but full discovery did not complete.",
  )
  | _ ↦ attempt_failure (last_failure r.attempts)
]

-- The result state that a failure code stands for.
unfoldable pub state_of_failure : DiscoveryFailureCode → DiscoveryResultState
state_of_failure DiscoveryFailureCode.connection_failed = unreachable
state_of_failure DiscoveryFailureCode.connection_timeout = unreachable
state_of_failure DiscoveryFailureCode.host_unreachable = unreachable
state_of_failure DiscoveryFailureCode.discovery_timeout = unreachable
state_of_failure DiscoveryFailureCode.authentication_failed = auth_rejected
state_of_failure _ = reachable_no_management

unfoldable pub stored_state : MultiTransportDiscoveryResult → DiscoveryResultState
unfolding failure_of state_of_failure
stored_state r = state_of_failure (failure_of r).0

-- `int(result_state == state)`, by the state's constructor.
single_totals : DiscoveryResultState → RunTotals → RunTotals
single_totals state t =
    let zeros = record t {
      total_scanned = 1;
      total_discovered = 0;
      total_unreachable = 0;
      total_reachable_no_management = 0;
      total_authentication_failed = 0;
      total_partial_discovery = 0;
    } in
    elim state [
      | discovered ↦ record zeros { total_discovered = 1 }
      | unreachable ↦ record zeros { total_unreachable = 1 }
      | reachable_no_management ↦ record zeros { total_reachable_no_management = 1 }
      | auth_rejected ↦ record zeros { total_authentication_failed = 1 }
      | partial_discovery ↦ record zeros { total_partial_discovery = 1 }
      | _ ↦ zeros
    ]

no_totals : RunTotals
no_totals = record {
  total_scanned = 0;
  total_discovered = 0;
  total_unreachable = 0;
  total_reachable_no_management = 0;
  total_authentication_failed = 0;
  total_partial_discovery = 0;
  total_unverified = 0;
  total_cancelled = 0;
  total_interrupted = 0;
}

-- What the UPDATE of `_finalize_single_device_run` writes.
unfoldable pub finalized_run : ℕ → DiscoveryResultState → RunRow → RunRow
unfolding single_totals no_totals
finalized_run now state r = record r {
  totals = some (single_totals state (or_else r.totals no_totals));
  status = elim state [ discovered ↦ run_succeeded | _ ↦ run_failed ];
  finished_at = some now;
}
