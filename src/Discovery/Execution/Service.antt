-- ===== src/Discovery/Execution/Service.antt =====
-- `DiscoveryExecutionService.execute` of backend/app/discovery/execution.py: a job is claimed, or known to
-- be claimed, executed, and ended in a way that fits what was raised.
mod Moves
pub mod Refinement
mod Reports
mod Handlers
pub mod Conclusions
pub mod Attempts
use network_operations_platf.Common.{
  ℕ, Bool, true, false, String, Option, none, some, List, first, not, opt_eq, ◌&&◌, ◌||◌,
  if◌then◌else◌,
}
use network_operations_platf.Discovery.Contracts.{
  DiscoveryFailureCode, target_not_found, target_disabled, job_cancelled, value, running, status_eq,
}
use network_operations_platf.Persistence.Tables.{
  DiscoveryJobRecord, Session, alone, commit, rollback, is_job, get,
}
use network_operations_platf.Persistence.Jobs.{
  DiscoveryPersistenceError, invalid_transition, resource_not_found, Result, ok, err, claim,
  cancellation_requested, finalise_cancellation, mark_failed_after_rollback,
}
use network_operations_platf.Persistence.Evidence.{finish_attempt}
use network_operations_platf.Discovery.Execution.Failures.{
  ExecutionError, cancellation_signal, lease_lost, persistence, execution_failure, failure_code,
}
use network_operations_platf.Discovery.Execution.Devices.{
  TargetView, resolve_target, transport_text, start_transport_attempt, cancelled_result,
  ensure_device_result_for_failure,
}
use network_operations_platf.Discovery.Execution.Calls.{
  Done, returns, raises, and_next, Environment, lift, raise_if_cancelled,
}
use network_operations_platf.Discovery.Execution.Single.{
  DiscoveryExecutionOutcome, closing, run_attempt,
}
use network_operations_platf.Discovery.Execution.Multi.{execute_multi_transport}

-- `owned_running_job` of backend/app/persistence/discovery_repositories.py
unfoldable pub owned_running_job : String → ℕ → ℕ → Session → Option DiscoveryJobRecord
owned_running_job tenant_id job_id owner s =
    first
      (λ r.
        is_job tenant_id job_id r && (status_eq r.state running && opt_eq r.execution_owner owner))
      s.working

abbrev outcome_of : Bool → Option DiscoveryJobRecord → DiscoveryExecutionOutcome
outcome_of executed job = record { job = job; executed = executed; evidence_count = 0 }

module _ (env : Environment) (tenant_id : String) (parent_job_id : Option ℕ) (owner : ℕ) where
  -- The attempt that was started, if one was, is finished.
  unfoldable pub finish_started :
      Option ℕ → String → Option String → Option String → Session → Session
  unfolding finish_attempt
  finish_started none result code message s = s
  finish_started (some id) result code message s = finish_attempt env.now id result code message s

  -- The job is cancelled for good.
  unfoldable pub finish_cancelled :
      DiscoveryJobRecord → Session → Session × Done DiscoveryExecutionOutcome
  unfolding and_next lift finalise_cancellation closing
  finish_cancelled job s =
      and_next
        (lift env.text_of (finalise_cancellation alone env.now tenant_id job.id (some owner) s))
        (λ cancelled next. closing 0 cancelled next)

  -- The handler of the cancellation signal.
  unfoldable pub on_cancellation :
      Option ℕ → DiscoveryJobRecord → Session → Session × Done DiscoveryExecutionOutcome
  unfolding finish_started resolve_target cancelled_result finish_cancelled value
  on_cancellation attempt job s =
      let stopped = finish_started attempt "cancelled" (some (value job_cancelled)) none s in
      elim (resolve_target env.metadata job tenant_id stopped) [
        | none ↦ finish_cancelled job stopped
        | some target ↦ finish_cancelled job (cancelled_result env.now job target stopped)
      ]

  -- A job that was not claimed here: what is known of it after a rollback.
  unfoldable pub not_claimed : ℕ → Session → Session × Done DiscoveryExecutionOutcome
  unfolding rollback get
  not_claimed job_id s = elim (get tenant_id job_id (rollback s).working) [
    | none ↦ (rollback s, raises (persistence resource_not_found (env.text_of resource_not_found)))
    | some existing ↦ (rollback s, returns (outcome_of false (some existing)))
  ]

  -- The handler of a lost lease.
  unfoldable pub on_lease_lost :
      DiscoveryJobRecord → Session → Session × Done DiscoveryExecutionOutcome
  unfolding not_claimed
  on_lease_lost job s = not_claimed job.id s

  -- After an exception on the way to the stored failure.
  unfoldable pub or_rollback : {A : Type 0} → Session × Done A → Session × Done A
  unfolding rollback
  or_rollback (s, returns a) = (s, returns a)
  or_rollback (s, raises e) = (rollback s, raises e)

  unfoldable pub store_failure :
      ExecutionError
      → DiscoveryJobRecord
      → TargetView
      → Session
      → Session × Done DiscoveryExecutionOutcome
  unfolding or_rollback and_next lift mark_failed_after_rollback ensure_device_result_for_failure
      closing failure_code value transport_text
  store_failure e job target s =
      let code = failure_code e in
      let message = env.safe_message e in
      or_rollback (
        and_next
          (lift env.text_of (
            mark_failed_after_rollback alone env.now tenant_id job.id (value code) message
              (some owner) s))
          (λ failed next. closing 0 failed (
            ensure_device_result_for_failure env.now job target code message
              (some (transport_text env.str target)) next)))

  -- The handler of every other exception.
  unfoldable pub on_failure :
      Option ℕ
      → ExecutionError
      → DiscoveryJobRecord
      → Session
      → Session × Done DiscoveryExecutionOutcome
  unfolding cancellation_requested finish_started finish_cancelled store_failure resolve_target
      failure_code value
  on_failure attempt e job s =
      if cancellation_requested tenant_id job.id s
      then finish_cancelled job
          (finish_started attempt "cancelled" (some (value job_cancelled)) none s)
      else (let stopped =
            finish_started attempt "failed" (some (value (failure_code e)))
              (some (env.safe_message e)) s in
          elim (resolve_target env.metadata job tenant_id stopped) [
            | none ↦ (
              stopped,
              raises (execution_failure target_not_found "Discovery target was not found."),
            )
            | some target ↦ store_failure e job target stopped
          ])

  unfoldable pub handled :
      Option ℕ
      → DiscoveryJobRecord
      → Session × Done DiscoveryExecutionOutcome
      → Session × Done DiscoveryExecutionOutcome
  unfolding on_cancellation on_lease_lost on_failure
  handled attempt job (s, returns o) = (s, returns o)
  handled attempt job (s, raises cancellation_signal) = on_cancellation attempt job s
  handled attempt job (s, raises lease_lost) = on_lease_lost job s
  handled attempt job (s, raises e) = on_failure attempt e job s

  -- The target, once it is resolved, not cancelled and enabled.
  unfoldable pub prepare : DiscoveryJobRecord → Session → Session × Done TargetView
  unfolding resolve_target and_next raise_if_cancelled
  prepare job s = elim (resolve_target env.metadata job tenant_id s) [
    | none ↦ (s, raises (execution_failure target_not_found "Discovery target was not found."))
    | some target ↦ and_next (raise_if_cancelled env 0 tenant_id job.id parent_job_id s) (λ _ next.
        if target.enabled
        then (next, returns target)
        else (next, raises (execution_failure target_disabled "Discovery target is disabled.")))
  ]

  -- On one transport, with the collector that was found for it.
  unfoldable pub execute_single :
      DiscoveryJobRecord → TargetView → Session → Session × Done DiscoveryExecutionOutcome
  unfolding handled start_transport_attempt run_attempt
  execute_single job target s = elim env.collector [
    | raises e ↦ handled none job (s, raises e)
    | returns collector ↦ handled (some env.attempt_id) job (
        run_attempt env tenant_id parent_job_id owner job target collector
          (start_transport_attempt env.str env.now env.attempt_id job target s))
  ]

  -- The target is known: by several transports, or by one.
  unfoldable pub execute_target :
      DiscoveryJobRecord → Session × Done TargetView → Session × Done DiscoveryExecutionOutcome
  unfolding handled execute_multi_transport execute_single
  execute_target job (s, raises e) = handled none job (s, raises e)
  execute_target job (s, returns target) =
      let several =
        handled none job (execute_multi_transport env tenant_id parent_job_id job target s) in
      if target.has_profile || target.has_fallbacks then several else execute_single job target s

  -- After `claim`; a row that is gone in between counts as not found.
  unfoldable pub execute_claimed :
      ℕ → Session × Result (Option DiscoveryJobRecord) → Session × Done DiscoveryExecutionOutcome
  unfolding prepare execute_target not_claimed commit
  execute_claimed job_id (s, ok (some job)) = execute_target job (prepare job (commit s))
  execute_claimed job_id (s, ok none) =
      (commit s, raises (persistence resource_not_found (env.text_of resource_not_found)))
  execute_claimed job_id (s, err invalid_transition) = not_claimed job_id s
  execute_claimed job_id (s, err e) = (s, raises (persistence e (env.text_of e)))

  unfoldable pub execute : ℕ → ℕ → Bool → Session → Session × Done DiscoveryExecutionOutcome
  unfolding owned_running_job claim prepare execute_target not_claimed execute_claimed
  execute job_id lease already_claimed s =
      let claimed_job =
        execute_claimed job_id (claim alone env.now tenant_id job_id owner lease s) in
      let owned_job : Session × Done DiscoveryExecutionOutcome =
        elim (owned_running_job tenant_id job_id owner s) [
          | none ↦ not_claimed job_id s
          | some job ↦ execute_target job (prepare job s)
        ] in
      if already_claimed then owned_job else claimed_job
