-- ===== src/Discovery/Execution/Service/Handlers.antt =====
-- The handlers of an execution report the truth (backend/app/discovery/execution.py): lemmas on what
-- the exceptions of `execute` lead to.
use network_operations_platf.Common.{
  ℕ, ◌≡◌, refl, sym, subst, false, String, Option, none, some, arith, Bool-cases, Option-cases, inl,
  inr,
}
use network_operations_platf.Discovery.Contracts.{value, job_cancelled, target_not_found}
use network_operations_platf.Persistence.Tables.{DiscoveryJobRecord, Session, alone, rollback, get}
use network_operations_platf.Discovery.Execution.Service.Reports.{IsTrue, closing-IsTrue}
use network_operations_platf.Persistence.Jobs.Settled.{finalise-Settles, mark_failed-Settles}
use network_operations_platf.Persistence.Jobs.{
  resource_not_found, cancellation_requested, finalise_cancellation, mark_failed_after_rollback,
}
use network_operations_platf.Discovery.Execution.Failures.{
  ExecutionError, cancellation_signal, lease_lost, persistence, execution_failure, raised,
  failure_code,
}
use network_operations_platf.Discovery.Execution.Devices.{
  TargetView, resolve_target, transport_text, upsert_result, cancelled_result,
  ensure_device_result_for_failure,
}
use network_operations_platf.Discovery.Execution.Calls.{Done, returns, raises, Environment}
use network_operations_platf.Discovery.Execution.Single.{DiscoveryExecutionOutcome}
use network_operations_platf.Discovery.Execution.Service.{
  finish_started, finish_cancelled, on_cancellation, on_lease_lost, or_rollback, store_failure,
  on_failure, handled, not_claimed,
}

module _ (env : Environment) (t : String) (parent : Option ℕ) (owner : ℕ) where
  finish_cancelled-IsTrue :
      (job : DiscoveryJobRecord) (s : Session)
      → IsTrue t job.id (finish_cancelled env t parent owner job s)
  unfolding finish_cancelled
  finish_cancelled-IsTrue job s =
      closing-IsTrue env.text_of t job.id 0
        (finalise_cancellation alone env.now t job.id (some owner) s) (λ next. next)
        (finalise-Settles env.now t job.id (some owner) s) (λ next. refl)

  on_cancellation-IsTrue :
      (attempt : Option ℕ) (job : DiscoveryJobRecord) (s : Session)
      → IsTrue t job.id (on_cancellation env t parent owner attempt job s)
  on_cancellation-IsTrue attempt job s =
      let P : Session × Done DiscoveryExecutionOutcome → Type 0 = λ q. IsTrue t job.id q in
      let call = on_cancellation env t parent owner attempt job s in
      let stopped =
        finish_started env t parent owner attempt "cancelled" (some (value job_cancelled)) none s in
      elim (Option-cases (resolve_target env.metadata job t stopped)) [
        | inl n ↦
            let e : call ≡ finish_cancelled env t parent owner job stopped =
              unfold on_cancellation in ground (arith, n) in
            subst P (sym e) (finish_cancelled-IsTrue job stopped)
        | inr (target, n) ↦
            let noted = cancelled_result env.now job target stopped in
            let e : call ≡ finish_cancelled env t parent owner job noted =
              unfold on_cancellation in ground (arith, n) in
            subst P (sym e) (finish_cancelled-IsTrue job noted)
      ]

  -- What is known of a job after a rollback is no report of an execution.
  pub not_claimed-IsTrue : (k j : ℕ) (s : Session) → IsTrue t j (not_claimed env t parent owner k s)
  not_claimed-IsTrue k j s =
      let P : Session × Done DiscoveryExecutionOutcome → Type 0 = λ q. IsTrue t j q in
      let call = not_claimed env t parent owner k s in
      let missing : ExecutionError =
        persistence resource_not_found (env.text_of resource_not_found) in
      elim (Option-cases (get t k (rollback s).working)) [
        | inl n ↦
            let e : call ≡ (rollback s, raises missing) = unfold not_claimed in ground (arith, n) in
            subst P (sym e) (record { reports = tt })
        | inr (job, n) ↦
            let o : DiscoveryExecutionOutcome = record {
              job = some job;
              executed = false;
              evidence_count = 0;
            } in
            let e : call ≡ (rollback s, returns o) = unfold not_claimed in ground (arith, n) in
            subst P (sym e) (record { reports = λ x u. ground (arith, x) })
      ]

  or_rollback-IsTrue :
      (j : ℕ) (q : Session × Done DiscoveryExecutionOutcome)
      → IsTrue t j q
      → IsTrue t j (or_rollback env t parent owner q)
  unfolding or_rollback
  or_rollback-IsTrue j (s, returns o) k = k
  or_rollback-IsTrue j (s, raises e) k = record { reports = tt }

  store_failure-IsTrue :
      (e : ExecutionError) (job : DiscoveryJobRecord) (target : TargetView) (s : Session)
      → IsTrue t job.id (store_failure env t parent owner e job target s)
  unfolding store_failure
  store_failure-IsTrue e job target s =
      let code = failure_code e in
      let message = env.safe_message e in
      or_rollback-IsTrue job.id _ (
        closing-IsTrue env.text_of t job.id 0
          (mark_failed_after_rollback alone env.now t job.id (value code) message (some owner) s)
          (λ next.
            ensure_device_result_for_failure env.now job target code message
              (some (transport_text env.str target)) next)
          (mark_failed-Settles env.now t job.id (value code) message (some owner) s)
          (unfold ensure_device_result_for_failure upsert_result in λ next. refl))

  on_failure-IsTrue :
      (attempt : Option ℕ) (e : ExecutionError) (job : DiscoveryJobRecord) (s : Session)
      → IsTrue t job.id (on_failure env t parent owner attempt e job s)
  on_failure-IsTrue attempt e job s =
      let P : Session × Done DiscoveryExecutionOutcome → Type 0 = λ q. IsTrue t job.id q in
      let call = on_failure env t parent owner attempt e job s in
      let code : Option String = some (value (failure_code e)) in
      let message : Option String = some (env.safe_message e) in
      let stopped = finish_started env t parent owner attempt "failed" code message s in
      let cancelled =
        finish_started env t parent owner attempt "cancelled" (some (value job_cancelled)) none s in
      elim (Bool-cases (cancellation_requested t job.id s)) [
        | inl y ↦
            let q : call ≡ finish_cancelled env t parent owner job cancelled =
              unfold on_failure in ground (arith, y) in
            subst P (sym q) (finish_cancelled-IsTrue job cancelled)
        | inr y ↦ elim (Option-cases (resolve_target env.metadata job t stopped)) [
          | inl n ↦
              let missing : ExecutionError =
                execution_failure target_not_found "Discovery target was not found." in
              let q : call ≡ (stopped, raises missing) =
                unfold on_failure in ground (arith, y, n) in
              subst P (sym q) (record { reports = tt })
          | inr (target, n) ↦
              let q : call ≡ store_failure env t parent owner e job target stopped =
                unfold on_failure in ground (arith, y, n) in
              subst P (sym q) (store_failure-IsTrue e job target stopped)
        ]
      ]

  pub handled-IsTrue :
      (attempt : Option ℕ) (job : DiscoveryJobRecord) (q : Session × Done DiscoveryExecutionOutcome)
      → IsTrue t job.id q
      → IsTrue t job.id (handled env t parent owner attempt job q)
  unfolding handled
  handled-IsTrue attempt job (s, returns o) k = k
  handled-IsTrue attempt job (s, raises cancellation_signal) k =
      on_cancellation-IsTrue attempt job s
  handled-IsTrue attempt job (s, raises lease_lost) k =
      unfold on_lease_lost in not_claimed-IsTrue job.id job.id s
  handled-IsTrue attempt job (s, raises (persistence e m)) k =
      on_failure-IsTrue attempt (persistence e m) job s
  handled-IsTrue attempt job (s, raises (execution_failure c m)) k =
      on_failure-IsTrue attempt (execution_failure c m) job s
  handled-IsTrue attempt job (s, raises (raised c m)) k =
      on_failure-IsTrue attempt (raised c m) job s
