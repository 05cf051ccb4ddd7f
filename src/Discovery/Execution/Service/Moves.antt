-- ===== src/Discovery/Execution/Service/Moves.antt =====
-- Every execution of a job (backend/app/discovery/execution.py) makes steps of the row machine only.
use network_operations_platf.Common.{
  ℕ, ◌≡◌, sym, subst, false, String, Option, none, some, List, arith, Bool-cases, Option-cases, inl,
  inr,
}
use network_operations_platf.Discovery.Contracts.{value, job_cancelled, target_not_found}
use network_operations_platf.Persistence.Tables.{DiscoveryJobRecord, Session, alone, rollback, get}
use network_operations_platf.Persistence.Jobs.{
  resource_not_found, cancellation_requested, finalise_cancellation, mark_failed_after_rollback,
}
use network_operations_platf.Persistence.Evidence.{finish_attempt}
use network_operations_platf.Persistence.Steps.{Moved-Ended}
use network_operations_platf.Persistence.Steps.Outcomes.{Outcome-Moved, finalise-Outcome}
use network_operations_platf.Persistence.Steps.Follows.{Follows, rollback-Follows}
use network_operations_platf.Persistence.Steps.Selections.{mark_failed-Follows}
use network_operations_platf.Discovery.Execution.Failures.{
  ExecutionError, cancellation_signal, lease_lost, persistence, execution_failure, raised,
  failure_code,
}
use network_operations_platf.Discovery.Execution.Devices.{
  TargetView, resolve_target, transport_text, upsert_result, cancelled_result,
  ensure_device_result_for_failure,
}
use network_operations_platf.Discovery.Execution.Calls.{Done, returns, raises, Environment}
use network_operations_platf.Discovery.Execution.Calls.Moves.{
  Keeps, kept, and_next-Keeps, lift-Keeps, lifted-Keeps,
}
use network_operations_platf.Discovery.Execution.Single.{DiscoveryExecutionOutcome}
use network_operations_platf.Discovery.Execution.Single.Moves.{closing-Keeps}
use network_operations_platf.Discovery.Execution.Service.{
  finish_started, finish_cancelled, on_cancellation, on_lease_lost, or_rollback, store_failure,
  on_failure, handled, not_claimed,
}

module _ (env : Environment) (t : String) (parent : Option ℕ) (owner : ℕ)
    (start : List DiscoveryJobRecord) where
  abbrev P : Session × Done DiscoveryExecutionOutcome → Type 0
  P q = Keeps start q

  started-Follows :
      (attempt : Option ℕ) (result : String) (code message : Option String) (s : Session)
      → Follows start s
      → Follows start (finish_started env t parent owner attempt result code message s)
  unfolding finish_started finish_attempt
  started-Follows none result code message s h = h
  started-Follows (some id) result code message s h = h

  finish_cancelled-Keeps :
      (job : DiscoveryJobRecord) (s : Session)
      → Follows start s
      → Keeps start (finish_cancelled env t parent owner job s)
  unfolding finish_cancelled
  finish_cancelled-Keeps job s h =
      let call = finalise_cancellation alone env.now t job.id (some owner) s in
      and_next-Keeps start _ _
        (lift-Keeps start env.text_of s call h (
          Moved-Ended s call
            (Outcome-Moved s call (finalise-Outcome env.now t job.id (some owner) s))))
        (λ cancelled next g. closing-Keeps start 0 cancelled next g)

  on_cancellation-Keeps :
      (attempt : Option ℕ) (job : DiscoveryJobRecord) (s : Session)
      → Follows start s
      → Keeps start (on_cancellation env t parent owner attempt job s)
  on_cancellation-Keeps attempt job s h =
      let stopped =
        finish_started env t parent owner attempt "cancelled" (some (value job_cancelled)) none s in
      let g = started-Follows attempt "cancelled" (some (value job_cancelled)) none s h in
      let call = on_cancellation env t parent owner attempt job s in
      elim (Option-cases (resolve_target env.metadata job t stopped)) [
        | inl n ↦
            let e : call ≡ finish_cancelled env t parent owner job stopped =
              unfold on_cancellation in ground (arith, n) in
            subst P (sym e) (finish_cancelled-Keeps job stopped g)
        | inr (target, n) ↦
            let noted = cancelled_result env.now job target stopped in
            let e : call ≡ finish_cancelled env t parent owner job noted =
              unfold on_cancellation in ground (arith, n) in
            subst P (sym e) (finish_cancelled-Keeps job noted (unfold cancelled_result in g))
      ]

  pub not_claimed-Keeps :
      (k : ℕ) (s : Session) → Follows start s → Keeps start (not_claimed env t parent owner k s)
  not_claimed-Keeps k s h =
      let g = rollback-Follows start s h in
      let call = not_claimed env t parent owner k s in
      let missing : ExecutionError =
        persistence resource_not_found (env.text_of resource_not_found) in
      elim (Option-cases (get t k (rollback s).working)) [
        | inl n ↦
            let e : call ≡ (rollback s, raises missing) = unfold not_claimed in ground (arith, n) in
            subst P (sym e) (kept start (rollback s) (raises missing) g)
        | inr (job, n) ↦
            let o : Done DiscoveryExecutionOutcome =
              returns (record { job = some job; executed = false; evidence_count = 0 }) in
            let e : call ≡ (rollback s, o) = unfold not_claimed in ground (arith, n) in
            subst P (sym e) (kept start (rollback s) o g)
      ]

  or_rollback-Keeps :
      (q : Session × Done DiscoveryExecutionOutcome)
      → Keeps start q
      → Keeps start (or_rollback env t parent owner q)
  unfolding or_rollback
  or_rollback-Keeps (s, returns o) k = k
  or_rollback-Keeps (s, raises e) k =
      kept start (rollback s) (raises e) (rollback-Follows start s k.follows)

  store_failure-Keeps :
      (e : ExecutionError) (job : DiscoveryJobRecord) (target : TargetView) (s : Session)
      → Follows start s
      → Keeps start (store_failure env t parent owner e job target s)
  unfolding store_failure
  store_failure-Keeps e job target s h =
      let code = failure_code e in
      let message = env.safe_message e in
      or_rollback-Keeps _ (
        and_next-Keeps start _ _
          (lifted-Keeps start env.text_of
            (mark_failed_after_rollback alone env.now t job.id (value code) message (some owner) s)
            (mark_failed-Follows start env.now t job.id (value code) message (some owner) s h))
          (λ failed next g.
            closing-Keeps start 0 failed
              (ensure_device_result_for_failure env.now job target code message
                (some (transport_text env.str target)) next)
              (unfold ensure_device_result_for_failure upsert_result in g)))

  on_failure-Keeps :
      (attempt : Option ℕ) (e : ExecutionError) (job : DiscoveryJobRecord) (s : Session)
      → Follows start s
      → Keeps start (on_failure env t parent owner attempt e job s)
  on_failure-Keeps attempt e job s h =
      let call = on_failure env t parent owner attempt e job s in
      let code : Option String = some (value (failure_code e)) in
      let message : Option String = some (env.safe_message e) in
      let stopped = finish_started env t parent owner attempt "failed" code message s in
      let g = started-Follows attempt "failed" code message s h in
      let cancelled =
        finish_started env t parent owner attempt "cancelled" (some (value job_cancelled)) none s in
      elim (Bool-cases (cancellation_requested t job.id s)) [
        | inl y ↦
            let q : call ≡ finish_cancelled env t parent owner job cancelled =
              unfold on_failure in ground (arith, y) in
            subst P (sym q) (
              finish_cancelled-Keeps job cancelled
                (started-Follows attempt "cancelled" (some (value job_cancelled)) none s h))
        | inr y ↦ elim (Option-cases (resolve_target env.metadata job t stopped)) [
          | inl n ↦
              let missing : ExecutionError =
                execution_failure target_not_found "Discovery target was not found." in
              let q : call ≡ (stopped, raises missing) =
                unfold on_failure in ground (arith, y, n) in
              subst P (sym q) (kept start stopped (raises missing) g)
          | inr (target, n) ↦
              let q : call ≡ store_failure env t parent owner e job target stopped =
                unfold on_failure in ground (arith, y, n) in
              subst P (sym q) (store_failure-Keeps e job target stopped g)
        ]
      ]

  pub handled-Keeps :
      (attempt : Option ℕ) (job : DiscoveryJobRecord) (q : Session × Done DiscoveryExecutionOutcome)
      → Keeps start q
      → Keeps start (handled env t parent owner attempt job q)
  unfolding handled
  handled-Keeps attempt job (s, returns o) k = k
  handled-Keeps attempt job (s, raises cancellation_signal) k =
      on_cancellation-Keeps attempt job s k.follows
  handled-Keeps attempt job (s, raises lease_lost) k =
      unfold on_lease_lost in not_claimed-Keeps job.id s k.follows
  handled-Keeps attempt job (s, raises (persistence e m)) k =
      on_failure-Keeps attempt (persistence e m) job s k.follows
  handled-Keeps attempt job (s, raises (execution_failure c m)) k =
      on_failure-Keeps attempt (execution_failure c m) job s k.follows
  handled-Keeps attempt job (s, raises (raised c m)) k =
      on_failure-Keeps attempt (raised c m) job s k.follows
