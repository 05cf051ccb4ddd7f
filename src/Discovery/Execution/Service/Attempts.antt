-- ===== src/Discovery/Execution/Service/Attempts.antt =====
-- What becomes of the transport attempt of a failed execution (backend/app/discovery/execution.py).
use network_operations_platf.Common.{
  ℕ, ◌≡◌, refl, true, false, String, Option, none, some, arith, Bool-cases, Option-cases, inl, inr,
  any, ap, ◌∙◌, sym,
}
use network_operations_platf.Discovery.Contracts.{failed, value, target_not_found, job_cancelled}
use network_operations_platf.Persistence.Tables.{
  DiscoveryJobRecord, Others, Session, alone, commit, rollback,
}
use network_operations_platf.Persistence.Jobs.{
  Result, ok, err, cancellation_requested, Change, transition, apply_update,
  mark_failed_after_rollback, finalise_cancellation,
}
use network_operations_platf.Persistence.Evidence.{finish_attempt}
use network_operations_platf.Persistence.Steps.Outcomes.{
  Outcome, refuses, keeps, writes, transition-Outcome, finalise-Outcome,
}
use network_operations_platf.Discovery.Execution.Failures.{
  ExecutionError, execution_failure, failure_code,
}
use network_operations_platf.Discovery.Execution.Devices.{
  TargetView, resolve_target, transport_text, upsert_result, ensure_device_result_for_failure,
}
use network_operations_platf.Discovery.Execution.Calls.{
  Done, returns, raises, and_next, Environment, lift,
}
use network_operations_platf.Discovery.Execution.Single.{DiscoveryExecutionOutcome, closing}
use network_operations_platf.Discovery.Execution.Service.{
  finish_started, finish_cancelled, or_rollback, store_failure, on_failure,
}

-- A transition in a session that was rolled back leaves the other tables as they were saved.
transition-saved :
    (now : ℕ) (t : String) (k : ℕ) (c : Change) (s : Session)
    → let q = (transition alone now t k c (rollback s)).0 in
      (q.saved ≡ s.saved) × (q.others ≡ s.saved)
transition-saved now t k c s =
    let P : Session × Result (Option DiscoveryJobRecord) → Type 0 =
      λ q. (q.0.saved ≡ s.saved) × (q.0.others ≡ s.saved) in
    saved_by (transition-Outcome now t k c (rollback s))
  where
    saved_by :
        {q : Session × Result (Option DiscoveryJobRecord)}
        → Outcome (rollback s) q
        → (q.0.saved ≡ s.saved) × (q.0.others ≡ s.saved)
    saved_by (refuses e h) = rw h (unfold rollback in (refl, refl))
    saved_by (keeps a h) = rw h (unfold rollback in (refl, refl))
    saved_by (writes p f u j place guarded h) = elim (Bool-cases (any p (rollback s).working)) [
      | inl y ↦ unfold apply_update rollback in ground (arith, h, y)
      | inr n ↦ unfold apply_update rollback in ground (arith, h, n)
    ]

mark_failed-saved :
    (now : ℕ) (t : String) (k : ℕ) (code message : String) (owner : Option ℕ) (s : Session)
    → let q = (mark_failed_after_rollback alone now t k code message owner s).0 in
      (q.saved ≡ s.saved) × (q.others ≡ s.saved)
unfolding mark_failed_after_rollback
mark_failed-saved now t k code message owner s =
    transition-saved now t k
      (record {
        target_state = failed;
        failure_code = some code;
        failure_message = some message;
        require_no_cancellation = true;
        expected_execution_owner = owner;
      })
      s

Outcome-others :
    (s s1 : Session) (a : Option DiscoveryJobRecord) → Outcome s (s1, ok a) → s1.others ≡ s.others
Outcome-others s s1 a (refuses e h) = ground (arith, h)
Outcome-others s s1 a (keeps b h) = ap (λ q. q.0.others) h
Outcome-others s s1 a (writes p f t k place guarded h) = elim (Bool-cases (any p s.working)) [
  | inl y ↦ unfold apply_update in ground (arith, h, y)
  | inr n ↦ unfold apply_update in ground (arith, h, n)
]

module _ (env : Environment) (t : String) (parent : Option ℕ) (owner : ℕ) where
  -- The end of a failure, after the rollback and the transition.
  abbrev stored :
      ExecutionError
      → DiscoveryJobRecord
      → TargetView
      → Session × Result (Option DiscoveryJobRecord)
      → Session × Done DiscoveryExecutionOutcome
  stored e job target q = or_rollback env t parent owner (
      and_next (lift env.text_of q) (λ failed next. closing 0 failed (
        ensure_device_result_for_failure env.now job target (failure_code e) (env.safe_message e)
          (some (transport_text env.str target)) next)))

  stored-attempts :
      (e : ExecutionError) (job : DiscoveryJobRecord) (target : TargetView) (s : Session)
      (q : Session × Result (Option DiscoveryJobRecord))
      → (q.0.saved ≡ s.saved) × (q.0.others ≡ s.saved)
      → (stored e job target q).0.saved.attempts ≡ s.saved.attempts
  unfolding or_rollback and_next lift closing commit ensure_device_result_for_failure upsert_result
      rollback
  stored-attempts e job target s (s', ok o) h = ap (λ x. x.attempts) h.1
  stored-attempts e job target s (s', err x) h = ap (λ x. x.attempts) h.0

  store_failure-attempts :
      (e : ExecutionError) (job : DiscoveryJobRecord) (target : TargetView) (s : Session)
      → (store_failure env t parent owner e job target s).0.saved.attempts ≡ s.saved.attempts
  unfolding store_failure
  store_failure-attempts e job target s =
      let code = value (failure_code e) in
      let message = env.safe_message e in
      stored-attempts e job target s
        (mark_failed_after_rollback alone env.now t job.id code message (some owner) s)
        (mark_failed-saved env.now t job.id code message (some owner) s)

  finish_started-saved :
      (attempt : Option ℕ) (result : String) (code message : Option String) (s : Session)
      → (finish_started env t parent owner attempt result code message s).saved ≡ s.saved
  unfolding finish_started finish_attempt
  finish_started-saved none result code message s = refl
  finish_started-saved (some id) result code message s = refl

  -- The session's tables, the started attempt finished as cancelled.
  abbrev pub ended_attempts : Option ℕ → Session → Others
  ended_attempts attempt s =
      (finish_started env t parent owner attempt "cancelled" (some (value job_cancelled)) none
        s).others

  closing-others :
      (s s' : Session) (o : DiscoveryExecutionOutcome)
      (q : Session × Result (Option DiscoveryJobRecord))
      → Outcome s q
      → and_next (lift env.text_of q) (λ cancelled next. closing 0 cancelled next) ≡ (s', returns o)
      → s'.saved ≡ s.others
  unfolding and_next lift closing commit
  closing-others s s' o (s1, ok a) h run = sym (ap (λ p. p.0.saved) run) ∙ Outcome-others s s1 a h
  closing-others s s' o (s1, err e) h run = ground (arith, run)

  no_cancellation :
      (attempt : Option ℕ) (e : ExecutionError) (job : DiscoveryJobRecord) (s : Session)
      → cancellation_requested t job.id s ≡ false
      → (on_failure env t parent owner attempt e job s).0.saved.attempts ≡ s.saved.attempts
  no_cancellation attempt e job s n =
      let call = on_failure env t parent owner attempt e job s in
      let code : Option String = some (value (failure_code e)) in
      let message : Option String = some (env.safe_message e) in
      let stopped = finish_started env t parent owner attempt "failed" code message s in
      let kept_rows = ap (λ x. x.attempts) (finish_started-saved attempt "failed" code message s) in
      elim (Option-cases (resolve_target env.metadata job t stopped)) [
        | inl x ↦
            let missing : ExecutionError =
              execution_failure target_not_found "Discovery target was not found." in
            let q : call ≡ (stopped, raises missing) = unfold on_failure in ground (arith, n, x) in
            ap (λ p. p.0.saved.attempts) q ∙ kept_rows
        | inr (target, x) ↦
            let q : call ≡ store_failure env t parent owner e job target stopped =
              unfold on_failure in ground (arith, n, x) in
            ap (λ p. p.0.saved.attempts) q ∙ store_failure-attempts e job target stopped ∙ kept_rows
      ]

  cancellation :
      (attempt : Option ℕ) (e : ExecutionError) (job : DiscoveryJobRecord) (s s' : Session)
      (o : DiscoveryExecutionOutcome)
      → cancellation_requested t job.id s ≡ true
      → on_failure env t parent owner attempt e job s ≡ (s', returns o)
      → s'.saved.attempts ≡ (ended_attempts attempt s).attempts
  cancellation attempt e job s s' o y run =
      let stopped =
        finish_started env t parent owner attempt "cancelled" (some (value job_cancelled)) none s in
      let q : on_failure env t parent owner attempt e job s
          ≡ finish_cancelled env t parent owner job stopped =
        unfold on_failure in ground (arith, y) in
      let all : s'.saved ≡ stopped.others =
        unfold finish_cancelled in
        closing-others stopped s' o
          (finalise_cancellation alone env.now t job.id (some owner) stopped)
          (finalise-Outcome env.now t job.id (some owner) stopped) (sym q ∙ run) in
      ap (λ x. x.attempts) all

  -- What the handler of a failure saves of the history of attempts. When no cancellation was
  -- requested, nothing: the saved attempts after it are those that were saved before it, whether the job
  -- could be failed or not, and an attempt that the execution had started and not committed is lost, its
  -- failure code with it. When a cancellation was requested and the handler returns, everything: the
  -- saved attempts are those of the session, the started one finished as cancelled.
  pub on_failure-attempts :
      (attempt : Option ℕ) (e : ExecutionError) (job : DiscoveryJobRecord) (s : Session)
      → (cancellation_requested t job.id s ≡ false
          → (on_failure env t parent owner attempt e job s).0.saved.attempts ≡ s.saved.attempts)
        × ((s' : Session)
            → (o : DiscoveryExecutionOutcome) → cancellation_requested t job.id s ≡ true
            → on_failure env t parent owner attempt e job s ≡ (s', returns o)
            → s'.saved.attempts ≡ (ended_attempts attempt s).attempts)
  on_failure-attempts attempt e job s =
      (no_cancellation attempt e job s, λ s' o y run. cancellation attempt e job s s' o y run)
