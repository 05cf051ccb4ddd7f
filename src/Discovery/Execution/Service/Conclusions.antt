-- ===== src/Discovery/Execution/Service/Conclusions.antt =====
-- Every execution that is reported as carried out has ended its job (backend/app/discovery/execution.py).
use network_operations_platf.Common.{
  first, opt_eq, ◌&&◌, [], ℕ, ◌≡◌, refl, sym, subst, Bool, true, false, String, Option, none, some,
  List, ◌||◌, arith, Bool-cases, Option-cases, inl, inr, ◌∷◌,
}
use network_operations_platf.Discovery.Contracts.{running, status_eq}
use network_operations_platf.Persistence.Tables.{is_job, DiscoveryJobRecord, Session, alone, commit}
use network_operations_platf.Persistence.Jobs.Updates.{HasUniqueIds, get-is_job}
use network_operations_platf.Persistence.Jobs.Claims.{claim-returns}
use network_operations_platf.Discovery.Execution.Service.Reports.{
  Reports, IsTrue, run_attempt-IsTrue, execute_multi-IsTrue,
}
use network_operations_platf.Persistence.Jobs.Settled.{IsSettled}
use network_operations_platf.Persistence.Jobs.{
  duplicate_active, resource_not_found, invalid_transition, cancellation_conflict,
  evidence_mismatch, scope_error, integrity_error, Result, ok, err, claim,
}
use network_operations_platf.Persistence.Steps.{IsClean}
use network_operations_platf.Persistence.Steps.Follows.{Follows-HasUniqueIds, Follows}
use network_operations_platf.Discovery.Execution.Devices.{TargetView, start_transport_attempt}
use network_operations_platf.Discovery.Execution.Calls.{Done, returns, raises, Environment}
use network_operations_platf.Discovery.Execution.Calls.Moves.{IsLawful}
use network_operations_platf.Discovery.Execution.Single.{DiscoveryExecutionOutcome, run_attempt}
use network_operations_platf.Discovery.Execution.Multi.{execute_multi_transport}
use network_operations_platf.Discovery.Execution.Service.Refinement.{execute-Follows}
use network_operations_platf.Discovery.Execution.Service.{
  owned_running_job, handled, prepare, execute_single, execute_target, not_claimed, execute_claimed,
  execute,
}
use network_operations_platf.Discovery.Execution.Service.Handlers.{
  handled-IsTrue, not_claimed-IsTrue,
}

module _ (env : Environment) (t : String) (parent : Option ℕ) (owner : ℕ) where
  execute_single-IsTrue :
      (job : DiscoveryJobRecord) (target : TargetView) (s : Session)
      → IsTrue t job.id (execute_single env t parent owner job target s)
  execute_single-IsTrue job target s = single env.collector refl
    where
      single :
          (c : Done String)
          → env.collector ≡ c
          → IsTrue t job.id (execute_single env t parent owner job target s)
      single (raises x) e =
          let q : execute_single env t parent owner job target s
              ≡ handled env t parent owner none job (s, raises x) =
            unfold execute_single in ground (arith, e) in
          subst (IsTrue t job.id) (sym q)
            (handled-IsTrue env t parent owner none job (s, raises x) (record { reports = tt }))
      single (returns collector) e =
          let begun = start_transport_attempt env.str env.now env.attempt_id job target s in
          let run = run_attempt env t parent owner job target collector begun in
          let q : execute_single env t parent owner job target s
              ≡ handled env t parent owner (some env.attempt_id) job run =
            unfold execute_single in ground (arith, e) in
          subst (IsTrue t job.id) (sym q) (
            handled-IsTrue env t parent owner (some env.attempt_id) job run
              (run_attempt-IsTrue env t parent job owner target collector begun))

  execute_target-IsTrue :
      (job : DiscoveryJobRecord) (q : Session × Done TargetView)
      → IsTrue t job.id (execute_target env t parent owner job q)
  execute_target-IsTrue job (s, raises e) =
      unfold execute_target in
      handled-IsTrue env t parent owner none job (s, raises e) (record { reports = tt })
  execute_target-IsTrue job (s, returns target) =
      elim (Bool-cases (target.has_profile || target.has_fallbacks)) [
        | inl y ↦
            let several = execute_multi_transport env t parent job target s in
            let r : execute_target env t parent owner job (s, returns target)
                ≡ handled env t parent owner none job several =
              unfold execute_target in ground (arith, y) in
            subst (IsTrue t job.id) (sym r) (
              handled-IsTrue env t parent owner none job several
                (execute_multi-IsTrue env t parent job target s))
        | inr y ↦
            let r : execute_target env t parent owner job (s, returns target)
                ≡ execute_single env t parent owner job target s =
              unfold execute_target in ground (arith, y) in
            subst (IsTrue t job.id) (sym r) (execute_single-IsTrue job target s)
      ]

  execute_claimed-IsTrue :
      (k : ℕ) (q : Session × Result (Option DiscoveryJobRecord))
      → ((s : Session) → (job : DiscoveryJobRecord) → q ≡ (s, ok (some job)) → job.id ≡ k)
      → IsTrue t k (execute_claimed env t parent owner k q)
  unfolding execute_claimed
  execute_claimed-IsTrue k (s, ok (some job)) own =
      subst
        (λ j.
          IsTrue t j
            (execute_target env t parent owner job (prepare env t parent owner job (commit s))))
        (own s job refl) (execute_target-IsTrue job (prepare env t parent owner job (commit s)))
  execute_claimed-IsTrue k (s, ok none) own = record { reports = tt }
  execute_claimed-IsTrue k (s, err invalid_transition) own =
      not_claimed-IsTrue env t parent owner k k s
  execute_claimed-IsTrue k (s, err duplicate_active) own = record { reports = tt }
  execute_claimed-IsTrue k (s, err resource_not_found) own = record { reports = tt }
  execute_claimed-IsTrue k (s, err cancellation_conflict) own = record { reports = tt }
  execute_claimed-IsTrue k (s, err evidence_mismatch) own = record { reports = tt }
  execute_claimed-IsTrue k (s, err scope_error) own = record { reports = tt }
  execute_claimed-IsTrue k (s, err integrity_error) own = record { reports = tt }

  first_own :
      (k : ℕ) (rows : List DiscoveryJobRecord) (job : DiscoveryJobRecord)
      → first
          (λ r. is_job t k r && (status_eq r.state running && opt_eq r.execution_owner owner))
          rows
        ≡ some job
      → job.id ≡ k
  first_own k [] job h = ground (arith, h)
  first_own k (r ∷ rs) job h =
      elim (Bool-cases
        (is_job t k r && (status_eq r.state running && opt_eq r.execution_owner owner))) [
          | inl y ↦ ground (arith, h, y)
          | inr n ↦ first_own k rs job (ground (arith, h, n))
        ]

  execute-IsTrue :
      (k lease : ℕ) (already_claimed : Bool) (s : Session)
      → IsTrue t k (execute env t parent owner k lease already_claimed s)
  execute-IsTrue k lease true s =
      let call = execute env t parent owner k lease true s in
      elim (Option-cases (owned_running_job t k owner s)) [
        | inl n ↦
            let e : call ≡ not_claimed env t parent owner k s =
              unfold execute in ground (arith, n) in
            subst (IsTrue t k) (sym e) (not_claimed-IsTrue env t parent owner k k s)
        | inr (job, n) ↦
            let prepared = prepare env t parent owner job s in
            let e : call ≡ execute_target env t parent owner job prepared =
              unfold execute in ground (arith, n) in
            let own : job.id ≡ k = first_own k s.working job (unfold owned_running_job in n) in
            subst (IsTrue t k) (sym e) (
              subst (λ j. IsTrue t j (execute_target env t parent owner job prepared)) own
                (execute_target-IsTrue job prepared))
      ]
  execute-IsTrue k lease false s =
      unfold execute in
      execute_claimed-IsTrue k (claim alone env.now t k owner lease s) (λ s' job e.
        (get-is_job t k s'.working job
          (sym (claim-returns alone env.now t k owner lease s s' (some job) e))).0)

-- When an execution returns and reports that it was carried out, whatever happened in it, its job
-- has ended: the row that it reports is in a terminal state, and it is the committed row of the job. This
-- holds if no two rows of the table had one identifier, nothing was pending, and what other sessions
-- commit meanwhile are steps of the row machine.
pub execute-ended :
    (env : Environment) (t : String) (parent : Option ℕ) (owner k lease : ℕ)
    (already_claimed : Bool) (s s' : Session) (o : DiscoveryExecutionOutcome)
    → IsLawful env.while_checking
    → IsLawful env.while_collecting
    → IsClean s
    → HasUniqueIds s.committed
    → execute env t parent owner k lease already_claimed s ≡ (s', returns o)
    → o.executed ≡ true
    → IsSettled t k s'.committed o.job
execute-ended env t parent owner k lease already_claimed s s' o checking collecting clean unique run
      done =
    let known = execute-IsTrue env t parent owner k lease already_claimed s in
    let steps =
      execute-Follows env t parent owner k lease already_claimed s checking collecting clean in
    let follows : Follows s.committed s' = subst (λ q. Follows s.committed q.0) run steps in
    let still : HasUniqueIds s'.committed = Follows-HasUniqueIds s.committed s' follows unique in
    (subst (λ q. Reports t k q) run known.reports) done still
