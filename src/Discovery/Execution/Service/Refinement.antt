-- ===== src/Discovery/Execution/Service/Refinement.antt =====
-- `execute` of backend/app/discovery/execution.py against the row machine of the jobs table.
use network_operations_platf.Common.{
  ℕ, ◌≡◌, refl, sym, subst, Bool, true, false, String, Option, none, some, List, ◌||◌, arith,
  if◌then◌else◌, Bool-cases, Option-cases, inl, inr,
}
use network_operations_platf.Discovery.Contracts.{target_not_found, target_disabled}
use network_operations_platf.Persistence.Tables.{DiscoveryJobRecord, Session, alone, commit}
use network_operations_platf.Persistence.Jobs.{
  duplicate_active, resource_not_found, invalid_transition, cancellation_conflict,
  evidence_mismatch, scope_error, integrity_error, Result, ok, err, claim,
}
use network_operations_platf.Persistence.Evidence.{start_attempt}
use network_operations_platf.Persistence.Steps.{
  IsClean, stays, Ends, Ended, Ends-stays, Moved-Ended,
}
use network_operations_platf.Persistence.Steps.Outcomes.{Outcome-Moved, claim-Outcome}
use network_operations_platf.Persistence.Steps.Follows.{Follows, Ends-Follows, commit-Follows}
use network_operations_platf.Discovery.Execution.Failures.{ExecutionError, execution_failure}
use network_operations_platf.Discovery.Execution.Devices.{
  TargetView, resolve_target, upsert_result, start_transport_attempt,
}
use network_operations_platf.Discovery.Execution.Calls.{
  Done, returns, raises, and_next, Environment, raise_if_cancelled,
}
use network_operations_platf.Discovery.Execution.Calls.Moves.{
  Steady, Steady-Follows, IsLawful, Keeps, kept, Checked, passes, stops, raise_if_cancelled-Checked,
}
use network_operations_platf.Discovery.Execution.Single.{DiscoveryExecutionOutcome, run_attempt}
use network_operations_platf.Discovery.Execution.Single.Moves.{run_attempt-Keeps}
use network_operations_platf.Discovery.Execution.Multi.{execute_multi_transport}
use network_operations_platf.Discovery.Execution.Multi.Moves.{execute_multi-Keeps}
use network_operations_platf.Discovery.Execution.Service.Moves.{not_claimed-Keeps, handled-Keeps}
use network_operations_platf.Discovery.Execution.Service.{
  owned_running_job, handled, prepare, execute_single, execute_target, not_claimed, execute_claimed,
  execute,
}

-- How the preparation ends: the job can be executed and nothing has changed, or an exception.
data Prepared (s : Session) (q : Session × Done TargetView) : Type 0 where
  ready : (target : TargetView) → q ≡ (s, returns target) → Prepared s q
  refused : (s' : Session) (e : ExecutionError) → q ≡ (s', raises e) → Ends s s' → Prepared s q

module _ (env : Environment) (t : String) (parent : Option ℕ) (owner : ℕ)
    (start : List DiscoveryJobRecord) where
  abbrev P : Session × Done DiscoveryExecutionOutcome → Type 0
  P q = Keeps start q

  enabled_if : TargetView → Session → Session × Done TargetView
  enabled_if target next =
      if target.enabled
      then (next, returns target)
      else (next, raises (execution_failure target_disabled "Discovery target is disabled."))

  enabled-Prepared :
      (target : TargetView) (s : Session) (q : Session × Done Unit)
      → Checked s q
      → Prepared s (and_next q (λ _ next. enabled_if target next))
  unfolding enabled_if
  enabled-Prepared target s q (passes e) =
      subst (λ p. Prepared s (and_next p (λ _ next. enabled_if target next))) (sym e)
        (unfold and_next in
          elim (Bool-cases target.enabled) [
            | inl y ↦ ready target (ground (arith, y))
            | inr y ↦
                refused s (execution_failure target_disabled "Discovery target is disabled.")
                  (ground (arith, y)) (Ends-stays s)
          ])
  enabled-Prepared target s q (stops s' x e m) =
      subst (λ p. Prepared s (and_next p (λ _ next. enabled_if target next))) (sym e)
        (unfold and_next in refused s' x refl m)

  prepare-Prepared :
      (job : DiscoveryJobRecord) (s : Session) → Prepared s (prepare env t parent owner job s)
  prepare-Prepared job s =
      let call = prepare env t parent owner job s in
      elim (Option-cases (resolve_target env.metadata job t s)) [
        | inl n ↦
            refused s (execution_failure target_not_found "Discovery target was not found.")
              (unfold prepare in ground (arith, n)) (Ends-stays s)
        | inr (target, n) ↦
            let check = raise_if_cancelled env 0 t job.id parent s in
            let e : call ≡ and_next check (λ _ next. enabled_if target next) =
              unfold prepare enabled_if in ground (arith, n) in
            subst (Prepared s) (sym e)
              (enabled-Prepared target s check (raise_if_cancelled-Checked env t job.id 0 parent s))
      ]

  module _ (checking : IsLawful env.while_checking)
      (collecting : IsLawful env.while_collecting) where
    execute_single-Keeps :
        (job : DiscoveryJobRecord) (target : TargetView) (s : Session)
        → Steady start s
        → Keeps start (execute_single env t parent owner job target s)
    execute_single-Keeps job target s h = single env.collector refl
      where
        single :
            (c : Done String)
            → env.collector ≡ c
            → Keeps start (execute_single env t parent owner job target s)
        single (raises x) e =
            let q : execute_single env t parent owner job target s
                ≡ handled env t parent owner none job (s, raises x) =
              unfold execute_single in ground (arith, e) in
            subst P (sym q) (
              handled-Keeps env t parent owner start none job (s, raises x)
                (kept start s (raises x) (Steady-Follows start s h)))
        single (returns collector) e =
            let begun = start_transport_attempt env.str env.now env.attempt_id job target s in
            let g : Steady start begun =
              unfold start_transport_attempt upsert_result start_attempt in h in
            let run = run_attempt env t parent owner job target collector begun in
            let q : execute_single env t parent owner job target s
                ≡ handled env t parent owner (some env.attempt_id) job run =
              unfold execute_single in ground (arith, e) in
            subst P (sym q) (
              handled-Keeps env t parent owner start (some env.attempt_id) job run (
                run_attempt-Keeps env t parent owner job target start collector begun checking
                  collecting g))

    execute_target-Keeps :
        (job : DiscoveryJobRecord) (s : Session) (q : Session × Done TargetView)
        → Steady start s
        → Prepared s q
        → Keeps start (execute_target env t parent owner job q)
    execute_target-Keeps job s q h (refused s' x e m) =
        subst (λ p. Keeps start (execute_target env t parent owner job p)) (sym e)
          (unfold execute_target in
            handled-Keeps env t parent owner start none job (s', raises x)
              (kept start s' (raises x) (Ends-Follows start s s' (Steady-Follows start s h) m)))
    execute_target-Keeps job s q h (ready target e) =
        subst (λ p. Keeps start (execute_target env t parent owner job p)) (sym e)
          (elim (Bool-cases (target.has_profile || target.has_fallbacks)) [
            | inl y ↦
                let several = execute_multi_transport env t parent job target s in
                let r : execute_target env t parent owner job (s, returns target)
                    ≡ handled env t parent owner none job several =
                  unfold execute_target in ground (arith, y) in
                subst P (sym r) (
                  handled-Keeps env t parent owner start none job several
                    (execute_multi-Keeps env t parent job target start s collecting h))
            | inr y ↦
                let r : execute_target env t parent owner job (s, returns target)
                    ≡ execute_single env t parent owner job target s =
                  unfold execute_target in ground (arith, y) in
                subst P (sym r) (execute_single-Keeps job target s h)
          ])

    execute_claimed-Keeps :
        (k : ℕ) (s : Session) (q : Session × Result (Option DiscoveryJobRecord))
        → Follows start s
        → Ended s q
        → Keeps start (execute_claimed env t parent owner k q)
    unfolding execute_claimed
    execute_claimed-Keeps k s (s', ok (some job)) h m =
        let g = commit-Follows start s' (Ends-Follows start s s' h m) in
        execute_target-Keeps job (commit s') (prepare env t parent owner job (commit s'))
          (g.0, unfold commit in refl) (prepare-Prepared job (commit s'))
    execute_claimed-Keeps k s (s', ok none) h m =
        kept start (commit s') _ (commit-Follows start s' (Ends-Follows start s s' h m))
    execute_claimed-Keeps k s (s', err invalid_transition) h m =
        not_claimed-Keeps env t parent owner start k s' (Ends-Follows start s s' h m)
    execute_claimed-Keeps k s (s', err duplicate_active) h m =
        kept start s' _ (Ends-Follows start s s' h m)
    execute_claimed-Keeps k s (s', err resource_not_found) h m =
        kept start s' _ (Ends-Follows start s s' h m)
    execute_claimed-Keeps k s (s', err cancellation_conflict) h m =
        kept start s' _ (Ends-Follows start s s' h m)
    execute_claimed-Keeps k s (s', err evidence_mismatch) h m =
        kept start s' _ (Ends-Follows start s s' h m)
    execute_claimed-Keeps k s (s', err scope_error) h m =
        kept start s' _ (Ends-Follows start s s' h m)
    execute_claimed-Keeps k s (s', err integrity_error) h m =
        kept start s' _ (Ends-Follows start s s' h m)

    execute-Keeps :
        (k lease : ℕ) (already_claimed : Bool) (s : Session)
        → Steady start s
        → Keeps start (execute env t parent owner k lease already_claimed s)
    execute-Keeps k lease true s h =
        let call = execute env t parent owner k lease true s in
        elim (Option-cases (owned_running_job t k owner s)) [
          | inl n ↦
              let e : call ≡ not_claimed env t parent owner k s =
                unfold execute in ground (arith, n) in
              subst P (sym e)
                (not_claimed-Keeps env t parent owner start k s (Steady-Follows start s h))
          | inr (job, n) ↦
              let prepared = prepare env t parent owner job s in
              let e : call ≡ execute_target env t parent owner job prepared =
                unfold execute in ground (arith, n) in
              subst P (sym e) (execute_target-Keeps job s prepared h (prepare-Prepared job s))
        ]
    execute-Keeps k lease false s h =
        let call = claim alone env.now t k owner lease s in
        unfold execute in
        execute_claimed-Keeps k s call (Steady-Follows start s h)
          (Moved-Ended s call (Outcome-Moved s call (claim-Outcome env.now t k owner lease s)))

-- However the execution of a job goes, on one transport or on several, claimed here or before,
-- through success, failure, cancellation, a lost lease or an exception out of a handler: its
-- transactions together commit a sequence of steps of the row machine, and so does what is left
-- pending. This holds from any table with nothing pending, if what other sessions commit while a
-- collector is awaited are such sequences as well.
pub execute-Follows :
    (env : Environment) (t : String) (parent : Option ℕ) (owner k lease : ℕ)
    (already_claimed : Bool) (s : Session)
    → IsLawful env.while_checking
    → IsLawful env.while_collecting
    → IsClean s
    → Follows s.committed (execute env t parent owner k lease already_claimed s).0
execute-Follows env t parent owner k lease already_claimed s checking collecting clean =
    (execute-Keeps env t parent owner s.committed checking collecting k lease already_claimed s
      (stays, clean.0)).follows
