-- ===== src/Persistence/Steps/Selections.antt =====
-- The methods of an execution that annotate a job or fail it, as steps of the row machine
-- (backend/app/persistence/discovery_repositories.py).
use network_operations_platf.Common.{
  ℕ, ◌≡◌, refl, sym, subst, ap₂, ◌∙◌, true, String, Option, some, List, eq_iff, arith, Bool-cases,
  Option-cases, inl, inr,
}
use network_operations_platf.Discovery.Contracts.{running, failed, status_eq}
use network_operations_platf.Persistence.Tables.{
  DiscoveryJobRecord, Session, alone, rollback, update_where, is_job, get,
}
use network_operations_platf.Persistence.Jobs.{
  resource_not_found, invalid_transition, Result, ok, err, Change, record_selection, selected,
  transition, mark_failed_after_rollback,
}
use network_operations_platf.Persistence.Jobs.Updates.{status_eq_sound, get-is_job}
use network_operations_platf.Persistence.Steps.{
  selects_row, IsGuarded, one, updated, Ended, Ends-stays, Moved-Ended,
}
use network_operations_platf.Persistence.Steps.Follows.{Follows, Ends-Follows, rollback-Follows}
use network_operations_platf.Persistence.Steps.Outcomes.{Outcome-Moved, transition-Outcome}

pub select-IsGuarded :
    (now k : ℕ) (t : String) (transport platform : Option String) (job : DiscoveryJobRecord)
    (rows : List DiscoveryJobRecord)
    → get t k rows ≡ some job
    → job.state ≡ running
    → IsGuarded rows (is_job t k) (selected now transport platform)
select-IsGuarded now k t transport platform job rows here runs u j r found holds =
    let at = get-is_job u j rows r found in
    let same_key : some r ≡ some job =
      sym found
      ∙ ap₂ (λ a b. get a b rows) (sym at.1 ∙ (eq_iff r.tenant_id t).0 (ground arith))
          (sym at.0 ∙ ground arith)
      ∙ here in
    selects_row now transport platform (ground (arith, same_key)) refl

pub record_selection-Ended :
    (now : ℕ) (t : String) (k : ℕ) (transport platform : Option String) (s : Session)
    → Ended s (record_selection now t k transport platform s)
record_selection-Ended now t k transport platform s =
    let P : Session × Result (Option DiscoveryJobRecord) → Type 0 = λ q. Ended s q in
    let call = record_selection now t k transport platform s in
    elim (Option-cases (get t k s.working)) [
      | inl n ↦
          let e : call ≡ (s, err resource_not_found) =
            unfold record_selection in ground (arith, n) in
          subst P (sym e) (Ends-stays s)
      | inr (job, n) ↦ elim (Bool-cases (status_eq job.state running)) [
        | inr y ↦
            let e : call ≡ (s, err invalid_transition) =
              unfold record_selection in ground (arith, n, y) in
            subst P (sym e) (Ends-stays s)
        | inl y ↦
            let rows = update_where (is_job t k) (selected now transport platform) s.working in
            let e : call ≡ (record s { working = rows }, ok (get t k rows)) =
              unfold record_selection in ground (arith, n, y) in
            subst P (sym e) (
              inl (
                refl,
                inl (
                    one (
                      updated (is_job t k) (selected now transport platform)
                        (unfold selected in λ r. ground arith)
                        (select-IsGuarded now k t transport platform job s.working n
                          (status_eq_sound job.state running y))
                        refl)),
              ))
      ]
    ]

pub transition-Ended :
    (now : ℕ) (t : String) (k : ℕ) (c : Change) (s : Session)
    → Ended s (transition alone now t k c s)
transition-Ended now t k c s =
    let call = transition alone now t k c s in
    Moved-Ended s call (Outcome-Moved s call (transition-Outcome now t k c s))

-- A job is failed after a rollback: what follows is counted from there.
pub mark_failed-Follows :
    (start : List DiscoveryJobRecord) (now : ℕ) (t : String) (k : ℕ) (code message : String)
    (owner : Option ℕ) (s : Session)
    → Follows start s
    → Follows start (mark_failed_after_rollback alone now t k code message owner s).0
unfolding mark_failed_after_rollback
mark_failed-Follows start now t k code message owner s h =
    let c : Change = record {
      target_state = failed;
      failure_code = some code;
      failure_message = some message;
      require_no_cancellation = true;
      expected_execution_owner = owner;
    } in
    Ends-Follows start (rollback s) (transition alone now t k c (rollback s)).0
      (rollback-Follows start s h) (transition-Ended now t k c (rollback s))
