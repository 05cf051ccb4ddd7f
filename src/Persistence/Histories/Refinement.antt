-- ===== src/Persistence/Histories/Refinement.antt =====
-- Every transaction on the jobs table (backend/app/persistence/discovery_repositories.py) is a step
-- of the row machine.
use network_operations_platf.Common.{
  ℕ, ◌≡◌, refl, sym, ap, subst, Bool, true, String, Option, some, any, ◌==◌, ◌||◌, arith,
  Bool-cases, Option-cases, inl, inr,
}
use network_operations_platf.Discovery.Contracts.{running, failed, status_eq}
use network_operations_platf.Persistence.Tables.{
  alone, DiscoveryJobRecord, Session, rollback, is_job, get,
}
use network_operations_platf.Persistence.Jobs.{
  Result, ok, err, NewJob, Change, create, claim, renew_lease, renewed, is_renewable, transition,
  finalise_cancellation, record_selection, selected, mark_failed_after_rollback,
}
use network_operations_platf.Persistence.Jobs.Creations.{
  Creation, rejects, clashes, makes, create-Creation,
}
use network_operations_platf.Persistence.Jobs.Updates.{status_eq_sound}
use network_operations_platf.Persistence.Steps.{
  close, IsClean, renews_row, Effect, same, updated, added,
}
use network_operations_platf.Persistence.Histories.{
  Op, creates, claims, renews, transitions, finalises, selects, fails, perform,
}
use network_operations_platf.Persistence.Steps.Selections.{select-IsGuarded}
use network_operations_platf.Persistence.Steps.Outcomes.{
  Outcome-Effect, claim-Outcome, transition-Outcome, finalise-Outcome,
}

renew-Effect :
    (now : ℕ) (t : String) (k owner lease : ℕ) (s : Session)
    → s.working ≡ s.committed
    → Effect s.working (perform (renews now t k owner lease) s).committed
unfolding perform renew_lease
renew-Effect now t k owner lease s clean =
    elim (Bool-cases (any (is_renewable t k owner) s.working)) [
      | inl e ↦
          updated (is_renewable t k owner) (renewed now lease) (λ r. ground arith)
            (λ u j r found holds. renews_row now lease (ground arith) (ground arith) refl)
            (ground arith)
      | inr e ↦ same (ground arith)
    ]

select-Effect :
    (now : ℕ) (t : String) (k : ℕ) (transport platform : Option String) (s : Session)
    → s.working ≡ s.committed
    → Effect s.working (perform (selects now t k transport platform) s).committed
unfolding perform record_selection
select-Effect now t k transport platform s clean = elim (Option-cases (get t k s.working)) [
  | inl n ↦ same (ground arith)
  | inr (job, n) ↦ elim (Bool-cases (status_eq job.state running)) [
    | inr y ↦ same (ground arith)
    | inl y ↦
        updated (is_job t k) (selected now transport platform) (λ r. ground arith)
          (select-IsGuarded now k t transport platform job s.working n
            (status_eq_sound job.state running y))
          (ground arith)
  ]
]

rollback_clean : (s : Session) → IsClean s → rollback s ≡ s
unfolding rollback
rollback_clean s clean = ground arith

made-Effect :
    (conflict : Bool) (now : ℕ) (n : NewJob) (s : Session) (q : Session × Result DiscoveryJobRecord)
    → s.working ≡ s.committed
    → Creation (conflict || any (λ r. r.id == n.id) s.working) now n s q
    → Effect s.working (close q).committed
unfolding close
made-Effect conflict now n s q clean (rejects e h) = same (rw h (unfold rollback in sym clean))
made-Effect conflict now n s q clean (clashes h) = same (rw h (unfold rollback in sym clean))
made-Effect conflict now n s q clean (makes fits free h) =
    added now n (ground arith) free (rw h refl)

create-Effect :
    (conflict : Bool) (now : ℕ) (n : NewJob) (s : Session)
    → s.working ≡ s.committed
    → Effect s.working (perform (creates conflict now n) s).committed
create-Effect conflict now n s clean =
    unfold perform in made-Effect conflict now n s _ clean (create-Creation _ now n s)

close-IsClean : {A : Type 0} (q : Session × Result A) → IsClean (close q)
unfolding close
close-IsClean (s, ok a) = (refl, refl)
close-IsClean (s, err e) = (refl, refl)

perform-IsClean : (op : Op) (s : Session) → IsClean (perform op s)
perform-IsClean (creates conflict now n) s =
    unfold perform in close-IsClean (create (conflict || any (λ r. r.id == n.id) s.working) now n s)
perform-IsClean (claims now t k owner lease) s =
    unfold perform in close-IsClean (claim alone now t k owner lease s)
perform-IsClean (renews now t k owner lease) s = unfold perform in (refl, refl)
perform-IsClean (transitions now t k c) s =
    unfold perform in close-IsClean (transition alone now t k c s)
perform-IsClean (finalises now t k owner) s =
    unfold perform in close-IsClean (finalise_cancellation alone now t k owner s)
perform-IsClean (selects now t k transport platform) s =
    unfold perform in close-IsClean (record_selection now t k transport platform s)
perform-IsClean (fails now t k code message owner) s =
    unfold perform in close-IsClean (mark_failed_after_rollback alone now t k code message owner s)

working-Effect : (op : Op) (s : Session) → IsClean s → Effect s.working (perform op s).committed
working-Effect (creates conflict now n) s clean = create-Effect conflict now n s clean.0
working-Effect (claims now t k owner lease) s clean =
    unfold perform in Outcome-Effect s _ clean.0 (claim-Outcome now t k owner lease s)
working-Effect (renews now t k owner lease) s clean = renew-Effect now t k owner lease s clean.0
working-Effect (transitions now t k c) s clean =
    unfold perform in Outcome-Effect s _ clean.0 (transition-Outcome now t k c s)
working-Effect (finalises now t k owner) s clean =
    unfold perform in Outcome-Effect s _ clean.0 (finalise-Outcome now t k owner s)
working-Effect (selects now t k transport platform) s clean =
    select-Effect now t k transport platform s clean.0
working-Effect (fails now t k code message owner) s clean =
    let fail : Change = record {
      target_state = failed;
      failure_code = some code;
      failure_message = some message;
      require_no_cancellation = true;
      expected_execution_owner = owner;
    } in
    let e : mark_failed_after_rollback alone now t k code message owner s
        ≡ transition alone now t k fail s =
      unfold mark_failed_after_rollback in
      ap (transition alone now t k fail) (rollback_clean s clean) in
    unfold perform in rw e (Outcome-Effect s _ clean.0 (transition-Outcome now t k fail s))

-- Every transaction, from any table with nothing pending, commits nothing, or row steps of the row
-- machine, or one new row for a target that has no active job; and leaves nothing pending.
pub perform-Effect :
    (op : Op) (s : Session)
    → IsClean s
    → Effect s.committed (perform op s).committed × IsClean (perform op s)
perform-Effect op s clean = (
  subst (λ rows. Effect rows (perform op s).committed) clean.0 (working-Effect op s clean),
  perform-IsClean op s,
)
