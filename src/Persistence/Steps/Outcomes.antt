-- ===== src/Persistence/Steps/Outcomes.antt =====
-- How the methods of the jobs repository (backend/app/persistence/discovery_repositories.py) that end
-- in one guarded UPDATE come out, and what their transaction does to the table.
use network_operations_platf.Common.{
  ℕ, true, ◌||◌, ◌∙◌, ◌≡◌, refl, sym, subst, Bool, String, Option, some, List, any, is_none, ◌==◌,
  arith, Bool-cases, Option-cases, inl, inr,
}
use network_operations_platf.Discovery.Contracts.{
  DiscoveryJobStatus, cancelled, is_terminal, transition_job, status_eq,
}
use network_operations_platf.Persistence.Tables.{
  alone, DiscoveryJobRecord, Session, rollback, update_where, is_job, get,
}
use network_operations_platf.Persistence.Jobs.{
  DiscoveryPersistenceError, invalid_transition, resource_not_found, protected_discovery_job_id,
  Result, ok, err, Change, NewJob, Ending, ended, is_active, create, claim, claimed, is_claimable,
  transition, changed, may_change, apply_update, finalise_cancellation, cancel_change,
}
use network_operations_platf.Persistence.Jobs.Creations.{
  Creation, rejects, clashes, makes, create-Creation,
}
use network_operations_platf.Persistence.Jobs.Updates.{get_same, status_eq_sound}
use network_operations_platf.Persistence.Steps.{
  close, claims_row, changes_row, KeepsPlace, IsGuarded, ends_row, Effect, same, updated, added,
  stays, one, Moved, Ends-stays, Ends-rollback,
}

apply-Effect :
    (p : DiscoveryJobRecord → Bool) (f : DiscoveryJobRecord → DiscoveryJobRecord) (t : String)
    (k : ℕ) (s : Session)
    → s.working ≡ s.committed
    → KeepsPlace f
    → IsGuarded s.working p f
    → Effect s.working (close (apply_update p f t k s)).committed
unfolding apply_update close
apply-Effect p f t k s clean keeps guarded = elim (Bool-cases (any p s.working)) [
  | inl e ↦ updated p f keeps guarded (ground arith)
  | inr e ↦ same (ground arith)
]

-- How a method ends: with an error and nothing written, with a row and nothing written, or with one
-- guarded UPDATE.
pub data Outcome (s : Session) (q : Session × Result (Option DiscoveryJobRecord)) : Type 0 where
  refuses : (e : DiscoveryPersistenceError) → q ≡ (s, err e) → Outcome s q
  keeps : (a : Option DiscoveryJobRecord) → q ≡ (s, ok a) → Outcome s q
  writes :
      (p : DiscoveryJobRecord → Bool) (f : DiscoveryJobRecord → DiscoveryJobRecord) (t : String)
      (k : ℕ)
      → KeepsPlace f
      → IsGuarded s.working p f
      → q ≡ apply_update p f t k s
      → Outcome s q

pub Outcome-Moved :
    (s : Session) (q : Session × Result (Option DiscoveryJobRecord)) → Outcome s q → Moved s q
unfolding apply_update
Outcome-Moved s q (refuses e h) = rw h (Ends-stays s)
Outcome-Moved s q (keeps a h) = rw h (stays, refl)
Outcome-Moved s q (writes p f t k place guarded h) = elim (Bool-cases (any p s.working)) [
  | inl y ↦
      subst (Moved s)
        (sym (
          let e : q ≡ (
            record s { working = update_where p f s.working },
            ok (get t k (update_where p f s.working)),
          ) =
            ground (arith, h, y) in
          e))
        (one (updated p f place guarded refl), refl)
  | inr n ↦
      subst (Moved s)
        (sym (let e : q ≡ (rollback s, err invalid_transition) = ground (arith, h, n) in e))
        (Ends-rollback s)
]

pub Outcome-Effect :
    (s : Session) (q : Session × Result (Option DiscoveryJobRecord))
    → s.working ≡ s.committed
    → Outcome s q
    → Effect s.working (close q).committed
Outcome-Effect s q clean (refuses e h) = same (unfold close in rw h (sym clean))
Outcome-Effect s q clean (keeps a h) = same (unfold close in rw h refl)
Outcome-Effect s q clean (writes p f t k place guarded h) =
    rw h (apply-Effect p f t k s clean place guarded)

claim-IsGuarded :
    (now owner lease k : ℕ) (t : String) (rows : List DiscoveryJobRecord)
    → IsGuarded rows (is_claimable t k) (claimed now owner lease)
unfolding is_claimable
claim-IsGuarded now owner lease k t rows u j r found holds =
    claims_row now owner lease (ground arith) (ground arith) refl

pub claim-Outcome :
    (now : ℕ) (t : String) (k owner lease : ℕ) (s : Session)
    → Outcome s (claim alone now t k owner lease s)
claim-Outcome now t k owner lease s =
    let step = claim-IsGuarded now owner lease k t s.working in
    let place : KeepsPlace (claimed now owner lease) = unfold claimed in λ r. ground arith in
    unfold claim in
    elim (Bool-cases (k == protected_discovery_job_id)) [
      | inl e ↦ refuses invalid_transition (ground arith)
      | inr e ↦ elim (Bool-cases (lease == 0)) [
        | inl z ↦ refuses invalid_transition (ground arith)
        | inr z ↦ elim (Option-cases (get t k s.working)) [
          | inl n ↦ refuses resource_not_found (ground arith)
          | inr (job, n) ↦
              writes (is_claimable t k) (claimed now owner lease) t k place step (ground arith)
        ]
      ]
    ]

change-IsGuarded :
    (now k : ℕ) (t : String) (c : Change) (job : DiscoveryJobRecord)
    (rows : List DiscoveryJobRecord)
    → transition_job job.state c.target_state ≡ some c.target_state
    → IsGuarded rows (may_change t k job.state c) (changed now c)
unfolding may_change
change-IsGuarded now k t c job rows legal u j r found holds =
    let same_state = status_eq_sound r.state job.state (ground arith) in
    changes_row now c (rw same_state legal) refl

transition_self :
    (a b u : DiscoveryJobStatus) → transition_job a b ≡ some u → transition_job a b ≡ some b
unfolding transition_job
transition_self a b u h = ground arith

pub transition-Outcome :
    (now : ℕ) (t : String) (k : ℕ) (c : Change) (s : Session)
    → Outcome s (transition alone now t k c s)
transition-Outcome now t k c s =
    let place : KeepsPlace (changed now c) = unfold changed in λ r. ground arith in
    elim (Option-cases (get t k s.working)) [
      | inl n ↦ refuses resource_not_found (unfold transition in ground arith)
      | inr (job, n) ↦ elim (Option-cases (transition_job job.state c.target_state)) [
        | inl z ↦ refuses invalid_transition (unfold transition in ground arith)
        | inr (u, z) ↦
            writes (may_change t k job.state c) (changed now c) t k place
              (change-IsGuarded now k t c job s.working
                (transition_self job.state c.target_state u z))
              (unfold transition in ground arith)
      ]
    ]

pub finalise-Outcome :
    (now : ℕ) (t : String) (k : ℕ) (owner : Option ℕ) (s : Session)
    → Outcome s (finalise_cancellation alone now t k owner s)
finalise-Outcome now t k owner s = elim (Option-cases (get t k s.working)) [
  | inl n ↦ refuses resource_not_found (unfold finalise_cancellation in ground arith)
  | inr (job, n) ↦ elim (Bool-cases (status_eq job.state cancelled)) [
    | inl y ↦ keeps (some job) (unfold finalise_cancellation in ground arith)
    | inr y ↦ elim (Bool-cases (is_none job.cancellation_requested_at)) [
      | inl z ↦ refuses invalid_transition (unfold finalise_cancellation in ground arith)
      | inr z ↦
          let e : finalise_cancellation alone now t k owner s
              ≡ transition alone now t k (cancel_change job owner) s =
            unfold finalise_cancellation in ground arith in
          subst (Outcome s) (sym e) (transition-Outcome now t k (cancel_change job owner) s)
    ]
  ]
]

-- An active row that is known by its key may be ended.
pub ended-IsGuarded :
    (e : Ending) (t : String) (k : ℕ) (rows : List DiscoveryJobRecord) (job : DiscoveryJobRecord)
    → get t k rows ≡ some job
    → is_active job.state ≡ true
    → is_terminal e.state ≡ true
    → IsGuarded rows (is_job t k) (ended e)
ended-IsGuarded e t k rows job here active over u j r found holds =
    let same_row : some r ≡ some job = sym (get_same u t j k rows r found holds) ∙ here in
    ends_row e (ground (arith, same_row)) over refl

pub ended-KeepsPlace : (e : Ending) → KeepsPlace (ended e)
unfolding ended
ended-KeepsPlace e r = (refl, refl, refl)

made-Moved :
    (conflict : Bool) (now : ℕ) (n : NewJob) (s : Session) (q : Session × Result DiscoveryJobRecord)
    → Creation (conflict || any (λ r. r.id == n.id) s.working) now n s q
    → Moved s q
made-Moved conflict now n s q (rejects e h) = rw h (Ends-stays s)
made-Moved conflict now n s q (clashes h) = rw h (Ends-rollback s)
made-Moved conflict now n s q (makes fits free h) =
    rw h (one (added now n (ground arith) free refl), refl)

pub create-Moved :
    (conflict : Bool) (now : ℕ) (n : NewJob) (s : Session)
    → Moved s (create (conflict || any (λ r. r.id == n.id) s.working) now n s)
create-Moved conflict now n s = made-Moved conflict now n s _ (create-Creation _ now n s)
