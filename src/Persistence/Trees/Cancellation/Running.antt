-- ===== src/Persistence/Trees/Cancellation/Running.antt =====
-- A running job that an operator asked to stop (backend/app/persistence/discovery_repositories.py):
-- how it can still end.
use network_operations_platf.Common.{
  ℕ, ◌≡◌, refl, sym, ap, subst, ◌∙◌, ◌⊎◌, Bool, true, false, String, Option, none, some, List, [],
  ◌∷◌, any, is_none, ==_refl, arith, Bool-cases, Option-cases, inl, inr, if◌then◌else◌,
}
use network_operations_platf.Discovery.Contracts.{
  queued, running, cancelled, status_eq, transition_job, allowed_transitions,
}
use network_operations_platf.Discovery.Scopes.{IpAddress}
use network_operations_platf.Discovery.Fanout.{Fresh}
use network_operations_platf.Persistence.Tables.{
  DiscoveryJobRecord, Session, alone, interleave, update_where, is_job, get,
}
use network_operations_platf.Persistence.Jobs.{
  invalid_transition, Result, ok, err, requested, Change, apply_update, transition, may_change,
  changed, cancel_change, finalise_cancellation,
}
use network_operations_platf.Persistence.Jobs.Updates.{get-update_where}
use network_operations_platf.Persistence.Trees.{
  has_state, request_values, refreshed, request_cancellation,
}
use network_operations_platf.Persistence.Trees.Cancellation.{
  after_request, own_state, request-row, request_alone, get-any,
}

request-unchangeable :
    (now by : ℕ) (reason t : String) (k : ℕ) (c : Change) (job : DiscoveryJobRecord)
    (rows : List DiscoveryJobRecord)
    → job.state ≡ running
    → c.require_no_cancellation ≡ true
    → any
        (may_change t k running c)
        (update_where (has_state t k job.state) (request_values now by reason job) rows)
      ≡ false
unfolding update_where
request-unchangeable now by reason t k c job [] runs strict = refl
request-unchangeable now by reason t k c job (r ∷ rs) runs strict =
    let rest = request-unchangeable now by reason t k c job rs runs strict in
    let row : may_change t k running c
          (if has_state t k job.state r then request_values now by reason job r else r)
        ≡ false =
      unfold may_change has_state request_values requested in ground (arith, runs, strict) in
    ground (arith, rest, row)

-- A transition of a running job that no row allows.
no_change :
    (later : ℕ) (t : String) (k : ℕ) (c : Change) (s : Session) (job : DiscoveryJobRecord)
    → get t k s.working ≡ some job
    → job.state ≡ running
    → any (may_change t k running c) s.working ≡ false
    → (transition alone later t k c s).1 ≡ err invalid_transition
unfolding transition apply_update interleave
no_change later t k c s job here runs free =
    elim (Option-cases (transition_job job.state c.target_state)) [
      | inl n ↦ ground (arith, here, n)
      | inr (u, n) ↦ ground (arith, here, n, runs, free)
    ]

running_cancels : transition_job running cancelled ≡ some cancelled
unfolding transition_job allowed_transitions
running_cancels = refl

-- The final cancellation of a running job that was asked to stop.
finalised :
    (later : ℕ) (t : String) (k : ℕ) (owner : Option ℕ) (s : Session) (job : DiscoveryJobRecord)
    → get t k s.working ≡ some job
    → job.state ≡ running
    → is_none job.cancellation_requested_at ≡ false
    → may_change t k running (cancel_change job owner) job ≡ true
    → (finalise_cancellation alone later t k owner s).1
      ≡ ok (some (changed later (cancel_change job owner) job))
unfolding finalise_cancellation transition apply_update interleave
finalised later t k owner s job here runs asked allowed =
    let c = cancel_change job owner in
    let place : (r : DiscoveryJobRecord)
        → ((changed later c r).id ≡ r.id) × ((changed later c r).tenant_id ≡ r.tenant_id) =
      unfold changed in λ r. (refl, refl) in
    let hit = get-any (may_change t k running c) t k s.working job here allowed in
    let row : get t k (update_where (may_change t k running c) (changed later c) s.working)
        ≡ some (changed later c job) =
      get-update_where t k (may_change t k running c) (changed later c) s.working place
      ∙ ground (arith, here, allowed) in
    let to : c.target_state ≡ cancelled = unfold cancel_change in refl in
    ground (arith, here, runs, asked, hit, row, to, running_cancels)

-- The request of a running job.
request_running :
    (ip : IpAddress) (sync : Bool) (now : ℕ) (fresh : ℕ → Fresh) (t : String) (k by : ℕ)
    (reason : String) (s : Session) (job : DiscoveryJobRecord)
    → get t k s.working ≡ some job
    → job.state ≡ running
    → job.cancellation_requested_at ≡ none
    → (request_cancellation ip sync alone now fresh t k by reason s
        ≡ (after_request now by reason t job s, ok (some (requested now by reason job), true)))
      × (get t k (after_request now by reason t job s).working ≡ some (requested now by reason job))
request_running ip sync now fresh t k by reason s job here runs unasked =
    let (same_id, own) = own_state t k s.working job here in
    let next = after_request now by reason t job s in
    let values : request_values now by reason job job ≡ requested now by reason job =
      unfold request_values in ground (arith, runs) in
    let row = request-row now by reason t k job s here ∙ ap some values in
    let row' =
      subst (λ i. get t i next.working ≡ some (requested now by reason job)) (sym same_id) row in
    let runs' : (requested now by reason job).state ≡ running = unfold requested in runs in
    let childless : status_eq (refreshed sync t job next).state queued ≡ false =
      elim (Bool-cases sync) [
        | inl y ↦ unfold refreshed in ground (arith, y, row', runs')
        | inr n ↦ unfold refreshed in ground (arith, n, runs)
      ] in
    (
      request_alone ip sync now fresh t k by reason s job here (ground (arith, runs)) unasked
            childless
          ∙ ap (λ r. (next, ok (some r, true))) values,
      row,
    )

may_finalise :
    (now by : ℕ) (reason t : String) (k : ℕ) (job : DiscoveryJobRecord) (owner : Option ℕ)
    → is_job t k job ≡ true
    → job.state ≡ running
    → (owner ≡ none) ⊎ ((w : ℕ) × (owner ≡ some w) × (job.execution_owner ≡ some w))
    → may_change t k running
        (cancel_change (requested now by reason job) owner)
        (requested now by reason job)
      ≡ true
unfolding may_change cancel_change requested
may_finalise now by reason t k job owner holds runs (inl e) = ground (arith, holds, runs, e)
may_finalise now by reason t k job owner holds runs (inr (w, e, owned)) =
    ground (arith, holds, runs, e, owned, ==_refl w)

-- The request to stop a running job that nobody has asked to stop answers with the job, still running.
-- In the session that it leaves, every transition of the job that requires that no cancellation was
-- asked for fails; and the worker that owns it, or any caller that names no owner, finalises the
-- cancellation, which leaves the job cancelled and without an owner.
pub running_asked :
    (ip : IpAddress) (sync : Bool) (now : ℕ) (fresh : ℕ → Fresh) (t : String) (k by : ℕ)
    (reason : String) (s : Session) (job : DiscoveryJobRecord)
    → get t k s.working ≡ some job
    → job.state ≡ running
    → job.cancellation_requested_at ≡ none
    → ((request_cancellation ip sync alone now fresh t k by reason s).1
        ≡ ok (some (requested now by reason job), true))
      × ((later : ℕ) (c : Change)
          → c.require_no_cancellation ≡ true
          → (transition alone later t k c
              (request_cancellation ip sync alone now fresh t k by reason s).0).1
            ≡ err invalid_transition)
      × ((later : ℕ) (owner : Option ℕ)
          → (owner ≡ none) ⊎ ((w : ℕ) × (owner ≡ some w) × (job.execution_owner ≡ some w))
          → (r : DiscoveryJobRecord) × ((finalise_cancellation alone later t k owner
                (request_cancellation ip sync alone now fresh t k by reason s).0).1
              ≡ ok (some r))
            × (r.state ≡ cancelled)
            × (r.execution_owner ≡ none))
running_asked ip sync now fresh t k by reason s job here runs unasked =
    let next = after_request now by reason t job s in
    let (e, row) = request_running ip sync now fresh t k by reason s job here runs unasked in
    let (same_id, own) = own_state t k s.working job here in
    let runs' : (requested now by reason job).state ≡ running = unfold requested in runs in
    let asked : is_none (requested now by reason job).cancellation_requested_at ≡ false =
      unfold requested in refl in
    let P : Session × Result (Option DiscoveryJobRecord × Bool) → Type 0 = λ q.
      (q.1 ≡ ok (some (requested now by reason job), true))
      × ((later : ℕ) (c : Change)
          → c.require_no_cancellation ≡ true
          → (transition alone later t k c q.0).1 ≡ err invalid_transition)
      × ((later : ℕ) (owner : Option ℕ)
          → (owner ≡ none) ⊎ ((w : ℕ) × (owner ≡ some w) × (job.execution_owner ≡ some w))
          → (r : DiscoveryJobRecord) × ((finalise_cancellation alone later t k owner q.0).1
              ≡ ok (some r))
            × (r.state ≡ cancelled)
            × (r.execution_owner ≡ none)) in
    subst P (sym e) (
      refl,
      λ later c strict. no_change later t k c next (requested now by reason job) row runs' (
          subst
            (λ i.
              any (may_change t k running c) (
                update_where (has_state t i job.state) (request_values now by reason job) s.working)
              ≡ false)
            (sym same_id) (request-unchangeable now by reason t k c job s.working runs strict)),
      λ later owner who. (
        changed later (cancel_change (requested now by reason job) owner)
            (requested now by reason job),
        finalised later t k owner next (requested now by reason job) row runs' asked (
            may_finalise now by reason t k job owner
              (unfold has_state in ground (arith, own, same_id)) runs who),
        unfold changed cancel_change in refl,
        unfold changed cancel_change in refl,
      ),
    )
