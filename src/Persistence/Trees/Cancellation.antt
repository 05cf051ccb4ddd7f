-- ===== src/Persistence/Trees/Cancellation.antt =====
-- What a cancellation by an operator (`request_cancellation` of backend/app/persistence/
-- discovery_repositories.py) prevents.
pub mod Running
use network_operations_platf.Common.{
  ℕ, ◌≡◌, refl, sym, ap, subst, ◌∙◌, Bool, true, false, String, Option, none, some, any, is_none,
  not, str_eq, str_eq_refl, ==_refl, ==_iff, ◌==◌, ◌&&◌, arith, Bool-cases, inl, inr, List, [], ◌∷◌,
  eq_iff, if◌then◌else◌,
}
use network_operations_platf.Discovery.Contracts.{
  DiscoveryJobStatus, queued, running, cancelled, succeeded, is_terminal, status_eq, transition_job,
  allowed_transitions,
}
use network_operations_platf.Discovery.Scopes.{IpAddress}
use network_operations_platf.Discovery.Fanout.{Fresh}
use network_operations_platf.Persistence.Tables.{
  DiscoveryJobRecord, Session, alone, rollback, interleave, update_where, is_job, get,
}
use network_operations_platf.Persistence.Jobs.{
  DiscoveryPersistenceError, invalid_transition, Result, ok, err, Ending, ended, requested, Change,
  claim, is_claimable, claimed, apply_update, transition, may_change, changed,
  finalise_cancellation, protected_discovery_job_id,
}
use network_operations_platf.Persistence.Trees.Moves.{request-KeepsPlace}
use network_operations_platf.Persistence.Jobs.Claims.{claim-fails}
use network_operations_platf.Persistence.Jobs.Updates.{
  get-is_job, get-update_where, any-get, HasUniqueIds, update_where-HasUniqueIds,
}
use network_operations_platf.Persistence.Trees.{
  has_state, request_values, refreshed, request_children, request_update, request_cancellation,
}

get-any :
    (p : DiscoveryJobRecord → Bool) (t : String) (k : ℕ) (rows : List DiscoveryJobRecord)
    (r : DiscoveryJobRecord)
    → get t k rows ≡ some r
    → p r ≡ true
    → any p rows ≡ true
unfolding get
get-any p t k [] r here h = ground (arith, here)
get-any p t k (q ∷ rs) r here h = ground (arith, get-any p t k rs r, here, h)

-- The session after the UPDATE of a request.
abbrev after_request : ℕ → ℕ → String → String → DiscoveryJobRecord → Session → Session
after_request now by reason t job s = record s {
  working =
      update_where (has_state t job.id job.state) (request_values now by reason job) s.working;
}

state_refl : (a : DiscoveryJobStatus) → status_eq a a ≡ true
state_refl a = ground arith

own_state :
    (t : String) (k : ℕ) (rows : List DiscoveryJobRecord) (job : DiscoveryJobRecord)
    → get t k rows ≡ some job
    → (job.id ≡ k) × (has_state t job.id job.state job ≡ true)
unfolding has_state
own_state t k rows job here =
    let (same_id, same_tenant) = get-is_job t k rows job here in
    (
      same_id,
      ground (arith, ==_refl job.id, (eq_iff job.tenant_id t).1 same_tenant, state_refl job.state),
    )

-- The row of the job after the UPDATE.
request-row :
    (now by : ℕ) (reason t : String) (k : ℕ) (job : DiscoveryJobRecord) (s : Session)
    → get t k s.working ≡ some job
    → get t k (after_request now by reason t job s).working
      ≡ some (request_values now by reason job job)
request-row now by reason t k job s here =
    let place = request-KeepsPlace now by reason job in
    let (same_id, own) = own_state t k s.working job here in
    get-update_where t k (has_state t job.id job.state) (request_values now by reason job) s.working
      (λ q. ((place q).0, (place q).1))
    ∙ ground (arith, here, own)

-- An active job that nobody has asked to stop, whose children are not at stake.
request_alone :
    (ip : IpAddress) (sync : Bool) (now : ℕ) (fresh : ℕ → Fresh) (t : String) (k by : ℕ)
    (reason : String) (s : Session) (job : DiscoveryJobRecord)
    → get t k s.working ≡ some job
    → is_terminal job.state ≡ false
    → job.cancellation_requested_at ≡ none
    → status_eq (refreshed sync t job (after_request now by reason t job s)).state queued ≡ false
    → request_cancellation ip sync alone now fresh t k by reason s ≡ (
      after_request now by reason t job s,
      ok (some (request_values now by reason job job), true),
    )
unfolding request_cancellation request_update request_children
request_alone ip sync now fresh t k by reason s job here going unasked childless =
    let (same_id, own) = own_state t k s.working job here in
    let hit = get-any (has_state t job.id job.state) t k s.working job here own in
    let row =
      subst
        (λ i.
          get t i (after_request now by reason t job s).working
          ≡ some (request_values now by reason job job))
        (sym same_id) (request-row now by reason t k job s here) in
    ground (arith, here, going, unasked, hit, row, childless)

request-unclaimable :
    (now by : ℕ) (reason t : String) (k : ℕ) (job : DiscoveryJobRecord)
    (rows : List DiscoveryJobRecord)
    → job.state ≡ queued
    → any
        (is_claimable t k)
        (update_where (has_state t k job.state) (request_values now by reason job) rows)
      ≡ false
unfolding update_where
request-unclaimable now by reason t k job [] waits = refl
request-unclaimable now by reason t k job (r ∷ rs) waits =
    let rest = request-unclaimable now by reason t k job rs waits in
    let row : is_claimable t k
          (if has_state t k job.state r then request_values now by reason job r else r)
        ≡ false =
      unfold is_claimable has_state request_values ended requested in ground (arith, waits) in
    ground (arith, rest, row)

-- How a queued job ends when an operator cancels it.
abbrev pub stopped : ℕ → String → Ending
stopped now reason = record {
  state = cancelled;
  failure_code = "CANCELLED";
  failure_message = reason;
  now = now;
}

-- In a session whose objects an UPDATE changes: the cancellation of a queued job that nobody has
-- asked to stop answers with the job, cancelled; it leaves targets, runs and results as they are,
-- whatever the scope of the job's target; and every later claim of the job fails.
pub queued_cancelled :
    (ip : IpAddress) (now : ℕ) (fresh : ℕ → Fresh) (t : String) (k by : ℕ) (reason : String)
    (s : Session) (job : DiscoveryJobRecord)
    → get t k s.working ≡ some job
    → job.state ≡ queued
    → job.cancellation_requested_at ≡ none
    → ((request_cancellation ip true alone now fresh t k by reason s).1
        ≡ ok (some (ended (stopped now reason) (requested now by reason job)), true))
      × ((request_cancellation ip true alone now fresh t k by reason s).0.others ≡ s.others)
      × ((later owner lease : ℕ)
          → (e : DiscoveryPersistenceError) × ((claim alone later t k owner lease
                (request_cancellation ip true alone now fresh t k by reason s).0).1
              ≡ err e))
queued_cancelled ip now fresh t k by reason s job here waits unasked =
    let (same_id, own) = own_state t k s.working job here in
    let next = after_request now by reason t job s in
    let row : get t job.id next.working ≡ some (request_values now by reason job job) =
      subst (λ i. get t i next.working ≡ some (request_values now by reason job job)) (sym same_id)
        (request-row now by reason t k job s here) in
    let values : request_values now by reason job job
        ≡ ended (stopped now reason) (requested now by reason job) =
      unfold request_values in ground (arith, waits) in
    let seen : refreshed true t job next ≡ request_values now by reason job job =
      unfold refreshed in ground (arith, row) in
    let childless : status_eq (refreshed true t job next).state queued ≡ false =
      subst (λ r. status_eq r.state queued ≡ false) (sym (seen ∙ values)) (unfold ended in refl) in
    let e =
      request_alone ip true now fresh t k by reason s job here (ground (arith, waits)) unasked
        childless in
    let P : Session × Result (Option DiscoveryJobRecord × Bool) → Type 0 = λ q.
      (q.1 ≡ ok (some (ended (stopped now reason) (requested now by reason job)), true))
      × (q.0.others ≡ s.others)
      × ((later owner lease : ℕ)
          → (e : DiscoveryPersistenceError) × ((claim alone later t k owner lease q.0).1
              ≡ err e)) in
    subst P (sym e) (
      ap (λ r. ok (some r, true)) values,
      refl,
      λ later owner lease. claim-fails alone later t k owner lease next (
          subst
            (λ i.
              any (is_claimable t k) (
                update_where (has_state t i job.state) (request_values now by reason job) s.working)
              ≡ false)
            (sym same_id) (request-unclaimable now by reason t k job s.working waits)),
    )
