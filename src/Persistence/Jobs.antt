-- ===== src/Persistence/Jobs.antt =====
-- `DiscoveryJobRepository` of backend/app/persistence/discovery_repositories.py: creating, claiming,
-- renewing, transitioning and inspecting durable discovery jobs. `meanwhile` is what other sessions
-- commit between the read and the UPDATE of a method; `now` is the clock reading.
mod Rows
pub mod Updates
pub mod Creations
pub mod Claims
pub mod Leases
pub mod Settled
mod Examples
unfoldable pub use Rows.*
use network_operations_platf.Common.{
  ℕ, ◌+◌, ◌<◌, ltb, Bool, true, false, String, Option, none, some, List, [], ◌∷◌, ◌++◌, any, keep,
  first, map, take, str_eq, is_none, opt_eq, or_else, not, ◌==◌, ◌&&◌, ◌||◌, if◌then◌else◌,
}
use network_operations_platf.Discovery.Contracts.{
  DiscoveryJobStatus, queued, running, failed, cancelled, is_terminal, status_eq, transition_job,
}
use network_operations_platf.Persistence.Tables.{
  DiscoveryJobRecord, TargetRow, RunRow, Session, rollback, interleave, update_where, is_job, get,
}

-- `conflict` says that the flush violates a constraint of the database.
unfoldable pub create : Bool → ℕ → NewJob → Session → Session × Result DiscoveryJobRecord
unfolding target_found run_found new_record is_active_for rollback
create conflict now n s =
    if not (target_found n.tenant_id (first (λ t. t.id == n.target_id) s.others.targets))
    then (s, err resource_not_found)
    else if not (run_found n.tenant_id (first (λ r. r.id == n.run_id) s.others.runs))
    then (s, err resource_not_found)
    else if any (is_active_for n.tenant_id n.target_id) s.working
    then (s, err duplicate_active)
    else if conflict
    then (rollback s, err duplicate_active)
    else (record s { working = s.working ++ new_record now n ∷ [] }, ok (new_record now n))

-- `list_queued_roots`, over the rows in the order of their requests.
pub list_queued_roots : ℕ → List DiscoveryJobRecord → List (String × ℕ)
list_queued_roots limit rows =
    map (λ r. (r.tenant_id, r.id))
      (take limit (
        keep
          (λ r.
            status_eq r.state queued
            && (is_none r.parent_job_id
                && (not (r.id == protected_discovery_job_id)
                    && (is_none r.execution_owner
                        && (is_none r.lease_expires_at && is_none r.last_heartbeat_at)))))
          rows))

-- The outcome of an UPDATE … RETURNING that must have found a row, or else rolls back.
unfoldable pub apply_update :
    (DiscoveryJobRecord → Bool)
    → (DiscoveryJobRecord → DiscoveryJobRecord)
    → String
    → ℕ
    → Session
    → Session × Result (Option DiscoveryJobRecord)
unfolding rollback update_where get
apply_update where_ values tenant_id job_id s =
    if any where_ s.working
    then (
      record s { working = update_where where_ values s.working },
      ok (get tenant_id job_id (update_where where_ values s.working)),
    )
    else (rollback s, err invalid_transition)

-- A lease is a number of microseconds; the owner is chosen by the caller.
unfoldable pub claim :
    (List DiscoveryJobRecord → List DiscoveryJobRecord)
    → ℕ
    → String
    → ℕ
    → ℕ
    → ℕ
    → Session
    → Session × Result (Option DiscoveryJobRecord)
unfolding is_claimable claimed apply_update interleave get
claim meanwhile now tenant_id job_id owner lease s =
    if job_id == protected_discovery_job_id
    then (s, err invalid_transition)
    else if lease == 0
    then (s, err invalid_transition)
    else elim (get tenant_id job_id s.working) [
      | none ↦ (s, err resource_not_found)
      | some job ↦
          apply_update (is_claimable tenant_id job_id) (claimed now owner lease) tenant_id job_id
            (interleave meanwhile s)
    ]

-- The root job and the children that run under the same owner.
unfoldable pub renew_lease : ℕ → String → ℕ → ℕ → ℕ → Session → Session × Bool
unfolding is_renewable renewed update_where rollback
renew_lease now tenant_id job_id owner lease s =
    if any (is_renewable tenant_id job_id owner) s.working
    then (
      record s {
        working = update_where (is_renewable tenant_id job_id owner) (renewed now lease) s.working;
      },
      true,
    )
    else (rollback s, false)

unfoldable pub transition :
    (List DiscoveryJobRecord → List DiscoveryJobRecord)
    → ℕ
    → String
    → ℕ
    → Change
    → Session
    → Session × Result (Option DiscoveryJobRecord)
unfolding may_change changed apply_update interleave get
transition meanwhile now tenant_id job_id c s = elim (get tenant_id job_id s.working) [
  | none ↦ (s, err resource_not_found)
  | some job ↦ elim (transition_job job.state c.target_state) [
    | none ↦ (s, err invalid_transition)
    | some _ ↦
        apply_update (may_change tenant_id job_id job.state c) (changed now c) tenant_id job_id
          (interleave meanwhile s)
  ]
]

unfoldable pub cancellation_requested : String → ℕ → Session → Bool
unfolding get
cancellation_requested tenant_id job_id s = elim (get tenant_id job_id s.working) [
  | none ↦ false
  | some r ↦ not (is_none r.cancellation_requested_at) || status_eq r.state cancelled
]

unfoldable pub finalise_cancellation :
    (List DiscoveryJobRecord → List DiscoveryJobRecord)
    → ℕ
    → String
    → ℕ
    → Option ℕ
    → Session
    → Session × Result (Option DiscoveryJobRecord)
unfolding cancel_change transition
finalise_cancellation meanwhile now tenant_id job_id owner s =
    elim (get tenant_id job_id s.working) [
      | none ↦ (s, err resource_not_found)
      | some job ↦
          if status_eq job.state cancelled
          then (s, ok (some job))
          else if is_none job.cancellation_requested_at
          then (s, err invalid_transition)
          else transition meanwhile now tenant_id job_id (cancel_change job owner) s
    ]

unfoldable pub record_selection :
    ℕ
    → String
    → ℕ
    → Option String
    → Option String
    → Session
    → Session × Result (Option DiscoveryJobRecord)
unfolding selected update_where get
record_selection now tenant_id job_id transport platform s = elim (get tenant_id job_id s.working) [
  | none ↦ (s, err resource_not_found)
  | some job ↦
      if not (status_eq job.state running)
      then (s, err invalid_transition)
      else (let rows =
            update_where (is_job tenant_id job_id) (selected now transport platform) s.working in
          (record s { working = rows }, ok (get tenant_id job_id rows)))
]

unfoldable pub mark_failed_after_rollback :
    (List DiscoveryJobRecord → List DiscoveryJobRecord)
    → ℕ
    → String
    → ℕ
    → String
    → String
    → Option ℕ
    → Session
    → Session × Result (Option DiscoveryJobRecord)
unfolding transition
mark_failed_after_rollback meanwhile now tenant_id job_id code message owner s =
    transition meanwhile now tenant_id job_id
      (record {
        target_state = failed;
        failure_code = some code;
        failure_message = some message;
        require_no_cancellation = true;
        expected_execution_owner = owner;
      })
      (rollback s)

pub recover_expired_owned_jobs : ℕ → List DiscoveryJobRecord → List (String × ℕ)
unfolding lease_expired
recover_expired_owned_jobs stale_before rows =
    map (λ r. (r.tenant_id, r.id)) (keep (lease_expired stale_before) rows)
