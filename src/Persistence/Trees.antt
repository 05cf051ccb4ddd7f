-- ===== src/Persistence/Trees.antt =====
-- The methods of `DiscoveryJobRepository` (backend/app/persistence/discovery_repositories.py) that
-- stop a job and the tree of its child jobs: cancellation by an operator, and the end of a job whose
-- worker is gone. They hand the children over to `reconcile_parent_job` of backend/app/discovery/
-- fanout.py. `synchronised` says whether an UPDATE also changes the objects that the session holds, as
-- SQLAlchemy's `synchronize_session` does unless it is switched off.
pub mod Moves
pub mod Cancellation
pub mod Stale
pub mod Owned
mod Examples
use network_operations_platf.Common.{
  ℕ, ltb, leb, Bool, true, false, String, Option, none, some, List, [], ◌∷◌, any, keep, first, map,
  str_eq, is_none, opt_eq, not, ◌==◌, ◌&&◌, ◌||◌, if◌then◌else◌,
}
use network_operations_platf.Discovery.Contracts.{
  DiscoveryJobStatus, queued, running, failed, cancelled, is_terminal, status_eq,
}
use network_operations_platf.Discovery.Scopes.{IpAddress}
use network_operations_platf.Discovery.Fanout.{Fresh, reconcile_parent_job}
use network_operations_platf.Persistence.Tables.{
  DiscoveryJobRecord, TargetRow, ip_range, cidr_network, Session, alone, rollback, interleave,
  update_where, is_job, get,
}
use network_operations_platf.Persistence.Jobs.{
  DiscoveryPersistenceError, resource_not_found, cancellation_conflict, Result, and_then, ok, err,
  Change, Ending, ended, requested, reason_or_default, is_active, protected_discovery_job_id,
  transition, cancellation_requested,
}

-- The target is a range or a network.
unfoldable pub has_children : Option TargetRow → Bool
has_children none = false
has_children (some t) = elim t.scope_type [ ip_range ↦ true | cidr_network ↦ true | _ ↦ false ]

unfoldable pub target_of : DiscoveryJobRecord → Session → Option TargetRow
target_of job s = first (λ t. t.id == job.target_id) s.others.targets

-- What a method returns after its last `reconcile_parent_job`.
unfoldable pub after : {A B : Type 0} → (Session → B) → Session × Result A → Session × Result B
unfolding and_then
after f q = and_then q (λ a s. (s, ok (f s)))

-- The UPDATE of a request: a queued job is cancelled at once.
pub request_values : ℕ → ℕ → String → DiscoveryJobRecord → DiscoveryJobRecord → DiscoveryJobRecord
unfolding requested ended
request_values now by reason job r =
    if status_eq job.state queued
    then ended
        (record {
          state = cancelled;
          failure_code = "CANCELLED";
          failure_message = reason;
          now = now;
        })
        (requested now by reason r)
    else requested now by reason r

-- The row still has the state that was read.
has_state : String → ℕ → DiscoveryJobStatus → DiscoveryJobRecord → Bool
has_state tenant_id job_id state r = is_job tenant_id job_id r && status_eq r.state state

-- After an UPDATE that found no row.
already_cancelled : String → ℕ → Session → Session × Result (Option DiscoveryJobRecord × Bool)
unfolding rollback get
already_cancelled tenant_id job_id s = elim (get tenant_id job_id (rollback s).working) [
  | none ↦ (rollback s, err cancellation_conflict)
  | some current ↦
      if status_eq current.state cancelled
      then (rollback s, ok (some current, false))
      else (rollback s, err cancellation_conflict)
]

-- The object that was read, after an UPDATE: the session may have given it what the UPDATE wrote.
refreshed : Bool → String → DiscoveryJobRecord → Session → DiscoveryJobRecord
unfolding get
refreshed false tenant_id job s = job
refreshed true tenant_id job s = elim (get tenant_id job.id s.working) [
  | none ↦ job
  | some current ↦ current
]

module _ (ip : IpAddress) (synchronised : Bool) where
  -- The children of a queued job that was cancelled, and the answer.
  request_children :
      ℕ
      → (ℕ → Fresh)
      → String
      → DiscoveryJobRecord
      → Session
      → Session × Result (Option DiscoveryJobRecord × Bool)
  unfolding has_children target_of refreshed reconcile_parent_job get after
  request_children now fresh tenant_id job s =
      if has_children (target_of job s)
        && status_eq (refreshed synchronised tenant_id job s).state queued
      then after (λ q. (get tenant_id job.id q.working, true))
          (reconcile_parent_job ip now fresh tenant_id job.id false 4096 s)
      else (s, ok (get tenant_id job.id s.working, true))

  request_update :
      (List DiscoveryJobRecord → List DiscoveryJobRecord)
      → ℕ
      → (ℕ → Fresh)
      → String
      → ℕ
      → String
      → DiscoveryJobRecord
      → Session
      → Session × Result (Option DiscoveryJobRecord × Bool)
  unfolding has_state request_values interleave update_where already_cancelled request_children
  request_update meanwhile now fresh tenant_id by reason job s =
      let seen = interleave meanwhile s in
      let guard = has_state tenant_id job.id job.state in
      if any guard seen.working
      then request_children now fresh tenant_id job (record seen {
        working = update_where guard (request_values now by reason job) seen.working;
      })
      else already_cancelled tenant_id job.id seen

  unfoldable pub request_cancellation :
      (List DiscoveryJobRecord → List DiscoveryJobRecord)
      → ℕ
      → (ℕ → Fresh)
      → String
      → ℕ
      → ℕ
      → String
      → Session
      → Session × Result (Option DiscoveryJobRecord × Bool)
  unfolding request_update get
  request_cancellation meanwhile now fresh tenant_id job_id by reason s =
      elim (get tenant_id job_id s.working) [
        | none ↦ (s, err resource_not_found)
        | some job ↦
            if is_terminal job.state
            then if status_eq job.state cancelled
              then (s, ok (some job, false))
              else (s, err cancellation_conflict)
            else if not (is_none job.cancellation_requested_at)
            then (s, ok (some job, false))
            else request_update meanwhile now fresh tenant_id by reason job s
      ]
