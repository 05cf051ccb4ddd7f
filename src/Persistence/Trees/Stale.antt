-- ===== src/Persistence/Trees/Stale.antt =====
-- `resolve_stale_cancellation` of backend/app/persistence/discovery_repositories.py: the cancellation
-- of a running job that no worker holds any more.
pub mod Moves
use network_operations_platf.Common.{
  ℕ, ltb, leb, Bool, true, false, String, Option, none, some, List, [], ◌∷◌, any, keep, map, str_eq,
  is_none, opt_eq, not, ◌==◌, ◌&&◌, ◌||◌, if◌then◌else◌,
}
use network_operations_platf.Discovery.Contracts.{running, cancelled, is_terminal, status_eq}
use network_operations_platf.Discovery.Scopes.{IpAddress}
use network_operations_platf.Discovery.Fanout.{Fresh, reconcile_parent_job}
use network_operations_platf.Persistence.Tables.{
  DiscoveryJobRecord, Session, rollback, interleave, update_where, is_job, get,
}
use network_operations_platf.Persistence.Jobs.{
  resource_not_found, cancellation_conflict, Result, ok, err, Ending, ended, reason_or_default,
}
use network_operations_platf.Persistence.Trees.{has_children, target_of, after}

-- A worker holds the job: it has an owner and a lease that has not ended.
held : ℕ → DiscoveryJobRecord → Bool
held now r =
    not (is_none r.execution_owner)
    && elim r.lease_expires_at [ none ↦ false | some lease ↦ ltb now lease ]

unfoldable pub is_resolvable : ℕ → String → ℕ → DiscoveryJobRecord → Bool
unfolding held
is_resolvable now tenant_id job_id r =
    is_job tenant_id job_id r
    && (status_eq r.state running
        && (not (is_none r.cancellation_requested_at) && not (held now r)))

unfoldable pub cancel_ending : ℕ → DiscoveryJobRecord → Ending
unfolding reason_or_default
cancel_ending now job = record {
  state = cancelled;
  failure_code = "CANCELLED";
  failure_message = reason_or_default job.cancellation_reason;
  now = now;
}

is_running_child : String → ℕ → DiscoveryJobRecord → Bool
is_running_child tenant_id job_id r =
    str_eq r.tenant_id tenant_id && (opt_eq r.parent_job_id job_id && status_eq r.state running)

-- The children that were found running, while they still are.
unfoldable pub is_found : String → ℕ → List DiscoveryJobRecord → DiscoveryJobRecord → Bool
unfolding is_running_child
is_found tenant_id job_id rows r =
    any (λ k. r.id == k) (map (λ c. c.id) (keep (is_running_child tenant_id job_id) rows))
    && (str_eq r.tenant_id tenant_id && status_eq r.state running)

module _ (ip : IpAddress) where
  resolve_children :
      ℕ
      → (ℕ → Fresh)
      → String
      → DiscoveryJobRecord
      → Session
      → Session × Result (Option DiscoveryJobRecord)
  unfolding is_found ended cancel_ending update_where has_children target_of after
      reconcile_parent_job get
  resolve_children now fresh tenant_id job s =
      let done = record s {
        working =
            update_where (is_found tenant_id job.id s.working) (ended (cancel_ending now job))
              s.working;
      } in
      if has_children (target_of job done)
      then after (λ q. get tenant_id job.id q.working)
          (reconcile_parent_job ip now fresh tenant_id job.id false 4096 done)
      else (done, ok (get tenant_id job.id done.working))

  resolve_update :
      (List DiscoveryJobRecord → List DiscoveryJobRecord)
      → ℕ
      → (ℕ → Fresh)
      → String
      → DiscoveryJobRecord
      → Session
      → Session × Result (Option DiscoveryJobRecord)
  unfolding is_resolvable ended cancel_ending interleave update_where rollback get resolve_children
  resolve_update meanwhile now fresh tenant_id job s =
      let seen = interleave meanwhile s in
      let guard = is_resolvable now tenant_id job.id in
      if any guard seen.working
      then resolve_children now fresh tenant_id job (record seen {
        working = update_where guard (ended (cancel_ending now job)) seen.working;
      })
      else elim (get tenant_id job.id (rollback seen).working) [
        | none ↦ (rollback seen, err cancellation_conflict)
        | some current ↦
            if status_eq current.state cancelled
            then (rollback seen, ok (some current))
            else (rollback seen, err cancellation_conflict)
      ]

  unfoldable pub resolve_stale_cancellation :
      (List DiscoveryJobRecord → List DiscoveryJobRecord)
      → ℕ
      → (ℕ → Fresh)
      → String
      → ℕ
      → Session
      → Session × Result (Option DiscoveryJobRecord)
  unfolding held resolve_update get
  resolve_stale_cancellation meanwhile now fresh tenant_id job_id s =
      elim (get tenant_id job_id s.working) [
        | none ↦ (s, err resource_not_found)
        | some job ↦
            if status_eq job.state cancelled
            then (s, ok (some job))
            else if is_terminal job.state
                || (not (status_eq job.state running)
                    || (is_none job.cancellation_requested_at || held now job))
            then (s, err cancellation_conflict)
            else resolve_update meanwhile now fresh tenant_id job s
      ]
