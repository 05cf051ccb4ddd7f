-- ===== src/Persistence/Trees/Owned.antt =====
-- The end of a running job whose worker is gone, and of the children that it ran:
-- `recover_expired_owned_job`, `abandon_owned_job` and `_reconcile_owned_tree` of
-- backend/app/persistence/discovery_repositories.py.
pub mod Moves
use network_operations_platf.Common.{
  ℕ, ltb, leb, Bool, true, false, String, Option, none, some, List, [], ◌∷◌, any, first, keep, map,
  str_eq, is_none, opt_eq, not, ◌==◌, ◌&&◌, ◌||◌, if◌then◌else◌,
}
use network_operations_platf.Discovery.Contracts.{
  DiscoveryJobStatus, queued, running, failed, cancelled, status_eq,
}
use network_operations_platf.Discovery.Scopes.{IpAddress}
use network_operations_platf.Discovery.Fanout.{Fresh, reconcile_parent_job}
use network_operations_platf.Persistence.Tables.{
  DiscoveryJobRecord, Session, alone, update_where, is_job, get,
}
use network_operations_platf.Persistence.Jobs.{
  Result, and_then, ok, err, Ending, ended, Change, reason_or_default, is_active,
  protected_discovery_job_id, transition, cancellation_requested,
}
use network_operations_platf.Persistence.Trees.{has_children, target_of, after}

-- How the tree ends: cancelled if that was asked for, failed otherwise.
unfoldable pub tree_ending : Bool → ℕ → String → DiscoveryJobRecord → Ending
unfolding reason_or_default
tree_ending true now message job = record {
  state = cancelled;
  failure_code = "CANCELLED";
  failure_message = reason_or_default job.cancellation_reason;
  now = now;
}
tree_ending false now message job = record {
  state = failed;
  failure_code = "DISCOVERY_FAILED";
  failure_message = message;
  now = now;
}

-- The transition of an owned job to the end of its tree.
unfoldable pub tree_change : Ending → ℕ → Change
tree_change e owner = record {
  target_state = e.state;
  failure_code = some e.failure_code;
  failure_message = some e.failure_message;
  require_no_cancellation = false;
  expected_execution_owner = some owner;
}

unfoldable pub end_child :
    Ending → String → ℕ → ℕ → Session → Session × Result (Option DiscoveryJobRecord)
unfolding tree_change ended update_where transition get
end_child e tenant_id owner child_id s = elim (get tenant_id child_id s.working) [
  | none ↦ (s, ok none)
  | some child ↦
      if status_eq child.state queued
      then (
        record s { working = update_where (is_job tenant_id child_id) (ended e) s.working },
        ok none,
      )
      else if not (opt_eq child.execution_owner owner)
      then (s, ok none)
      else transition alone e.now tenant_id child_id (tree_change e owner) s
]

unfoldable pub end_children :
    Ending → String → ℕ → List ℕ → Session → Session × Result (Option DiscoveryJobRecord)
unfolding end_child and_then
end_children e tenant_id owner [] s = (s, ok none)
end_children e tenant_id owner (k ∷ ks) s =
    and_then (end_child e tenant_id owner k s) (λ done next. end_children e tenant_id owner ks next)

is_active_child : String → ℕ → DiscoveryJobRecord → Bool
unfolding is_active
is_active_child tenant_id job_id r =
    str_eq r.tenant_id tenant_id && (opt_eq r.parent_job_id job_id && is_active r.state)

-- The owner of a running job whose lease ended before `stale_before`.
expired_owner : ℕ → DiscoveryJobRecord → Option ℕ
expired_owner stale_before r =
    if not (status_eq r.state running) || is_none r.last_heartbeat_at
    then none
    else elim r.lease_expires_at [
      | none ↦ none
      | some lease ↦ if leb stale_before lease then none else r.execution_owner
    ]

module _ (ip : IpAddress) where
  -- After the children: the job itself, and what is missing of its results.
  end_root :
      (ℕ → Fresh)
      → Bool
      → Ending
      → String
      → ℕ
      → DiscoveryJobRecord
      → Session
      → Session × Result (Option DiscoveryJobRecord)
  unfolding tree_change transition has_children target_of after reconcile_parent_job and_then
  end_root fresh cancel e tenant_id owner job s =
      and_then (transition alone e.now tenant_id job.id (tree_change e owner) s) (λ terminal next.
        if has_children (target_of job next)
        then after (λ q. terminal)
            (reconcile_parent_job ip e.now fresh tenant_id job.id (not cancel) 4096 next)
        else (next, ok terminal))

  unfoldable pub reconcile_owned_tree :
      ℕ
      → (ℕ → Fresh)
      → String
      → ℕ
      → ℕ
      → String
      → Session
      → Session × Result (Option DiscoveryJobRecord)
  unfolding cancellation_requested tree_ending is_active_child end_children end_root get and_then
  reconcile_owned_tree now fresh tenant_id job_id owner message s =
      elim (get tenant_id job_id s.working) [
        | none ↦ (s, ok none)
        | some job ↦
            let cancel = cancellation_requested tenant_id job_id s in
            let e = tree_ending cancel now message job in
            let children = map (λ c. c.id) (keep (is_active_child tenant_id job_id) s.working) in
            and_then (end_children e tenant_id owner children s)
              (λ done next. end_root fresh cancel e tenant_id owner job next)
      ]

  unfoldable pub recover_expired_owned_job :
      ℕ → (ℕ → Fresh) → String → ℕ → ℕ → Session → Session × Result (Option DiscoveryJobRecord)
  unfolding expired_owner reconcile_owned_tree get
  recover_expired_owned_job now fresh tenant_id job_id stale_before s =
      if job_id == protected_discovery_job_id
      then (s, ok none)
      else elim (get tenant_id job_id s.working) [
        | none ↦ (s, ok none)
        | some job ↦ elim (expired_owner stale_before job) [
          | none ↦ (s, ok none)
          | some owner ↦
              reconcile_owned_tree now fresh tenant_id job_id owner
                "Discovery worker lease expired; execution was not resumed." s
        ]
      ]

  unfoldable pub abandon_owned_job :
      ℕ
      → (ℕ → Fresh)
      → String
      → ℕ
      → ℕ
      → String
      → Session
      → Session × Result (Option DiscoveryJobRecord)
  unfolding reconcile_owned_tree
  abandon_owned_job now fresh tenant_id job_id owner message s =
      if job_id == protected_discovery_job_id
      then (s, ok none)
      else if any
          (λ r.
            is_job tenant_id job_id r
            && (status_eq r.state running && opt_eq r.execution_owner owner))
          s.working
      then reconcile_owned_tree now fresh tenant_id job_id owner message s
      else (s, ok none)
