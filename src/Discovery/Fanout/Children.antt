-- ===== src/Discovery/Fanout/Children.antt =====
-- The child jobs of a scope: `_create_child` of backend/app/discovery/fanout.py.
use network_operations_platf.Common.{
  ℕ, Bool, false, String, Option, none, some, List, [], ◌∷◌, ◌++◌, any, first, map, str_eq, concat,
  ◌==◌, ◌&&◌, ◌||◌, if◌then◌else◌,
}
use network_operations_platf.Discovery.Contracts.{queued}
use network_operations_platf.Persistence.Tables.{
  DiscoveryJobRecord, TargetRow, single_device, RunRow, started, DeviceResult, of_job, Others,
  Session,
}
use network_operations_platf.Persistence.Jobs.{
  integrity_error, Result, ok, err, NewJob, create, and_then,
}

-- What one child takes that the code does not compute: identifiers, and what happens at the two
-- flushes. `rival` is `none` if the target is inserted; otherwise the insertion violates a
-- constraint, and it holds the target that another session has inserted, if there is one.
pub record Fresh : Type 0 where
  pub target_id : ℕ
  pub run_id : ℕ
  pub job_id : ℕ
  pub correlation_id : String
  pub rival : Option (Option TargetRow)
  pub conflict : Bool

unfoldable pub is_named : String → String → TargetRow → Bool
is_named tenant_id identifier t = str_eq t.tenant_id tenant_id && str_eq t.identifier identifier

unfoldable pub new_target : ℕ → String → String → String → TargetRow → TargetRow
new_target id tenant_id identifier address scope = record {
  id = id;
  tenant_id = tenant_id;
  identifier = identifier;
  address = some address;
  scope_type = single_device;
  scope_end = none;
  scope_cidr = none;
  allow_insecure_http = false;
  settings = scope.settings;
}

-- The target of an address: made with the settings of the scope, or given them.
unfoldable pub child_target :
    Fresh → String → TargetRow → String → List TargetRow → Option (List TargetRow × TargetRow)
unfolding is_named new_target
child_target fresh tenant_id scope address targets =
    let identifier = concat scope.identifier (concat ":" address) in
    let made = new_target fresh.target_id tenant_id identifier address scope in
    elim (first (is_named tenant_id identifier) targets) [
      | some t ↦ some (
        map (λ u. if u.id == t.id then record u { settings = scope.settings } else u) targets,
        record t { settings = scope.settings },
      )
      | none ↦ elim fresh.rival [
        | none ↦ some (targets ++ made ∷ [], made)
        | some none ↦ none
        | some (some r) ↦
            if is_named tenant_id identifier r then some (targets ++ r ∷ [], r) else none
      ]
    ]

unfoldable pub child_run : ℕ → String → ℕ → TargetRow → String → RunRow
child_run id tenant_id parent_id target address = record {
  id = id;
  tenant_id = some tenant_id;
  target_identifier = target.identifier;
  target_address = some address;
  status = started;
  finished_at = none;
  parent_job_id = some parent_id;
  expected_addresses = none;
  totals = none;
}

unfoldable pub child_job : Fresh → String → DiscoveryJobRecord → TargetRow → NewJob
child_job fresh tenant_id parent target = record {
  id = fresh.job_id;
  tenant_id = tenant_id;
  target_id = target.id;
  run_id = fresh.run_id;
  parent_job_id = some parent.id;
  created_by = none;
  requested_capabilities = some parent.requested_capabilities;
  timeout_seconds = parent.timeout_seconds;
  correlation_id = some fresh.correlation_id;
}

unfoldable pub child_result :
    Fresh → String → DiscoveryJobRecord → TargetRow → String → DeviceResult
child_result fresh tenant_id parent scope address = record {
  tenant_id = tenant_id;
  discovery_job_id = parent.id;
  child_job_id = fresh.job_id;
  address = address;
  hostname = scope.settings.hostname;
  vendor = scope.settings.vendor;
  platform = scope.settings.platform_hint;
  state = of_job queued;
  result_state = none;
  selected_transport = none;
  failure_code = none;
  failure_message = none;
  completed_at = none;
  correlation_id = some fresh.correlation_id;
}

abbrev pub with_others : (Others → Others) → Session → Session
with_others f s = record s { others = f s.others }

-- The target and the run of a child have been flushed.
unfoldable pub with_run :
    Fresh → String → DiscoveryJobRecord → String → List TargetRow → TargetRow → Session → Session
unfolding child_run
with_run fresh tenant_id parent address targets target s = record s {
  others = record s.others {
    targets = targets;
    runs = s.others.runs ++ child_run fresh.run_id tenant_id parent.id target address ∷ [];
  };
}

-- The job of a child, and its result.
unfoldable pub create_job :
    ℕ
    → Fresh
    → String
    → DiscoveryJobRecord
    → TargetRow
    → String
    → TargetRow
    → Session
    → Session × Result DeviceResult
unfolding child_job child_result create and_then
create_job now fresh tenant_id parent scope address target s =
    let taken = fresh.conflict || any (λ r. r.id == fresh.job_id) s.working in
    let result = child_result fresh tenant_id parent scope address in
    and_then (create taken now (child_job fresh tenant_id parent target) s) (λ child made.
      (with_others (λ o. record o { results = o.results ++ result ∷ [] }) made, ok result))

unfoldable pub create_child :
    ℕ
    → Fresh
    → String
    → DiscoveryJobRecord
    → TargetRow
    → String
    → Session
    → Session × Result DeviceResult
unfolding child_target with_run create_job
create_child now fresh tenant_id parent scope address s =
    elim (child_target fresh tenant_id scope address s.others.targets) [
      | none ↦ (s, err integrity_error)
      | some (targets, target) ↦
          create_job now fresh tenant_id parent scope address target
            (with_run fresh tenant_id parent address targets target s)
    ]
