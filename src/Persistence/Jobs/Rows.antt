-- ===== src/Persistence/Jobs/Rows.antt =====
-- The rows of the jobs table as `DiscoveryJobRepository` (backend/app/persistence/
-- discovery_repositories.py) reads and writes them: the guards of its UPDATE statements, the values
-- that they write, and the results of its methods.
use network_operations_platf.Common.{
  ℕ, ◌+◌, ltb, Bool, true, false, String, Option, none, some, [], ◌∷◌, any, str_eq, is_none, opt_eq,
  or_else, not, ◌==◌, ◌&&◌, ◌||◌, if◌then◌else◌,
}
use network_operations_platf.Discovery.Contracts.{
  DiscoveryJobStatus, queued, running, cancelled, is_terminal, status_eq,
}
use network_operations_platf.Persistence.Tables.{
  DiscoveryJobRecord, TargetRow, RunRow, Session, is_job,
}

pub data DiscoveryPersistenceError : Type 0 where
  duplicate_active resource_not_found invalid_transition cancellation_conflict :
      DiscoveryPersistenceError
  -- The base class itself, which evidence raises.
  evidence_mismatch : DiscoveryPersistenceError
  -- Exceptions of other modules that pass through the repository.
  scope_error integrity_error : DiscoveryPersistenceError

pub data Result (A : Type 0) : Type 0 where
  ok : A → Result A
  err : DiscoveryPersistenceError → Result A

-- A call, and what follows it unless it raised.
unfoldable pub and_then :
    {A B : Type 0} → Session × Result A → (A → Session → Session × Result B) → Session × Result B
and_then (s, ok a) f = f a s
and_then (s, err e) f = (s, err e)

-- discovery/leases.py: the job that no worker may touch.
abbrev pub protected_discovery_job_id : ℕ
protected_discovery_job_id = 0xd792bcfffb064428ab53557e0cd6eeb9

unfoldable pub is_active : DiscoveryJobStatus → Bool
is_active s = any (status_eq s) (queued ∷ running ∷ [])

unfoldable pub is_active_for : String → ℕ → DiscoveryJobRecord → Bool
unfolding is_active
is_active_for tenant_id target_id r =
    str_eq r.tenant_id tenant_id && r.target_id == target_id && is_active r.state

unfoldable pub target_found : String → Option TargetRow → Bool
target_found tenant_id none = false
target_found tenant_id (some t) = str_eq t.tenant_id tenant_id

unfoldable pub run_found : String → Option RunRow → Bool
run_found tenant_id none = false
run_found tenant_id (some r) = elim r.tenant_id [ none ↦ true | some t ↦ str_eq t tenant_id ]

-- The arguments of `create`; the new identifier is fresh.
pub record NewJob : Type 0 where
  pub id : ℕ
  pub tenant_id : String
  pub target_id : ℕ
  pub run_id : ℕ
  pub parent_job_id : Option ℕ
  pub created_by : Option ℕ
  pub requested_capabilities : Option String
  pub timeout_seconds : Option ℕ
  pub correlation_id : Option String

unfoldable pub new_record : ℕ → NewJob → DiscoveryJobRecord
new_record now n = record {
  id = n.id;
  tenant_id = n.tenant_id;
  target_id = n.target_id;
  run_id = n.run_id;
  parent_job_id = n.parent_job_id;
  state = queued;
  failure_code = none;
  failure_message = none;
  requested_at = now;
  started_at = none;
  completed_at = none;
  created_by = n.created_by;
  updated_at = now;
  requested_capabilities = or_else n.requested_capabilities "{}";
  selected_transport = none;
  selected_platform = none;
  attempts = 0;
  timeout_seconds = n.timeout_seconds;
  correlation_id = n.correlation_id;
  cancellation_requested_at = none;
  cancellation_requested_by = none;
  cancellation_reason = none;
  execution_owner = none;
  lease_expires_at = none;
  last_heartbeat_at = none;
}

-- Queued, and without any trace of a worker.
unfoldable pub is_claimable : String → ℕ → DiscoveryJobRecord → Bool
is_claimable tenant_id job_id r =
    is_job tenant_id job_id r
    && (status_eq r.state queued
        && (is_none r.execution_owner
            && (is_none r.lease_expires_at && is_none r.last_heartbeat_at)))

unfoldable pub claimed : ℕ → ℕ → ℕ → DiscoveryJobRecord → DiscoveryJobRecord
claimed now owner lease r = record r {
  state = running;
  started_at = some now;
  updated_at = now;
  attempts = r.attempts + 1;
  execution_owner = some owner;
  lease_expires_at = some (now + lease);
  last_heartbeat_at = some now;
}

unfoldable pub is_renewable : String → ℕ → ℕ → DiscoveryJobRecord → Bool
is_renewable tenant_id job_id owner r =
    str_eq r.tenant_id tenant_id
    && (opt_eq r.execution_owner owner
        && (status_eq r.state running && (r.id == job_id || opt_eq r.parent_job_id job_id)))

unfoldable pub renewed : ℕ → ℕ → DiscoveryJobRecord → DiscoveryJobRecord
renewed now lease r = record r {
  lease_expires_at = some (now + lease);
  last_heartbeat_at = some now;
  updated_at = now;
}

-- What a transition writes, besides the guards of its UPDATE.
pub record Change : Type 0 where
  pub target_state : DiscoveryJobStatus
  pub failure_code : Option String
  pub failure_message : Option String
  pub require_no_cancellation : Bool
  pub expected_execution_owner : Option ℕ

unfoldable pub may_change : String → ℕ → DiscoveryJobStatus → Change → DiscoveryJobRecord → Bool
may_change tenant_id job_id old c r =
    is_job tenant_id job_id r
    && (status_eq r.state old
        && ((not c.require_no_cancellation || is_none r.cancellation_requested_at)
            && elim c.expected_execution_owner [
              | none ↦ true
              | some owner ↦ opt_eq r.execution_owner owner
            ]))

-- `x` unless it is `None`, when the column is not written.
unfoldable pub written : Option String → Option String → Option String
written none old = old
written (some x) old = some x

unfoldable pub changed : ℕ → Change → DiscoveryJobRecord → DiscoveryJobRecord
unfolding written
changed now c r =
    let done = is_terminal c.target_state in
    record r {
      state = c.target_state;
      updated_at = now;
      completed_at = if done then some now else r.completed_at;
      failure_code = written c.failure_code r.failure_code;
      failure_message = written c.failure_message r.failure_message;
      execution_owner = if done then none else r.execution_owner;
      lease_expires_at = if done then none else r.lease_expires_at;
      last_heartbeat_at = if done then none else r.last_heartbeat_at;
    }

-- `reason or "Cancelled by operator."`
unfoldable pub reason_or_default : Option String → String
reason_or_default none = "Cancelled by operator."
reason_or_default (some reason) = if str_eq reason "" then "Cancelled by operator." else reason

unfoldable pub cancel_change : DiscoveryJobRecord → Option ℕ → Change
unfolding reason_or_default
cancel_change job owner = record {
  target_state = cancelled;
  failure_code = some "CANCELLED";
  failure_message = some (reason_or_default job.cancellation_reason);
  require_no_cancellation = false;
  expected_execution_owner = owner;
}

unfoldable pub selected :
    ℕ → Option String → Option String → DiscoveryJobRecord → DiscoveryJobRecord
selected now transport platform r = record r {
  selected_transport = transport;
  selected_platform = platform;
  updated_at = now;
}

-- A leased root job whose lease ended before `stale_before`.
unfoldable pub lease_expired : ℕ → DiscoveryJobRecord → Bool
lease_expired stale_before r =
    status_eq r.state running
    && (is_none r.parent_job_id
        && (not (r.id == protected_discovery_job_id)
            && (not (is_none r.execution_owner)
                && (not (is_none r.last_heartbeat_at) && elim r.lease_expires_at [
                  | none ↦ false
                  | some expiry ↦ ltb expiry stale_before
                ]))))

-- What ends an active job from outside: its terminal state, failure and time. The time is also that
-- of the row's last update, which the table writes by itself.
pub record Ending : Type 0 where
  pub state : DiscoveryJobStatus
  pub failure_code : String
  pub failure_message : String
  pub now : ℕ

unfoldable pub ended : Ending → DiscoveryJobRecord → DiscoveryJobRecord
ended e r = record r {
  state = e.state;
  failure_code = some e.failure_code;
  failure_message = some e.failure_message;
  completed_at = some e.now;
  updated_at = e.now;
  execution_owner = none;
  lease_expires_at = none;
  last_heartbeat_at = none;
}

-- The columns of a cancellation request.
unfoldable pub requested : ℕ → ℕ → String → DiscoveryJobRecord → DiscoveryJobRecord
requested now by reason r = record r {
  cancellation_requested_at = some now;
  cancellation_requested_by = some by;
  cancellation_reason = some reason;
  updated_at = now;
}
