-- ===== src/Persistence/Tables.antt =====
-- The tables of backend/app/persistence/models.py that discovery jobs live in, and a database
-- session over them. A table is the list of its rows. Identifiers (UUIDs) and instants are numbers,
-- a JSON column is its text. A session sees its own pending changes in `working`; `committed` is what
-- a rollback returns to.
use network_operations_platf.Common.{
  ℕ, Bool, String, Option, List, [], ◌∷◌, first, str_eq, ◌==◌, ◌&&◌, if◌then◌else◌,
}
use network_operations_platf.Discovery.ResultStates.{DiscoveryResultState}
use network_operations_platf.Discovery.Contracts.{DiscoveryJobStatus}

pub record DiscoveryJobRecord : Type 0 where
  pub id : ℕ
  pub tenant_id : String
  pub target_id : ℕ
  pub run_id : ℕ
  pub parent_job_id : Option ℕ
  pub state : DiscoveryJobStatus
  pub failure_code : Option String
  pub failure_message : Option String
  pub requested_at : ℕ
  pub started_at : Option ℕ
  pub completed_at : Option ℕ
  pub created_by : Option ℕ
  pub updated_at : ℕ
  pub requested_capabilities : String
  pub selected_transport : Option String
  pub selected_platform : Option String
  pub attempts : ℕ
  pub timeout_seconds : Option ℕ
  pub correlation_id : Option String
  pub cancellation_requested_at : Option ℕ
  pub cancellation_requested_by : Option ℕ
  pub cancellation_reason : Option String
  pub execution_owner : Option ℕ
  pub lease_expires_at : Option ℕ
  pub last_heartbeat_at : Option ℕ

-- discovery/contracts.py: what a target stands for.
pub data DiscoveryScopeType : Type 0 where
  single_device ip_range cidr_network device_group netbox_scope : DiscoveryScopeType

-- The settings of a target that its devices take over.
pub record TargetSettings : Type 0 where
  pub vendor : Option String
  pub hostname : Option String
  pub platform_hint : Option String
  pub preferred_transport : Option String
  pub enabled : Bool
  pub credential_reference : String
  pub credential_profile_id : Option String
  pub credential_references : String
  pub allowed_fallback_transports : List String
  pub allow_insecure_telnet : Bool
  pub metadata_json : String

pub record TargetRow : Type 0 where
  pub id : ℕ
  pub tenant_id : String
  pub identifier : String
  pub address : Option String
  pub scope_type : DiscoveryScopeType
  pub scope_end : Option String
  pub scope_cidr : Option String
  pub allow_insecure_http : Bool
  pub settings : TargetSettings

pub data DiscoveryRunStatus : Type 0 where
  started run_succeeded run_failed : DiscoveryRunStatus

-- The totals of a run; the last two stand in its metadata.
pub record RunTotals : Type 0 where
  pub total_scanned : ℕ
  pub total_discovered : ℕ
  pub total_unreachable : ℕ
  pub total_reachable_no_management : ℕ
  pub total_authentication_failed : ℕ
  pub total_partial_discovery : ℕ
  pub total_unverified : ℕ
  pub total_cancelled : ℕ
  pub total_interrupted : ℕ

-- A run, its metadata in fields: the parent job, the expected addresses and, once the summary is
-- calculated, the totals.
pub record RunRow : Type 0 where
  pub id : ℕ
  pub tenant_id : Option String
  pub target_identifier : String
  pub target_address : Option String
  pub status : DiscoveryRunStatus
  pub finished_at : Option ℕ
  pub parent_job_id : Option ℕ
  pub expected_addresses : Option (List String)
  pub totals : Option RunTotals

-- The state of a device result: that of its job, or "discovering".
pub data DeviceState : Type 0 where
  of_job : DiscoveryJobStatus → DeviceState
  discovering : DeviceState

pub record DeviceResult : Type 0 where
  pub tenant_id : String
  pub discovery_job_id : ℕ
  pub child_job_id : ℕ
  pub address : String
  pub hostname : Option String
  pub vendor : Option String
  pub platform : Option String
  pub state : DeviceState
  pub result_state : Option DiscoveryResultState
  pub selected_transport : Option String
  pub failure_code : Option String
  pub failure_message : Option String
  pub completed_at : Option ℕ
  pub correlation_id : Option String

-- An attempt at one transport of a device. The device result that it belongs to is given by its job.
pub record TransportAttempt : Type 0 where
  pub id : ℕ
  pub tenant_id : String
  pub child_job_id : ℕ
  pub transport : String
  pub attempt_order : ℕ
  pub result : String
  pub failure_code : Option String
  pub failure_message : Option String
  pub started_at : ℕ
  pub completed_at : Option ℕ
  pub duration_ms : Option ℕ
  pub correlation_id : Option String

-- Raw evidence; the payload is its text.
pub record EvidenceRow : Type 0 where
  pub id : ℕ
  pub tenant_id : String
  pub job_id : ℕ
  pub target_id : ℕ
  pub run_id : ℕ
  pub evidence_type : String
  pub source : String
  pub observed_at : ℕ
  pub payload : String
  pub payload_hash : String
  pub command_or_probe : String
  pub sequence : ℕ

-- The tables besides the jobs.
pub record Others : Type 0 where
  pub targets : List TargetRow
  pub runs : List RunRow
  pub results : List DeviceResult
  pub attempts : List TransportAttempt
  pub evidence : List EvidenceRow

-- `saved` is to `others` what `committed` is to `working`.
pub record Session : Type 0 where
  pub others : Others
  pub saved : Others
  pub committed : List DiscoveryJobRecord
  pub working : List DiscoveryJobRecord

unfoldable pub rollback : Session → Session
rollback s = record s { working = s.committed; others = s.saved }

unfoldable pub commit : Session → Session
commit s = record s { committed = s.working; saved = s.others }

-- No other session comes between the read and the UPDATE of a method.
abbrev pub alone : List DiscoveryJobRecord → List DiscoveryJobRecord
alone rows = rows

-- What other sessions commit to the jobs becomes visible.
unfoldable pub interleave : (List DiscoveryJobRecord → List DiscoveryJobRecord) → Session → Session
interleave meanwhile s = record s {
  committed = meanwhile s.committed;
  working = meanwhile s.working;
}

-- `UPDATE … WHERE where_ SET values`
unfoldable pub update_where :
    (DiscoveryJobRecord → Bool)
    → (DiscoveryJobRecord → DiscoveryJobRecord)
    → List DiscoveryJobRecord
    → List DiscoveryJobRecord
update_where where_ values [] = []
update_where where_ values (r ∷ rs) =
    (if where_ r then values r else r) ∷ update_where where_ values rs

abbrev pub is_job : String → ℕ → DiscoveryJobRecord → Bool
is_job tenant_id job_id r = r.id == job_id && str_eq r.tenant_id tenant_id

-- The row with the identifier, if it belongs to the tenant.
unfoldable pub get : String → ℕ → List DiscoveryJobRecord → Option DiscoveryJobRecord
get tenant_id job_id rows = first (is_job tenant_id job_id) rows
