-- ===== src/Persistence/Samples.antt =====
-- Rows and sessions that the tests of backend/app/persistence run on.
use network_operations_platf.Common.{
  ℕ, ◌+◌, ◌==◌, str_eq, if◌then◌else◌, true, false, none, some, List, [], ◌∷◌,
}
use network_operations_platf.Discovery.Contracts.{queued, running, cancelled}
use network_operations_platf.Persistence.Tables.{
  DiscoveryJobRecord, Session, TargetRow, RunRow, TargetSettings, single_device, ip_range, started,
}
use network_operations_platf.Persistence.Jobs.{NewJob}
use network_operations_platf.Discovery.Scopes.{IpAddress, DiscoveryScope}
use network_operations_platf.Discovery.Fanout.{Fresh}

abbrev pub core_switch : NewJob
core_switch = record {
  id = 11;
  tenant_id = "acme";
  target_id = 7;
  run_id = 3;
  parent_job_id = none;
  created_by = none;
  requested_capabilities = none;
  timeout_seconds = some 30;
  correlation_id = none;
}

abbrev pub waiting_job : DiscoveryJobRecord
waiting_job = record {
  id = 11;
  tenant_id = "acme";
  target_id = 7;
  run_id = 3;
  parent_job_id = none;
  state = queued;
  failure_code = none;
  failure_message = none;
  requested_at = 100;
  started_at = none;
  completed_at = none;
  created_by = none;
  updated_at = 100;
  requested_capabilities = "{}";
  selected_transport = none;
  selected_platform = none;
  attempts = 0;
  timeout_seconds = some 30;
  correlation_id = none;
  cancellation_requested_at = none;
  cancellation_requested_by = none;
  cancellation_reason = none;
  execution_owner = none;
  lease_expires_at = none;
  last_heartbeat_at = none;
}

abbrev pub taken_job : DiscoveryJobRecord
taken_job = record waiting_job {
  state = running;
  started_at = some 110;
  updated_at = 110;
  attempts = 1;
  execution_owner = some 5;
  lease_expires_at = some 140;
  last_heartbeat_at = some 110;
}

abbrev pub cancelled_job : DiscoveryJobRecord
cancelled_job = record waiting_job { state = cancelled; completed_at = some 105; updated_at = 105 }

abbrev pub plain_settings : TargetSettings
plain_settings = record {
  vendor = none;
  hostname = none;
  platform_hint = none;
  preferred_transport = none;
  enabled = true;
  credential_reference = "vault";
  credential_profile_id = none;
  credential_references = "{}";
  allowed_fallback_transports = [];
  allow_insecure_telnet = false;
  metadata_json = "{}";
}

abbrev pub core_target : TargetRow
core_target = record {
  id = 7;
  tenant_id = "acme";
  identifier = "core";
  address = some "10.0.0.1";
  scope_type = single_device;
  scope_end = none;
  scope_cidr = none;
  allow_insecure_http = false;
  settings = plain_settings;
}

abbrev pub first_run : RunRow
first_run = record {
  id = 3;
  tenant_id = some "acme";
  target_identifier = "core";
  target_address = some "10.0.0.1";
  status = started;
  finished_at = none;
  parent_job_id = none;
  expected_addresses = none;
  totals = none;
}

abbrev pub holding : List DiscoveryJobRecord → Session
holding rows = record {
  others = record {
    targets = core_target ∷ [];
    runs = first_run ∷ [];
    results = [];
    attempts = [];
    evidence = [];
  };
  saved = record {
    targets = core_target ∷ [];
    runs = first_run ∷ [];
    results = [];
    attempts = [];
    evidence = [];
  };
  committed = rows;
  working = rows;
}

-- A reader of two addresses.
abbrev pub small_network : IpAddress
small_network = record {
  ip_address = λ a.
      if str_eq a "10.0.0.1"
      then some (4, 167772161)
      else if str_eq a "10.0.0.2"
      then some (4, 167772162)
      else none;
  str = λ version n. if n == 167772161 then "10.0.0.1" else "10.0.0.2";
  hosts = λ c. if str_eq c "10.0.0.0/30" then some ("10.0.0.1" ∷ "10.0.0.2" ∷ []) else none;
}

abbrev pub lab_range : DiscoveryScope
lab_range = record {
  scope_type = ip_range;
  address = some "10.0.0.1";
  scope_end = some "10.0.0.2";
  scope_cidr = none;
}

-- The target of the first job, if it were a range of two devices.
abbrev pub lab_target : TargetRow
lab_target = record core_target { scope_type = ip_range; scope_end = some "10.0.0.2" }

abbrev pub scanning : List DiscoveryJobRecord → Session
scanning rows = record {
  others = record {
    targets = lab_target ∷ [];
    runs = first_run ∷ [];
    results = [];
    attempts = [];
    evidence = [];
  };
  saved = record {
    targets = lab_target ∷ [];
    runs = first_run ∷ [];
    results = [];
    attempts = [];
    evidence = [];
  };
  committed = rows;
  working = rows;
}

abbrev pub next_ids : ℕ → Fresh
next_ids n = record {
  target_id = 100 + n;
  run_id = 200 + n;
  job_id = 300 + n;
  correlation_id = "lab";
  rival = none;
  conflict = false;
}
