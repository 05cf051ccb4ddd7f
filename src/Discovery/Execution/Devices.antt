-- ===== src/Discovery/Execution/Devices.antt =====
-- What the execution of a job reads of its target and writes about its device: `_resolve_target`,
-- `_payload_string`, `_start_transport_attempt`, `_record_device_result`,
-- `_ensure_device_result_for_failure`, `_finalize_single_device_run` and the device result of a cancelled job in
-- backend/app/discovery/execution.py. The start times of device results are left out; an address that
-- is missing is the empty text.
use network_operations_platf.Common.{
  ℕ, Bool, false, String, Option, none, some, List, [], ◌∷◌, ◌++◌, any, first, map, str_eq, is_none,
  or_else, not, ◌==◌, ◌&&◌, ◌||◌, if◌then◌else◌,
}
use network_operations_platf.Discovery.Contracts.{
  DiscoveryFailureCode, value, running, succeeded, failed, cancelled,
}
use network_operations_platf.Discovery.ResultStates.{DiscoveryResultState, unreachable}
use network_operations_platf.Discovery.MultiTransport.{
  Value, null, flag, text, object, items, Fields, nonempty, is_filled, get as get_value,
}
use network_operations_platf.Persistence.Tables.{
  DiscoveryJobRecord, TargetRow, DeviceResult, of_job, Session,
}
use network_operations_platf.Persistence.Evidence.{on_others, start_attempt}
use network_operations_platf.Discovery.Execution.Policy.{TargetMetadata}
use network_operations_platf.Discovery.Execution.Failures.{state_of_failure, finalized_run}

-- `DiscoveryTargetRecordView`, its metadata in fields.
pub record TargetView : Type 0 where
  pub id : ℕ
  pub tenant_id : String
  pub identifier : String
  pub address : String
  pub enabled : Bool
  pub transport_name : Option Value
  pub platform_family : Option Value
  pub has_profile : Bool
  pub has_fallbacks : Bool
  -- What the transport policy reads of the metadata.
  pub policy : TargetMetadata

-- `metadata.get(key)` after `metadata.setdefault(key, column)` of a column that is not `None`.
unfoldable pub with_default : String → Option String → Fields → Option Value
with_default key column metadata = elim (get_value key metadata) [
  | some v ↦ some v
  | none ↦ elim column [ none ↦ none | some c ↦ some (text c) ]
]

-- Python's truth of a value.
is_true : Value → Bool
is_true null = false
is_true (flag b) = b
is_true (text s) = not (str_eq s "")
is_true (object fields) = nonempty fields
is_true (items ts) = is_filled ts

is_set : Option Value → Bool
unfolding is_true
is_set none = false
is_set (some v) = is_true v

text_only : Option Value → Option String
text_only v = elim v [ some (text s) ↦ some s | _ ↦ none ]

-- `metadata` is what the metadata column of the target holds.
unfoldable pub view_of : (String → Fields) → TargetRow → TargetView
unfolding with_default is_true is_set text_only
view_of metadata t =
    let m = metadata t.settings.metadata_json in
    let transport = with_default "transport_name" t.settings.preferred_transport m in
    record {
      id = t.id;
      tenant_id = t.tenant_id;
      identifier = t.identifier;
      address = or_else t.address "";
      enabled = t.settings.enabled;
      transport_name = transport;
      platform_family = with_default "platform_family" t.settings.platform_hint m;
      has_profile = not (is_none t.settings.credential_profile_id);
      has_fallbacks = elim (get_value "allowed_fallback_transports" m) [
        | some v ↦ is_true v
        | none ↦ is_filled t.settings.allowed_fallback_transports
      ];
      policy = record {
        allow_insecure_telnet = t.settings.allow_insecure_telnet;
        allow_insecure_http = is_set (get_value "allow_insecure_http" m) || t.allow_insecure_http;
        credential_profile_id = t.settings.credential_profile_id;
        allowed_fallback_transports = elim (get_value "allowed_fallback_transports" m) [
          | some (items ts) ↦ ts
          | some v ↦ []
          | none ↦ t.settings.allowed_fallback_transports
        ];
        transport_name = text_only transport;
      };
    }

-- `_resolve_target`; `none` is the failure TARGET_NOT_FOUND.
unfoldable pub resolve_target :
    (String → Fields) → DiscoveryJobRecord → String → Session → Option TargetView
unfolding view_of
resolve_target metadata job tenant_id s =
    elim (first (λ t. t.id == job.target_id) s.others.targets) [
      | none ↦ none
      | some t ↦ if str_eq t.tenant_id tenant_id then some (view_of metadata t) else none
    ]

-- `_payload_string`; `str` is Python's `str` of a value.
unfoldable pub payload_string : (Value → String) → Fields → String → Option Value → Option String
payload_string str payload key fallback =
    let value : Option Value = elim (get_value key payload) [ some v ↦ some v | none ↦ fallback ] in
    elim value [ none ↦ none | some null ↦ none | some v ↦ some (str v) ]

-- `str(metadata.get("transport_name", "unknown"))`
unfoldable pub transport_text : (Value → String) → TargetView → String
transport_text str target = elim target.transport_name [ none ↦ "unknown" | some v ↦ str v ]

unfoldable pub is_result_of : String → ℕ → DeviceResult → Bool
is_result_of tenant_id job_id r = r.child_job_id == job_id && str_eq r.tenant_id tenant_id

-- The result of a device, as it stands when nothing is known of it yet; `root` is the job of the
-- whole scope.
unfoldable pub new_result : ℕ → DiscoveryJobRecord → TargetView → DeviceResult
new_result root job target = record {
  tenant_id = target.tenant_id;
  discovery_job_id = root;
  child_job_id = job.id;
  address = target.address;
  hostname = none;
  vendor = none;
  platform = none;
  state = of_job running;
  result_state = none;
  selected_transport = none;
  failure_code = none;
  failure_message = none;
  completed_at = none;
  correlation_id = job.correlation_id;
}

-- The first row that passes the test is changed.
unfoldable pub change_first :
    (DeviceResult → Bool) → (DeviceResult → DeviceResult) → List DeviceResult → List DeviceResult
change_first p f [] = []
change_first p f (r ∷ rs) = let rest = change_first p f rs in if p r then f r ∷ rs else r ∷ rest

-- The device result of a job is given the values, or made with them.
unfoldable pub upsert_result :
    ℕ → DiscoveryJobRecord → TargetView → (DeviceResult → DeviceResult) → Session → Session
unfolding is_result_of new_result change_first
upsert_result root job target values =
    let mine = is_result_of target.tenant_id job.id in
    on_others (λ o. record o {
      results =
          if any mine o.results
          then change_first mine values o.results
          else o.results ++ values (new_result root job target) ∷ [];
    })

unfoldable pub start_transport_attempt :
    (Value → String) → ℕ → ℕ → DiscoveryJobRecord → TargetView → Session → Session
unfolding upsert_result transport_text start_attempt
start_transport_attempt str now id job target s =
    start_attempt now id target.tenant_id job.id (transport_text str target) 1 job.correlation_id
      (upsert_result job.id job target (λ r. r) s)

-- The first device of a snapshot: its address, name, manufacturer and platform.
pub record Device : Type 0 where
  pub management_ip : Option String
  pub name : Option String
  pub manufacturer : Option String
  pub platform : Option String

-- `management_ip or address`
device_address : String → Option Device → String
device_address address none = address
device_address address (some d) = elim d.management_ip [
  | none ↦ address
  | some ip ↦ if str_eq ip "" then address else ip
]

device_text : (Device → Option String) → Option Device → Option String
device_text f none = none
device_text f (some d) = f d

unfoldable pub success_values :
    ℕ
    → TargetView
    → Option Device
    → Option String
    → DiscoveryResultState
    → DeviceResult
    → DeviceResult
unfolding device_address device_text
success_values now target device transport state r = record r {
  address = device_address target.address device;
  hostname = device_text (λ d. d.name) device;
  vendor = device_text (λ d. d.manufacturer) device;
  platform = device_text (λ d. d.platform) device;
  state = of_job succeeded;
  selected_transport = transport;
  failure_code = none;
  failure_message = none;
  result_state = some state;
  completed_at = some now;
}

unfoldable pub failure_values :
    ℕ → TargetView → DiscoveryFailureCode → String → Option String → DeviceResult → DeviceResult
unfolding state_of_failure value
failure_values now target code message transport r = record r {
  address = target.address;
  state = of_job failed;
  result_state = some (state_of_failure code);
  selected_transport = transport;
  failure_code = some (value code);
  failure_message = some message;
  completed_at = some now;
}

-- `_record_device_result`
unfoldable pub record_device_result :
    ℕ
    → DiscoveryJobRecord
    → TargetView
    → Option Device
    → Option String
    → DiscoveryResultState
    → Session
    → Session
unfolding upsert_result success_values
record_device_result now job target device transport state =
    upsert_result job.id job target (success_values now target device transport state)

-- `_ensure_device_result_for_failure`
unfoldable pub ensure_device_result_for_failure :
    ℕ
    → DiscoveryJobRecord
    → TargetView
    → DiscoveryFailureCode
    → String
    → Option String
    → Session
    → Session
unfolding upsert_result failure_values
ensure_device_result_for_failure now job target code message transport =
    upsert_result job.id job target (failure_values now target code message transport)

-- The device result of a cancelled job: one that exists keeps its verdict.
unfoldable pub cancelled_result : ℕ → DiscoveryJobRecord → TargetView → Session → Session
unfolding is_result_of new_result change_first
cancelled_result now job target =
    let mine = is_result_of target.tenant_id job.id in
    let stop : DeviceResult → DeviceResult =
      λ r. record r { state = of_job cancelled; completed_at = some now } in
    on_others (λ o. record o {
      results =
          if any mine o.results
          then change_first mine stop o.results
          else o.results
            ++ record (stop (new_result job.id job target)) { result_state = some unreachable }
              ∷ [];
    })

-- `_finalize_single_device_run`
unfoldable pub finalize_single_device_run : ℕ → ℕ → DiscoveryResultState → Session → Session
unfolding finalized_run
finalize_single_device_run now run_id state = on_others (λ o. record o {
  runs = map (λ r. if r.id == run_id then finalized_run now state r else r) o.runs;
})
