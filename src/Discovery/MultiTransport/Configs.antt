-- ===== src/Discovery/MultiTransport/Configs.antt =====
-- The data of backend/app/discovery/multi_transport.py, and the order in which transports are tried.
use network_operations_platf.Common.{
  ℕ, ltb, Bool, true, false, String, Option, none, some, List, ◌++◌, any, keep, length, not, ◌&&◌,
  if◌then◌else◌,
}
use network_operations_platf.Discovery.Contracts.{
  DiscoveryFailureCode, TransportCapability, ssh, snmp, telnet, icmp, http, https,
}
use network_operations_platf.Discovery.ResultStates.{DiscoveryResultState}
use network_operations_platf.Discovery.MultiTransport.Payloads.{Fields}
use network_operations_platf.Discovery.MultiTransport.Exceptions.{Exception}

-- discovery/probing.py: the services that can be probed.
pub data TransportService : Type 0 where
  ssh_service telnet_service http_service https_service snmp_service : TransportService

pub service_eq : TransportService → TransportService → Bool
service_eq ssh_service ssh_service = true
service_eq telnet_service telnet_service = true
service_eq http_service http_service = true
service_eq https_service https_service = true
service_eq snmp_service snmp_service = true
service_eq _ _ = false

pub get_service_for_capability : TransportCapability → Option TransportService
get_service_for_capability ssh = some ssh_service
get_service_for_capability telnet = some telnet_service
get_service_for_capability http = some http_service
get_service_for_capability https = some https_service
get_service_for_capability snmp = some snmp_service
get_service_for_capability icmp = none

-- What `validate_payload` does with a payload.
pub data Validation : Type 0 where
  valid : Fields → Validation
  invalid : Validation
  raises : Exception → Validation

-- What the health check and the collection of a collector come to.
pub data Collection : Type 0 where
  failed : Exception → Collection
  not_a_dict : Collection
  collected : Fields → Collection

pub record TransportAttemptConfig : Type 0 where
  pub transport_name : String
  pub capability : TransportCapability
  pub is_insecure : Bool
  pub collection : Collection
  pub validate_payload : Option (Fields → Validation)

pub record TransportAttemptResult : Type 0 where
  pub transport_name : String
  pub attempt_order : ℕ
  pub success : Bool
  pub failure_code : Option DiscoveryFailureCode
  pub failure_message : Option String
  pub payload : Option Fields
  pub device_info : Option Fields

-- A durable attempt row: `finished` holds its result, failure code and message.
pub record AttemptRow : Type 0 where
  pub transport : String
  pub row_order : ℕ
  pub finished : Option (String × Option String × Option String)

pub record MultiTransportDiscoveryResult : Type 0 where
  pub address : String
  pub result_state : DiscoveryResultState
  pub selected_transport : Option String
  pub attempts : List TransportAttemptResult
  pub discovery_payload : Option Fields
  pub device_info : Option Fields
  pub rows : List AttemptRow

pub is_available : List TransportService → TransportAttemptConfig → Bool
unfolding service_eq get_service_for_capability
is_available services config = elim (get_service_for_capability config.capability) [
  | none ↦ false
  | some service ↦ any (service_eq service) services
]

unfoldable pub reorder_transports_by_availability :
    List TransportAttemptConfig → List TransportService → List TransportAttemptConfig
unfolding is_available
reorder_transports_by_availability configs services =
    keep (is_available services) configs ++ keep (λ c. not (is_available services c)) configs

-- The reordering, unless the prober raised.
unfoldable pub reordered :
    Option (List TransportService) → List TransportAttemptConfig → List TransportAttemptConfig
reordered none configs = configs
reordered (some services) configs = reorder_transports_by_availability configs services

-- The configurations in the order in which they are tried: `probed` is what the prober found, or
-- `none` if it raised.
unfoldable pub attempt_sequence :
    Bool
    → Bool
    → Option (List TransportService)
    → List TransportAttemptConfig
    → List TransportAttemptConfig
attempt_sequence should_probe allow_reorder probed configs =
    if should_probe && ltb 1 (length configs) && allow_reorder
    then reordered probed configs
    else configs
