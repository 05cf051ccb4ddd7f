-- ===== src/Discovery/ResultStates.antt =====
-- backend/app/discovery/result_states.py: what one transport failure says of a host, and the
-- classification of a whole discovery.
use network_operations_platf.Common.{
  Bool, true, false, String, Option, none, some, not, if◌then◌else◌,
}
use network_operations_platf.Discovery.Contracts.{DiscoveryFailureCode, failure_code}

pub data DiscoveryResultState : Type 0 where
  unreachable reachable_no_management auth_rejected partial_discovery discovered unverified
        was_cancelled interrupted :
      DiscoveryResultState

abbrev pub is_reachable : DiscoveryResultState → Bool
is_reachable unreachable = false
is_reachable _ = true

abbrev pub is_discovered : DiscoveryResultState → Bool
is_discovered discovered = true
is_discovered _ = false

pub record Indicators : Type 0 where
  pub host_reachable : Bool
  pub auth_failed : Bool
  pub service_available : Bool
  pub transport_unavailable : Bool

unfoldable pub from_failure_and_success :
    Bool → Bool → Bool → Bool → Bool → Bool → DiscoveryResultState
from_failure_and_success is_reachable has_management_service auth_failed has_partial_data
      is_fully_discovered transport_unavailable =
    if is_fully_discovered
    then discovered
    else if has_partial_data
    then partial_discovery
    else if auth_failed
    then auth_rejected
    else if transport_unavailable
    then unverified
    else if not is_reachable
    then unreachable
    else if not has_management_service
    then reachable_no_management
    else reachable_no_management

-- reachable, authentication failed, service available, transport unavailable
abbrev indicators : Bool → Bool → Bool → Bool → Indicators
indicators r a s u = record {
  host_reachable = r;
  auth_failed = a;
  service_available = s;
  transport_unavailable = u;
}

unfoldable pub classify_code : DiscoveryFailureCode → Indicators
classify_code DiscoveryFailureCode.authentication_failed = indicators true true true false
classify_code DiscoveryFailureCode.credential_resolution_failed = indicators true false false false
classify_code DiscoveryFailureCode.unsupported_credential = indicators true false true false
classify_code DiscoveryFailureCode.transport_disabled = indicators true false false false
classify_code DiscoveryFailureCode.connection_refused = indicators true false false false
classify_code DiscoveryFailureCode.host_unreachable = indicators false false false false
classify_code DiscoveryFailureCode.connection_timeout = indicators false false false false
classify_code DiscoveryFailureCode.timeout = indicators false false false false
classify_code DiscoveryFailureCode.discovery_timeout = indicators false false false false
classify_code DiscoveryFailureCode.transport_unavailable = indicators false false false true
classify_code DiscoveryFailureCode.discovery_failed = indicators true false true false
classify_code DiscoveryFailureCode.collector_failed = indicators true false true false
classify_code DiscoveryFailureCode.parser_failed = indicators true false true false
classify_code DiscoveryFailureCode.normalization_failed = indicators true false true false
classify_code DiscoveryFailureCode.evidence_persistence_failed = indicators true false true false
classify_code DiscoveryFailureCode.snapshot_persistence_failed = indicators true false true false
classify_code DiscoveryFailureCode.connection_failed = indicators false false false false
classify_code _ = indicators true false true false

-- The codes arrive as texts: an enumeration member is one too.
unfoldable pub classify_transport_failure : Option String → Indicators
classify_transport_failure none = indicators true false true false
classify_transport_failure (some text) = elim (failure_code text) [
  | none ↦ indicators false false false false
  | some code ↦ classify_code code
]
