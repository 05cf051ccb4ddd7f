-- ===== src/Discovery/Contracts.antt =====
-- backend/app/discovery/contracts.py: job states and their transitions, failure codes, and the
-- ordered transport policy of a target.
pub mod Transitions
pub mod Codes
pub mod Ordered
mod Examples
use network_operations_platf.Common.{
  ℕ, Bool, true, false, String, Option, none, some, List, [], ◌∷◌, ◌++◌, first, any, str_eq, not,
  ◌&&◌, suc, if◌then◌else◌,
}

pub data DiscoveryJobStatus : Type 0 where
  queued running succeeded failed timed_out cancelled : DiscoveryJobStatus

abbrev pub is_terminal : DiscoveryJobStatus → Bool
is_terminal queued = false
is_terminal running = false
is_terminal _ = true

abbrev pub status_eq : DiscoveryJobStatus → DiscoveryJobStatus → Bool
status_eq queued queued = true
status_eq running running = true
status_eq succeeded succeeded = true
status_eq failed failed = true
status_eq timed_out timed_out = true
status_eq cancelled cancelled = true
status_eq _ _ = false

unfoldable pub allowed_transitions : DiscoveryJobStatus → List DiscoveryJobStatus
allowed_transitions queued = running ∷ cancelled ∷ []
allowed_transitions running = succeeded ∷ failed ∷ timed_out ∷ cancelled ∷ []
allowed_transitions _ = []

-- `none` is the `ValueError` of an illegal transition.
unfoldable pub transition_job : DiscoveryJobStatus → DiscoveryJobStatus → Option DiscoveryJobStatus
unfolding allowed_transitions
transition_job current target =
    if not (any (status_eq target) (allowed_transitions current)) then none else some target

-- A caller that asks for one state after another and keeps the old one when it is refused; with
-- the number of transitions that were made.
pub drive : DiscoveryJobStatus → List DiscoveryJobStatus → DiscoveryJobStatus × ℕ
drive s [] = (s, 0)
drive s (t ∷ ts) = elim (transition_job s t) [
  | none ↦ drive s ts
  | some u ↦ (let (end, n) = drive u ts in (end, suc n))
]

pub data DiscoveryFailureCode : Type 0 where
  target_not_found target_disabled unsupported_vendor credential_resolution_failed
        authentication_failed unsupported_credential connection_failed connection_timeout
        host_unreachable connection_refused timeout discovery_timeout discovery_failed
        transport_unavailable transport_disabled unsupported_platform ambiguous_platform
        unsupported_capability collector_failed parser_failed normalization_failed
        evidence_persistence_failed snapshot_persistence_failed job_cancelled :
      DiscoveryFailureCode

unfoldable pub value : DiscoveryFailureCode → String
value target_not_found = "TARGET_NOT_FOUND"
value target_disabled = "TARGET_DISABLED"
value unsupported_vendor = "UNSUPPORTED_VENDOR"
value credential_resolution_failed = "CREDENTIAL_RESOLUTION_FAILED"
value authentication_failed = "AUTHENTICATION_FAILED"
value unsupported_credential = "UNSUPPORTED_CREDENTIAL"
value connection_failed = "CONNECTION_FAILED"
value connection_timeout = "CONNECTION_TIMEOUT"
value host_unreachable = "HOST_UNREACHABLE"
value connection_refused = "CONNECTION_REFUSED"
value timeout = "TIMEOUT"
value discovery_timeout = "DISCOVERY_TIMEOUT"
value discovery_failed = "DISCOVERY_FAILED"
value transport_unavailable = "TRANSPORT_UNAVAILABLE"
value transport_disabled = "TRANSPORT_DISABLED"
value unsupported_platform = "UNSUPPORTED_PLATFORM"
value ambiguous_platform = "AMBIGUOUS_PLATFORM"
value unsupported_capability = "UNSUPPORTED_CAPABILITY"
value collector_failed = "COLLECTOR_FAILED"
value parser_failed = "PARSER_FAILED"
value normalization_failed = "NORMALIZATION_FAILED"
value evidence_persistence_failed = "EVIDENCE_PERSISTENCE_FAILED"
value snapshot_persistence_failed = "SNAPSHOT_PERSISTENCE_FAILED"
value job_cancelled = "CANCELLED"

pub codes : List DiscoveryFailureCode
codes =
    target_not_found ∷ target_disabled ∷ unsupported_vendor ∷ credential_resolution_failed
    ∷ authentication_failed ∷ unsupported_credential ∷ connection_failed ∷ connection_timeout
    ∷ host_unreachable ∷ connection_refused ∷ timeout ∷ discovery_timeout ∷ discovery_failed
    ∷ transport_unavailable ∷ transport_disabled ∷ unsupported_platform ∷ ambiguous_platform
    ∷ unsupported_capability ∷ collector_failed ∷ parser_failed ∷ normalization_failed
    ∷ evidence_persistence_failed ∷ snapshot_persistence_failed ∷ job_cancelled ∷ []

-- `DiscoveryFailureCode(text)`: the member with that value, or the `ValueError`.
unfoldable pub failure_code : String → Option DiscoveryFailureCode
unfolding codes value
failure_code text = first (λ c. str_eq (value c) text) codes

-- transports/base.py: the transport capabilities.
pub data TransportCapability : Type 0 where
  ssh snmp telnet icmp http https : TransportCapability

unfoldable pub capability_eq : TransportCapability → TransportCapability → Bool
capability_eq ssh ssh = true
capability_eq snmp snmp = true
capability_eq telnet telnet = true
capability_eq icmp icmp = true
capability_eq http http = true
capability_eq https https = true
capability_eq _ _ = false

pub record DiscoveryTransportPolicy : Type 0 where
  pub preferred : Option TransportCapability
  pub fallbacks : List TransportCapability
  pub allow_insecure_telnet : Bool

-- `tuple(dict.fromkeys(xs))`: each element at its first place.
pub unique_from : List TransportCapability → List TransportCapability → List TransportCapability
unique_from seen [] = []
unique_from seen (c ∷ cs) =
    let skipped = unique_from seen cs in
    let added = c ∷ unique_from (c ∷ seen) cs in
    if any (capability_eq c) seen then skipped else added

pub configured : DiscoveryTransportPolicy → List TransportCapability
configured p = elim p.preferred [ none ↦ p.fallbacks | some c ↦ c ∷ p.fallbacks ]

-- `none` is the `ValueError` for telnet without approval.
pub ordered : DiscoveryTransportPolicy → Option (List TransportCapability)
unfolding configured
ordered p =
    if not p.allow_insecure_telnet && any (capability_eq telnet) (configured p)
    then none
    else some (unique_from [] (configured p))
