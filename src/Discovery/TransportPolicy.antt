-- ===== src/Discovery/TransportPolicy.antt =====
-- backend/app/discovery/transport_policy.py: the ordered transports that a credential profile allows.
-- A text that is read as a name is compared with ASCII letters in one case.
pub mod Allowed
mod Examples
use network_operations_platf.Common.{
  ℕ, Bool, true, false, String, Option, none, some, List, [], ◌∷◌, any, keep, map, str_eq, lower,
  upper, not, ◌&&◌, ◌||◌, if◌then◌else◌,
}
use network_operations_platf.Discovery.Contracts.{
  TransportCapability, ssh, snmp, telnet, icmp, http, https, capability_eq,
}
use network_operations_platf.Discovery.MultiTransport.{
  TransportService, ssh_service, telnet_service, http_service, https_service, snmp_service,
}

unfoldable pub capability_to_service : TransportCapability → Option TransportService
capability_to_service ssh = some ssh_service
capability_to_service telnet = some telnet_service
capability_to_service http = some http_service
capability_to_service https = some https_service
capability_to_service snmp = some snmp_service
capability_to_service icmp = none

-- `TransportCapability(text)`; `none` is its `ValueError`.
unfoldable pub capability_of : String → Option TransportCapability
capability_of text =
    if str_eq text "SSH"
    then some ssh
    else if str_eq text "SNMP"
    then some snmp
    else if str_eq text "TELNET"
    then some telnet
    else if str_eq text "ICMP"
    then some icmp
    else if str_eq text "HTTP"
    then some http
    else if str_eq text "HTTPS"
    then some https
    else none

-- The transports that carry passwords in the clear.
unfoldable pub is_insecure_transport : TransportCapability → Bool
is_insecure_transport c = capability_eq c telnet || capability_eq c http

-- The transports of a type of credentials.
pub credential_type_compatibility : String → List String
credential_type_compatibility t =
    if str_eq t "ssh_password"
    then "ssh" ∷ "telnet" ∷ "http" ∷ "https" ∷ []
    else if str_eq t "ssh_key"
    then "ssh" ∷ []
    else if str_eq t "telnet_password"
    then "telnet" ∷ []
    else if str_eq t "snmp_v2c"
    then "snmp" ∷ []
    else if str_eq t "snmp_v3"
    then "snmp" ∷ []
    else if str_eq t "http_basic"
    then "http" ∷ "https" ∷ []
    else if str_eq t "http_token"
    then "http" ∷ "https" ∷ []
    else []

pub record TransportPolicyEntry : Type 0 where
  pub capability : TransportCapability
  pub transport_name : String
  pub service : TransportService
  pub is_insecure : Bool
  pub credential_compatible : Bool

pub record MultiTransportPolicy : Type 0 where
  pub transports : List TransportPolicyEntry
  pub allow_insecure : Bool
  pub allow_insecure_http : Bool
  pub credential_profile_id : Option ℕ

-- What a policy takes from a credential profile.
pub record CredentialProfile : Type 0 where
  pub id : ℕ
  pub credential_type : Option String
  pub transport_types : List String

-- An entry that the flags of its policy do not allow.
unfoldable pub is_forbidden : Bool → Bool → TransportPolicyEntry → Bool
is_forbidden allow_insecure allow_insecure_http t =
    t.is_insecure
    && (capability_eq t.capability telnet && not allow_insecure
        || capability_eq t.capability http && not allow_insecure_http)

-- `__post_init__`; `none` is its `ValueError`.
unfoldable pub checked : MultiTransportPolicy → Option MultiTransportPolicy
unfolding is_forbidden
checked p =
    if (not p.allow_insecure || not p.allow_insecure_http)
      && any (is_forbidden p.allow_insecure p.allow_insecure_http) p.transports
    then none
    else some p

unfoldable pub transport_names : MultiTransportPolicy → List String
transport_names p = map (λ t. t.transport_name) p.transports

unfoldable pub has_insecure_transport : MultiTransportPolicy → Bool
has_insecure_transport p = any (λ t. t.is_insecure) p.transports

unfoldable pub is_empty : MultiTransportPolicy → Bool
is_empty p = elim p.transports [ [] ↦ true | _ ∷ _ ↦ false ]

-- Whether credentials of a type fit a transport; without a type they do.
unfoldable pub is_compatible : Option String → String → Bool
unfolding credential_type_compatibility
is_compatible none name = true
is_compatible (some t) name =
    if str_eq t "" then true else any (str_eq name) (credential_type_compatibility t)

pub get_compatible_transports : Option String → MultiTransportPolicy → List TransportPolicyEntry
unfolding credential_type_compatibility
get_compatible_transports none p = p.transports
get_compatible_transports (some t) p =
    if str_eq t ""
    then p.transports
    else keep (λ e. any (str_eq e.transport_name) (credential_type_compatibility t)) p.transports

-- The body of the loop over the transport types; `none` is `continue`.
unfoldable pub entry_of : Bool → Bool → Option String → String → Option TransportPolicyEntry
unfolding capability_of capability_to_service is_insecure_transport is_compatible
entry_of allow_insecure allow_insecure_http credential_type transport_name =
    elim (capability_of (upper transport_name)) [
      | none ↦ none
      | some capability ↦ elim (capability_to_service capability) [
        | none ↦ none
        | some service ↦
            if capability_eq capability telnet && not allow_insecure
              || capability_eq capability http && not allow_insecure_http
            then none
            else some (record {
              capability = capability;
              transport_name = lower transport_name;
              service = service;
              is_insecure = is_insecure_transport capability;
              credential_compatible = is_compatible credential_type (lower transport_name);
            })
      ]
    ]

unfoldable pub entries_of : Bool → Bool → Option String → List String → List TransportPolicyEntry
unfolding entry_of
entries_of allow_insecure allow_insecure_http credential_type [] = []
entries_of allow_insecure allow_insecure_http credential_type (name ∷ names) =
    let rest = entries_of allow_insecure allow_insecure_http credential_type names in
    elim (entry_of allow_insecure allow_insecure_http credential_type name) [
      | none ↦ rest
      | some e ↦ e ∷ rest
    ]

-- Without repeated names; `seen` are the names so far.
unique_entries : List String → List TransportPolicyEntry → List TransportPolicyEntry
unique_entries seen [] = []
unique_entries seen (t ∷ ts) =
    let kept = unique_entries (t.transport_name ∷ seen) ts in
    let dropped = unique_entries seen ts in
    if any (str_eq t.transport_name) seen then dropped else t ∷ kept

-- `profile.transport_types`, or SSH if there are none.
pub types_of : CredentialProfile → List String
types_of profile = elim profile.transport_types [ [] ↦ "ssh" ∷ [] | t ∷ ts ↦ t ∷ ts ]

unfoldable pub from_credential_profile :
    Bool → Bool → CredentialProfile → Option MultiTransportPolicy
unfolding checked entries_of unique_entries types_of
from_credential_profile allow_insecure allow_insecure_http profile = checked (record {
  transports =
      unique_entries []
        (entries_of allow_insecure allow_insecure_http profile.credential_type (types_of profile));
  allow_insecure = allow_insecure;
  allow_insecure_http = allow_insecure_http;
  credential_profile_id = some profile.id;
})
