-- ===== src/Discovery/Execution/Policy.antt =====
-- `_resolve_transport_policy` of backend/app/discovery/execution.py: the transports of one device, from
-- its credential profile and its own settings. Whether a text is a UUID, and which profile the
-- tenant has under it, are parameters.
mod Names
mod Ordered
pub mod Permitted
use network_operations_platf.Common.{
  ℕ, Bool, true, false, String, Option, none, some, List, [], ◌∷◌, ◌++◌, any, keep, map, str_eq,
  lower, upper, not, ◌&&◌, ◌||◌, is_none, if◌then◌else◌,
}
use network_operations_platf.Discovery.Contracts.{TransportCapability, telnet, http, capability_eq}
use network_operations_platf.Discovery.TransportPolicy.{
  capability_of, capability_to_service, is_insecure_transport, TransportPolicyEntry,
  MultiTransportPolicy, CredentialProfile, checked, is_compatible, from_credential_profile,
}

-- What the method reads of a target's metadata. A fallback list that is no list counts as empty, a
-- transport name that is no text as none.
pub record TargetMetadata : Type 0 where
  pub allow_insecure_telnet : Bool
  pub allow_insecure_http : Bool
  pub credential_profile_id : Option String
  pub allowed_fallback_transports : List String
  pub transport_name : Option String

-- The profile of the target; a text that is no UUID is skipped.
profile_of :
    (String → Option ℕ) → (ℕ → Option CredentialProfile) → Option String → Option CredentialProfile
profile_of uuid find none = none
profile_of uuid find (some raw) =
    if str_eq raw "" then none else elim (uuid raw) [ none ↦ none | some k ↦ find k ]

-- `transport_names or ["ssh"]`
unfoldable pub or_ssh : List String → List String
or_ssh [] = "ssh" ∷ []
or_ssh (t ∷ ts) = t ∷ ts

unfoldable pub is_usable : Bool → Bool → TransportPolicyEntry → Bool
is_usable a h t =
    not t.is_insecure
    || capability_eq t.capability telnet && a
    || capability_eq t.capability http && h

-- The names that the profile's policy gives.
unfoldable pub names_of : Bool → Bool → MultiTransportPolicy → List String
unfolding or_ssh is_usable
names_of a h policy = or_ssh (map (λ t. t.transport_name) (keep (is_usable a h) policy.transports))

-- The body of the loop over the fallbacks. `supported` are the profile's transports, if there is one.
unfoldable pub with_fallback :
    Bool → Bool → Option (List String) → List String → String → List String
with_fallback a h supported names name =
    if elim supported [ none ↦ false | some ts ↦ not (any (str_eq name) ts) ]
    then names
    else if any (str_eq name) names
    then names
    else if str_eq name "telnet" && not a
    then names
    else if str_eq name "http" && not h
    then names
    else names ++ name ∷ []

unfoldable pub with_fallbacks :
    Bool → Bool → Option (List String) → List String → List String → List String
unfolding with_fallback
with_fallbacks a h supported names [] = names
with_fallbacks a h supported names (t ∷ ts) =
    with_fallbacks a h supported (with_fallback a h supported names (lower t)) ts

-- Without repeated names; `seen` are the names so far.
unfoldable pub unique_names : List String → List String → List String
unique_names seen [] = []
unique_names seen (t ∷ ts) =
    let kept = unique_names (t ∷ seen) ts in
    let dropped = unique_names seen ts in if any (str_eq t) seen then dropped else t ∷ kept

-- `ordered.remove(name)`: its first place.
unfoldable pub remove : String → List String → List String
remove name [] = []
remove name (t ∷ ts) = let rest = remove name ts in if str_eq t name then ts else t ∷ rest

-- The preferred transport comes first, if it is among the names.
unfoldable pub preferred_first : Option String → List String → List String
unfolding remove
preferred_first none ordered = ordered
preferred_first (some preferred) ordered =
    if any (str_eq (lower preferred)) ordered
    then lower preferred ∷ remove (lower preferred) ordered
    else ordered

-- The body of the last loop; `none` is `continue`.
unfoldable pub policy_entry : Bool → Option String → String → Option TransportPolicyEntry
policy_entry a credential_type tname = elim (capability_of (upper tname)) [
  | none ↦ none
  | some cap ↦ elim (capability_to_service cap) [
    | none ↦ none
    | some svc ↦
        if is_insecure_transport cap && not a
        then none
        else some (record {
          capability = cap;
          transport_name = lower tname;
          service = svc;
          is_insecure = is_insecure_transport cap;
          credential_compatible = is_compatible credential_type (lower tname);
        })
  ]
]

unfoldable pub policy_entries : Bool → Option String → List String → List TransportPolicyEntry
unfolding policy_entry
policy_entries a credential_type [] = []
policy_entries a credential_type (t ∷ ts) =
    let rest = policy_entries a credential_type ts in
    elim (policy_entry a credential_type t) [ none ↦ rest | some e ↦ e ∷ rest ]

-- The names before the last loop.
unfoldable pub ordered_names : TargetMetadata → Option (List String) → List String → List String
unfolding with_fallbacks unique_names preferred_first
ordered_names m supported names = preferred_first m.transport_name (
    unique_names [] (
      with_fallbacks m.allow_insecure_telnet m.allow_insecure_http supported names
        m.allowed_fallback_transports))

-- The policy of the names, checked when it is made.
unfoldable pub policy_from :
    TargetMetadata → Option CredentialProfile → List String → Option MultiTransportPolicy
unfolding policy_entries
policy_from m profile names =
    let credential_type : Option String = elim profile [
      | none ↦ none
      | some p ↦ p.credential_type
    ] in
    checked (record {
      transports = policy_entries m.allow_insecure_telnet credential_type names;
      allow_insecure = m.allow_insecure_telnet;
      allow_insecure_http = m.allow_insecure_http;
      credential_profile_id = elim profile [ none ↦ none | some p ↦ some p.id ];
    })

-- With the profile found; `none` is a `ValueError` of a policy's validation.
unfoldable pub resolve_with :
    TargetMetadata → Option CredentialProfile → Option MultiTransportPolicy
unfolding names_of ordered_names policy_from
resolve_with m none = policy_from m none (ordered_names m none ("ssh" ∷ []))
resolve_with m (some profile) =
    elim (from_credential_profile m.allow_insecure_telnet m.allow_insecure_http profile) [
      | none ↦ none
      | some policy ↦ policy_from m (some profile) (
          ordered_names m (some (map lower profile.transport_types))
            (names_of m.allow_insecure_telnet m.allow_insecure_http policy))
    ]

unfoldable pub resolve_transport_policy :
    (String → Option ℕ)
    → (ℕ → Option CredentialProfile)
    → TargetMetadata
    → Option MultiTransportPolicy
unfolding profile_of resolve_with
resolve_transport_policy uuid find m = resolve_with m (profile_of uuid find m.credential_profile_id)
