-- ===== src/Discovery/TransportPolicy/Allowed.antt =====
-- What a policy made from a credential profile allows (backend/app/discovery/transport_policy.py).
use network_operations_platf.Common.{
  ◌≡◌, refl, sym, ap, subst, ◌∙◌, Bool, true, false, String, Option, none, some, List, [], ◌∷◌, any,
  keep, All, str_eq, lower, not, ◌&&◌, ◌||◌, arith, Bool-cases, Option-cases, inl, inr,
  if◌then◌else◌, upper, str_eq_refl,
}
use network_operations_platf.Discovery.Contracts.{TransportCapability, telnet, http, capability_eq}
use network_operations_platf.Discovery.MultiTransport.{TransportService}
use network_operations_platf.Discovery.TransportPolicy.{
  capability_of, capability_to_service, is_insecure_transport, credential_type_compatibility,
  TransportPolicyEntry, MultiTransportPolicy, CredentialProfile, is_forbidden, checked,
  is_compatible, get_compatible_transports, entry_of, entries_of, unique_entries, types_of,
  from_credential_profile,
}

-- An entry says the truth about its transport and its credentials, and is allowed. Its name is that
-- of a listed transport, and names its transport.
pub record IsAllowed (a h : Bool) (type : Option String) (names : List String)
    (e : TransportPolicyEntry) : Type 0 where
  pub has_telnet : capability_eq e.capability telnet ≡ true → a ≡ true
  pub has_http : capability_eq e.capability http ≡ true → h ≡ true
  pub insecure : e.is_insecure ≡ is_insecure_transport e.capability
  pub service : capability_to_service e.capability ≡ some e.service
  pub compatible : e.credential_compatible ≡ is_compatible type e.transport_name
  pub listed : any (λ n. str_eq (lower n) e.transport_name) names ≡ true
  pub named :
      (n : String) × (lower n ≡ e.transport_name) × (capability_of (upper n) ≡ some e.capability)

-- No two entries have one name, nor one of `seen`.
abbrev pub HasDistinctNames : List String → List TransportPolicyEntry → Type 0
HasDistinctNames seen [] = Unit
HasDistinctNames seen (t ∷ ts) =
    (any (str_eq t.transport_name) seen ≡ false) × HasDistinctNames (t.transport_name ∷ seen) ts

module _ (a h : Bool) (type : Option String) where
  -- The entry of a transport type.
  entry_for : TransportCapability → TransportService → String → TransportPolicyEntry
  entry_for c s name = record {
    capability = c;
    transport_name = lower name;
    service = s;
    is_insecure = is_insecure_transport c;
    credential_compatible = is_compatible type (lower name);
  }

  some_inj : (x y : TransportPolicyEntry) → some x ≡ some y → x ≡ y
  some_inj x y e = cc

  entry_for-IsAllowed :
      (c : TransportCapability) (s : TransportService) (name : String) (names : List String)
      → capability_of (upper name) ≡ some c
      → capability_to_service c ≡ some s
      → (capability_eq c telnet && not a || capability_eq c http && not h) ≡ false
      → IsAllowed a h type (name ∷ names) (entry_for c s name)
  unfolding entry_for
  entry_for-IsAllowed c s name names n x y = record {
    has_telnet = λ q. ground (arith, q, y);
    has_http = λ q. ground (arith, q, y);
    insecure = refl;
    service = x;
    compatible = refl;
    listed = ground (arith, str_eq_refl (lower name));
    named = (name, refl, n);
  }

  entry_of-IsAllowed :
      (name : String) (names : List String) (e : TransportPolicyEntry)
      → entry_of a h type name ≡ some e
      → IsAllowed a h type (name ∷ names) e
  unfolding entry_of
  entry_of-IsAllowed name names e made = elim (Option-cases (capability_of (upper name))) [
    | inl n ↦ ground (arith, n, made)
    | inr (c, n) ↦ elim (Option-cases (capability_to_service c)) [
      | inl x ↦ ground (arith, n, x, made)
      | inr (s, x) ↦
          elim (Bool-cases (capability_eq c telnet && not a || capability_eq c http && not h)) [
            | inl y ↦ ground (arith, n, x, y, made)
            | inr y ↦
                let same : entry_for c s name ≡ e =
                  unfold entry_for in
                  some_inj (entry_for c s name) e (
                    sym (
                      let q : entry_of a h type name ≡ some (entry_for c s name) =
                        unfold entry_for in ground (arith, n, x, y) in
                      q)
                    ∙ made) in
                subst (IsAllowed a h type (name ∷ names)) same
                  (entry_for-IsAllowed c s name names n x y)
          ]
    ]
  ]

  IsAllowed-later :
      (name : String) (names : List String) (e : TransportPolicyEntry)
      → IsAllowed a h type names e
      → IsAllowed a h type (name ∷ names) e
  IsAllowed-later name names e i = record {
    has_telnet = i.has_telnet;
    has_http = i.has_http;
    insecure = i.insecure;
    service = i.service;
    compatible = i.compatible;
    listed = ground (arith, i.listed);
    named = i.named;
  }

  All-later :
      (name : String) (names : List String) (es : List TransportPolicyEntry)
      → All (IsAllowed a h type names) es
      → All (IsAllowed a h type (name ∷ names)) es
  All-later name names [] p = tt
  All-later name names (e ∷ es) p = (IsAllowed-later name names e p.0, All-later name names es p.1)

  All-option :
      (o : Option TransportPolicyEntry) (P : TransportPolicyEntry → Type 0)
      (rest : List TransportPolicyEntry)
      → ((e : TransportPolicyEntry) → o ≡ some e → P e)
      → All P rest
      → All P (elim o [ none ↦ rest | some e ↦ e ∷ rest ])
  All-option none P rest f p = p
  All-option (some e) P rest f p = (f e refl, p)

  entries_of-IsAllowed :
      (names : List String) → All (IsAllowed a h type names) (entries_of a h type names)
  unfolding entries_of
  entries_of-IsAllowed [] = tt
  entries_of-IsAllowed (name ∷ names) =
      All-option (entry_of a h type name) (IsAllowed a h type (name ∷ names))
        (entries_of a h type names) (λ e made. entry_of-IsAllowed name names e made)
        (All-later name names (entries_of a h type names) (entries_of-IsAllowed names))

  unique_entries-All :
      (P : TransportPolicyEntry → Type 0) (seen : List String) (ts : List TransportPolicyEntry)
      → All P ts
      → All P (unique_entries seen ts)
  unfolding unique_entries
  unique_entries-All P seen [] p = tt
  unique_entries-All P seen (t ∷ ts) p = elim (Bool-cases (any (str_eq t.transport_name) seen)) [
    | inl y ↦ rw y (unique_entries-All P seen ts p.1)
    | inr n ↦ rw n ((p.0, unique_entries-All P (t.transport_name ∷ seen) ts p.1))
  ]

  unique_entries-HasDistinctNames :
      (seen : List String) (ts : List TransportPolicyEntry)
      → HasDistinctNames seen (unique_entries seen ts)
  unfolding unique_entries
  unique_entries-HasDistinctNames seen [] = tt
  unique_entries-HasDistinctNames seen (t ∷ ts) =
      elim (Bool-cases (any (str_eq t.transport_name) seen)) [
        | inl y ↦ rw y (unique_entries-HasDistinctNames seen ts)
        | inr n ↦ rw n ((n, unique_entries-HasDistinctNames (t.transport_name ∷ seen) ts))
      ]

  allowed-any :
      (names : List String) (ts : List TransportPolicyEntry)
      → All (IsAllowed a h type names) ts
      → any (is_forbidden a h) ts ≡ false
  unfolding is_forbidden
  allowed-any names [] p = refl
  allowed-any names (t ∷ ts) p =
      ground (arith, allowed-any names ts p.1, p.0.has_telnet, p.0.has_http)

  compatible_flags :
      (t : String) (names : List String) (ts : List TransportPolicyEntry)
      → type ≡ some t
      → str_eq t "" ≡ false
      → All (IsAllowed a h type names) ts
      → keep (λ e. any (str_eq e.transport_name) (credential_type_compatibility t)) ts
        ≡ keep (λ e. e.credential_compatible) ts
  compatible_flags t names [] known there p = refl
  compatible_flags t names (e ∷ es) known there p =
      let flag : e.credential_compatible
          ≡ any (str_eq e.transport_name) (credential_type_compatibility t) =
        p.0.compatible
        ∙ ap (λ x. is_compatible x e.transport_name) known
        ∙ unfold is_compatible in ground (arith, there) in
      ground (arith, flag, compatible_flags t names es known there p.1)

  compatible_untyped :
      (names : List String) (ts : List TransportPolicyEntry)
      → ((x : String) → is_compatible type x ≡ true)
      → All (IsAllowed a h type names) ts
      → ts ≡ keep (λ e. e.credential_compatible) ts
  compatible_untyped names [] free p = refl
  compatible_untyped names (e ∷ es) free p =
      let flag = p.0.compatible ∙ free e.transport_name in
      let rest = compatible_untyped names es free p.1 in
      subst
        (λ b. e ∷ es ≡ (
          if b
          then e ∷ keep (λ e. e.credential_compatible) es
          else keep (λ e. e.credential_compatible) es))
        (sym flag) (ap (λ xs. e ∷ xs) rest)

-- The filter by a type of credentials keeps the entries that are marked as compatible with it.
filter_lem :
    (type : Option String) (names : List String) (p : MultiTransportPolicy)
    → All (IsAllowed p.allow_insecure p.allow_insecure_http type names) p.transports
    → get_compatible_transports type p ≡ keep (λ e. e.credential_compatible) p.transports
unfolding get_compatible_transports
filter_lem none names p all =
    compatible_untyped p.allow_insecure p.allow_insecure_http none names p.transports
      (λ x. unfold is_compatible in refl) all
filter_lem (some t) names p all = elim (Bool-cases (str_eq t "")) [
  | inl y ↦ rw y (
      compatible_untyped p.allow_insecure p.allow_insecure_http (some t) names p.transports
        (λ x. unfold is_compatible in ground (arith, y)) all)
  | inr n ↦ rw n (
      compatible_flags p.allow_insecure p.allow_insecure_http (some t) t names p.transports refl n
        all)
]

-- A policy is made from every credential profile, whatever its texts, and never refused by its own
-- validation. Its entries have different names that the profile lists (or SSH if it lists none); they
-- include Telnet and HTTP only if the caller allows them, and carry the service of their transport;
-- and the filter by the profile's type of credentials gives the entries marked as compatible.
pub from_credential_profile_lem :
    (a h : Bool) (profile : CredentialProfile)
    → (p : MultiTransportPolicy) × (from_credential_profile a h profile ≡ some p)
      × HasDistinctNames [] p.transports
      × All (IsAllowed a h profile.credential_type (types_of profile)) p.transports
      × (get_compatible_transports profile.credential_type p
          ≡ keep (λ e. e.credential_compatible) p.transports)
from_credential_profile_lem a h profile =
    let entries = entries_of a h profile.credential_type (types_of profile) in
    let p : MultiTransportPolicy = record {
      transports = unique_entries [] entries;
      allow_insecure = a;
      allow_insecure_http = h;
      credential_profile_id = some profile.id;
    } in
    let all =
      unique_entries-All a h profile.credential_type
        (IsAllowed a h profile.credential_type (types_of profile)) [] entries
        (entries_of-IsAllowed a h profile.credential_type (types_of profile)) in
    let clean = allowed-any a h profile.credential_type (types_of profile) p.transports all in
    (
      p,
      unfold from_credential_profile checked in ground (arith, clean),
      unique_entries-HasDistinctNames a h profile.credential_type [] entries,
      all,
      filter_lem profile.credential_type (types_of profile) p all,
    )
