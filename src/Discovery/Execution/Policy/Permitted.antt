-- ===== src/Discovery/Execution/Policy/Permitted.antt =====
-- What the policy of one device permits (backend/app/discovery/execution.py).
use network_operations_platf.Common.{
  ℕ, ◌≡◌, refl, sym, ap, subst, ◌∙◌, true, false, String, Option, none, some, List, [], ◌∷◌, any,
  map, All, str_eq, lower, upper, not, ◌&&◌, arith, Bool-cases, Option-cases, inl, inr, lower_http,
}
use network_operations_platf.Discovery.Contracts.{TransportCapability, http, capability_eq}
use network_operations_platf.Discovery.MultiTransport.{TransportService}
use network_operations_platf.Discovery.TransportPolicy.{
  capability_of, capability_to_service, is_insecure_transport, TransportPolicyEntry,
  MultiTransportPolicy, CredentialProfile, checked, is_compatible, is_forbidden, types_of,
}
use network_operations_platf.Discovery.TransportPolicy.Allowed.{from_credential_profile_lem}
use network_operations_platf.Discovery.Execution.Policy.Names.{NoRepeats}
use network_operations_platf.Discovery.Execution.Policy.Ordered.{
  IsName, ssh-IsName, names_of-IsName, ordered_names-IsName,
}
use network_operations_platf.Discovery.Execution.Policy.{
  TargetMetadata, profile_of, names_of, policy_entry, policy_entries, ordered_names, policy_from,
  resolve_with, resolve_transport_policy,
}

-- An entry says the truth about its transport; an insecure transport has the approval of Telnet,
-- and HTTP has that of HTTP besides.
pub record IsPermitted (m : TargetMetadata) (e : TransportPolicyEntry) : Type 0 where
  pub approved : is_insecure_transport e.capability ≡ true → m.allow_insecure_telnet ≡ true
  pub approved_http : capability_eq e.capability http ≡ true → m.allow_insecure_http ≡ true
  pub flagged : e.is_insecure ≡ is_insecure_transport e.capability
  pub served : capability_to_service e.capability ≡ some e.service

module _ (m : TargetMetadata) (type : Option String) where
  entry_for : TransportCapability → TransportService → String → TransportPolicyEntry
  entry_for c s name = record {
    capability = c;
    transport_name = lower name;
    service = s;
    is_insecure = is_insecure_transport c;
    credential_compatible = is_compatible type (lower name);
  }

  -- What an entry made from a name in small letters is.
  abbrev IsFrom : String → TransportPolicyEntry → Type 0
  IsFrom name e = IsPermitted m e × (e.transport_name ≡ name)

  http_name : (t : String) → capability_of t ≡ some http → str_eq t "HTTP" ≡ true
  unfolding capability_of
  http_name t e = ground (arith, e)

  is_http : (c : TransportCapability) → capability_eq c http ≡ true → c ≡ http
  unfolding capability_eq
  is_http c e = ground (arith, e)

  entry_for-IsFrom :
      (c : TransportCapability) (s : TransportService) (name : String)
      → IsName m.allow_insecure_http name
      → capability_of (upper name) ≡ some c
      → capability_to_service c ≡ some s
      → (is_insecure_transport c && not m.allow_insecure_telnet) ≡ false
      → IsFrom name (entry_for c s name)
  unfolding entry_for
  entry_for-IsFrom c s name n x y z = (
    record {
      approved = λ q. ground (arith, q, z);
      approved_http = λ q.
          let read : capability_of (upper name) ≡ some http = x ∙ ap some (is_http c q) in
          let big : str_eq (upper (lower name)) "HTTP" ≡ true =
            subst (λ w. str_eq (upper w) "HTTP" ≡ true) (sym n.0) (http_name (upper name) read) in
          n.1 (subst (λ w. str_eq w "http" ≡ true) n.0 (lower_http name big));
      flagged = refl;
      served = y;
    },
    n.0,
  )

  policy_entry-IsFrom :
      (name : String) (e : TransportPolicyEntry)
      → IsName m.allow_insecure_http name
      → policy_entry m.allow_insecure_telnet type name ≡ some e
      → IsFrom name e
  unfolding policy_entry
  policy_entry-IsFrom name e n made = elim (Option-cases (capability_of (upper name))) [
    | inl x ↦ ground (arith, x, made)
    | inr (c, x) ↦ elim (Option-cases (capability_to_service c)) [
      | inl y ↦ ground (arith, x, y, made)
      | inr (s, y) ↦ elim (Bool-cases (is_insecure_transport c && not m.allow_insecure_telnet)) [
        | inl z ↦ ground (arith, x, y, z, made)
        | inr z ↦
            let q : policy_entry m.allow_insecure_telnet type name ≡ some (entry_for c s name) =
              unfold entry_for in ground (arith, x, y, z) in
            let same_entry : entry_for c s name ≡ e = some_inj (sym q ∙ made) in
            subst (IsFrom name) same_entry (entry_for-IsFrom c s name n x y z)
      ]
    ]
  ]
    where
      some_inj : {x y : TransportPolicyEntry} → some x ≡ some y → x ≡ y
      some_inj h = cc

  -- The entries are permitted and bear some of the names, each once.
  abbrev IsEntries : List String → List TransportPolicyEntry → Type 0
  IsEntries names es =
      All (IsPermitted m) es
      × NoRepeats (map (λ e. e.transport_name) es)
      × ((x : String)
          → any (str_eq x) names ≡ false
          → any (str_eq x) (map (λ e. e.transport_name) es) ≡ false)

  policy_entries-IsEntries :
      (names : List String)
      → All (IsName m.allow_insecure_http) names
      → NoRepeats names
      → IsEntries names (policy_entries m.allow_insecure_telnet type names)
  unfolding policy_entries
  policy_entries-IsEntries [] n d = (tt, tt, λ x a. refl)
  policy_entries-IsEntries (t ∷ ts) n d =
      let es = policy_entries m.allow_insecure_telnet type ts in
      let (all, distinct, absent) = policy_entries-IsEntries ts n.1 d.1 in
      elim (Option-cases (policy_entry m.allow_insecure_telnet type t)) [
        | inl x ↦
            let q : policy_entries m.allow_insecure_telnet type (t ∷ ts) ≡ es = ground (arith, x) in
            subst (IsEntries (t ∷ ts)) (sym q) (all, distinct, λ w a. absent w (ground (arith, a)))
        | inr (e, x) ↦
            let q : policy_entries m.allow_insecure_telnet type (t ∷ ts) ≡ e ∷ es =
              ground (arith, x) in
            let (good, same_name) = policy_entry-IsFrom t e n.0 x in
            subst (IsEntries (t ∷ ts)) (sym q) (
              (good, all),
              (
                subst (λ z. any (str_eq z) (map (λ y. y.transport_name) es) ≡ false) (sym same_name)
                    (absent t d.0),
                distinct,
              ),
              λ w a.
                  let other : any (str_eq w) ts ≡ false = ground (arith, a) in
                  let here : str_eq w e.transport_name ≡ false =
                    subst (λ z. str_eq w z ≡ false) (sym same_name) (ground (arith, a)) in
                  ground (arith, here, absent w other),
            )
      ]

permitted-any :
    (m : TargetMetadata) (ts : List TransportPolicyEntry)
    → All (IsPermitted m) ts
    → any (is_forbidden m.allow_insecure_telnet m.allow_insecure_http) ts ≡ false
unfolding is_forbidden is_insecure_transport
permitted-any m [] p = refl
permitted-any m (t ∷ ts) p = ground (arith, permitted-any m ts p.1, p.0.approved, p.0.approved_http)

-- What is said of the policy of a device.
abbrev pub IsResolved : TargetMetadata → Option MultiTransportPolicy → Type 0
IsResolved m o =
    (p : MultiTransportPolicy) × (o ≡ some p)
    × NoRepeats (map (λ e. e.transport_name) p.transports)
    × All (IsPermitted m) p.transports

policy_from-IsResolved :
    (m : TargetMetadata) (profile : Option CredentialProfile) (names : List String)
    → All (IsName m.allow_insecure_http) names × NoRepeats names
    → IsResolved m (policy_from m profile names)
unfolding policy_from
policy_from-IsResolved m profile names n =
    let type : Option String = elim profile [ none ↦ none | some p ↦ p.credential_type ] in
    let (all, distinct, _) = policy_entries-IsEntries m type names n.0 n.1 in
    let p : MultiTransportPolicy = record {
      transports = policy_entries m.allow_insecure_telnet type names;
      allow_insecure = m.allow_insecure_telnet;
      allow_insecure_http = m.allow_insecure_http;
      credential_profile_id = elim profile [ none ↦ none | some c ↦ some c.id ];
    } in
    let clean = permitted-any m p.transports all in
    (p, unfold checked in ground (arith, clean), distinct, all)

resolve_with-IsResolved :
    (m : TargetMetadata) (profile : Option CredentialProfile)
    → IsResolved m (resolve_with m profile)
unfolding resolve_with
resolve_with-IsResolved m none =
    policy_from-IsResolved m none (ordered_names m none ("ssh" ∷ []))
      (ordered_names-IsName m none ("ssh" ∷ []) (ssh-IsName m.allow_insecure_http, tt))
resolve_with-IsResolved m (some profile) =
    let (p, made, _, all, _) =
      from_credential_profile_lem m.allow_insecure_telnet m.allow_insecure_http profile in
    let supported = some (map lower profile.transport_types) in
    let names = names_of m.allow_insecure_telnet m.allow_insecure_http p in
    let next = policy_from m (some profile) (ordered_names m supported names) in
    let q : resolve_with m (some profile) ≡ next = ground (arith, made) in
    subst (IsResolved m) (sym q) (
      policy_from-IsResolved m (some profile) (ordered_names m supported names) (
        ordered_names-IsName m supported names (
          names_of-IsName m.allow_insecure_telnet m.allow_insecure_http profile.credential_type
            (types_of profile) p all)))

-- Whatever a target's settings and its credential profile say, the execution of its job resolves a
-- policy that its own validation accepts. No transport stands in it twice; Telnet and HTTP stand in
-- it only if the target allows insecure Telnet, HTTP only if it allows insecure HTTP as well; and an
-- entry carries the insecurity and the service of its transport.
pub resolve_transport_policy_lem :
    (uuid : String → Option ℕ) (find : ℕ → Option CredentialProfile) (m : TargetMetadata)
    → IsResolved m (resolve_transport_policy uuid find m)
unfolding resolve_transport_policy
resolve_transport_policy_lem uuid find m =
    resolve_with-IsResolved m (profile_of uuid find m.credential_profile_id)
