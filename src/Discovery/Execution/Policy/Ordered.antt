-- ===== src/Discovery/Execution/Policy/Ordered.antt =====
-- The names that go into the policy of one device (backend/app/discovery/execution.py).
use network_operations_platf.Common.{
  ◌≡◌, refl, sym, ap, subst, ◌∙◌, Bool, true, false, String, Option, none, some, List, [], ◌∷◌,
  ◌++◌, any, keep, map, All, All-append, All-keep, All-map, str_eq, lower, upper, not, ◌&&◌, arith,
  Bool-cases, inl, inr, if◌then◌else◌, eq_iff, upper_http, lower-lower,
}
use network_operations_platf.Discovery.Contracts.{TransportCapability, http, capability_eq}
use network_operations_platf.Discovery.TransportPolicy.{
  capability_of, TransportPolicyEntry, MultiTransportPolicy,
}
use network_operations_platf.Discovery.TransportPolicy.Allowed.{IsAllowed}
use network_operations_platf.Discovery.Execution.Policy.Names.{
  NoRepeats, unique_names-All, preferred_first-All, unique_names-NoRepeats,
  preferred_first-NoRepeats,
}
use network_operations_platf.Discovery.Execution.Policy.{
  TargetMetadata, or_ssh, is_usable, names_of, with_fallback, with_fallbacks, unique_names,
  ordered_names,
}

-- A name in small letters that is not HTTP without approval.
abbrev pub IsName : Bool → String → Type 0
IsName h n = (lower n ≡ n) × (str_eq n "http" ≡ true → h ≡ true)

All-or_ssh : (P : String → Type 0) (ts : List String) → P "ssh" → All P ts → All P (or_ssh ts)
unfolding or_ssh
All-or_ssh P [] s p = (s, tt)
All-or_ssh P (t ∷ ts) s p = p

pub ssh-IsName : (h : Bool) → IsName h "ssh"
unfolding lower
ssh-IsName h = (refl, λ e. ground (arith, e))

capability_http : (c : TransportCapability) → some c ≡ some http → capability_eq c http ≡ true
unfolding capability_eq
capability_http c e =
    let same : c ≡ http = cc in subst (λ z. capability_eq z http ≡ true) (sym same) refl

-- The entries of a profile have such names.
entry-IsName :
    (a h : Bool) (type : Option String) (names : List String) (e : TransportPolicyEntry)
    → IsAllowed a h type names e
    → IsName h e.transport_name
entry-IsName a h type names e i =
    let (n, same_name, read) = i.named in
    (
      subst (λ z. lower z ≡ z) same_name (lower-lower n),
      λ q.
          let small : str_eq (lower n) "http" ≡ true =
            subst (λ z. str_eq z "http" ≡ true) (sym same_name) q in
          let big : upper n ≡ "HTTP" = (eq_iff (upper n) "HTTP").0 (upper_http n small) in
          let is_http : capability_of (upper n) ≡ some http =
            ap capability_of big ∙ unfold capability_of in refl in
          i.has_http (capability_http e.capability (sym read ∙ is_http)),
    )

pub names_of-IsName :
    (a h : Bool) (type : Option String) (names : List String) (p : MultiTransportPolicy)
    → All (IsAllowed a h type names) p.transports
    → All (IsName h) (names_of a h p)
unfolding names_of
names_of-IsName a h type names p i =
    All-or_ssh (IsName h) (map (λ t. t.transport_name) (keep (is_usable a h) p.transports))
      (ssh-IsName h)
      (All-map (IsAllowed a h type names) (IsName h) (λ t. t.transport_name)
        (entry-IsName a h type names) (keep (is_usable a h) p.transports)
        (All-keep (IsAllowed a h type names) (is_usable a h) p.transports i))

with_fallback-IsName :
    (a h : Bool) (supported : Option (List String)) (names : List String) (t : String)
    → All (IsName h) names
    → All (IsName h) (with_fallback a h supported names (lower t))
unfolding with_fallback
with_fallback-IsName a h supported names t p =
    go (elim supported [ none ↦ false | some ts ↦ not (any (str_eq (lower t)) ts) ])
      (any (str_eq (lower t)) names) (str_eq (lower t) "telnet" && not a)
  where
    go :
        (b c d : Bool)
        → All (IsName h) (
            if b
            then names
            else if c
            then names
            else if d
            then names
            else if str_eq (lower t) "http" && not h
            then names
            else names ++ lower t ∷ [])
    go true c d = p
    go false true d = p
    go false false true = p
    go false false false = elim (Bool-cases (str_eq (lower t) "http" && not h)) [
      | inl y ↦ rw y p
      | inr n ↦ rw n (
          All-append (IsName h) names (lower t ∷ []) p
            ((lower-lower t, λ q. ground (arith, q, n)), tt))
    ]

with_fallbacks-IsName :
    (a h : Bool) (supported : Option (List String)) (names ts : List String)
    → All (IsName h) names
    → All (IsName h) (with_fallbacks a h supported names ts)
unfolding with_fallbacks
with_fallbacks-IsName a h supported names [] p = p
with_fallbacks-IsName a h supported names (t ∷ ts) p =
    with_fallbacks-IsName a h supported (with_fallback a h supported names (lower t)) ts
      (with_fallback-IsName a h supported names t p)

pub ordered_names-IsName :
    (m : TargetMetadata) (supported : Option (List String)) (names : List String)
    → All (IsName m.allow_insecure_http) names
    → All (IsName m.allow_insecure_http) (ordered_names m supported names)
      × NoRepeats (ordered_names m supported names)
unfolding ordered_names
ordered_names-IsName m supported names p =
    let all =
      with_fallbacks m.allow_insecure_telnet m.allow_insecure_http supported names
        m.allowed_fallback_transports in
    (
      preferred_first-All (IsName m.allow_insecure_http) m.transport_name (unique_names [] all) (
          unique_names-All (IsName m.allow_insecure_http) [] all (
            with_fallbacks-IsName m.allow_insecure_telnet m.allow_insecure_http supported names
              m.allowed_fallback_transports p)),
      preferred_first-NoRepeats m.transport_name (unique_names [] all)
          (unique_names-NoRepeats [] all),
    )
