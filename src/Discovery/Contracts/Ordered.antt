-- ===== src/Discovery/Contracts/Ordered.antt =====
-- `DiscoveryTransportPolicy.ordered` (backend/app/discovery/contracts.py): the order of transports.
use network_operations_platf.Common.{
  ◌≡◌, ◌↔◌, inl, inr, true, false, none, some, List, [], ◌∷◌, any, arith, not, ◌&&◌, Bool-cases, ap,
  ◌∙◌,
}
use network_operations_platf.Discovery.Contracts.{
  TransportCapability, telnet, capability_eq, DiscoveryTransportPolicy, unique_from, configured,
  ordered,
}

-- No capability stands twice.
abbrev pub HasNoRepeat : List TransportCapability → Type 0
HasNoRepeat [] = Unit
HasNoRepeat (c ∷ cs) = (any (capability_eq c) cs ≡ false) × HasNoRepeat cs

capability_eq_iff : (a b : TransportCapability) → (capability_eq a b ≡ true) ↔ (a ≡ b)
unfolding capability_eq
capability_eq_iff a b = ground arith

any-unique_from :
    (c : TransportCapability) (seen cs : List TransportCapability)
    → any (capability_eq c) (unique_from seen cs)
      ≡ (not (any (capability_eq c) seen) && any (capability_eq c) cs)
unfolding unique_from
any-unique_from c seen [] = ground arith
any-unique_from c seen (d ∷ ds) =
    ground
      (arith, any-unique_from c seen ds, any-unique_from c (d ∷ seen) ds, capability_eq_iff c d)

HasNoRepeat-cons :
    (c : TransportCapability) (cs : List TransportCapability)
    → any (capability_eq c) cs ≡ false
    → HasNoRepeat cs
    → HasNoRepeat (c ∷ cs)
HasNoRepeat-cons c cs h r = (h, r)

unique_from-HasNoRepeat : (seen cs : List TransportCapability) → HasNoRepeat (unique_from seen cs)
unfolding unique_from
unique_from-HasNoRepeat seen [] = tt
unique_from-HasNoRepeat seen (d ∷ ds) = elim (Bool-cases (any (capability_eq d) seen)) [
  | inl e ↦ rw e (unique_from-HasNoRepeat seen ds)
  | inr e ↦ rw e (
      HasNoRepeat-cons d (unique_from (d ∷ seen) ds)
        (ground (arith, any-unique_from d (d ∷ seen) ds, capability_eq_iff d d))
        (unique_from-HasNoRepeat (d ∷ seen) ds))
]

refused :
    (p : DiscoveryTransportPolicy)
    → (ordered p ≡ none)
      ↔ ((p.allow_insecure_telnet ≡ false) × (any (capability_eq telnet) (configured p) ≡ true))
unfolding ordered
refused p = (λ h. ground arith, λ h. ground arith)

order_of :
    (p : DiscoveryTransportPolicy) (cs : List TransportCapability)
    → ordered p ≡ some cs
    → (cs ≡ unique_from [] (configured p))
      × (p.allow_insecure_telnet ≡ false → any (capability_eq telnet) (configured p) ≡ false)
unfolding ordered
order_of p cs h = (ground arith, ground arith)

begins :
    (p : DiscoveryTransportPolicy) (c : TransportCapability)
    → p.preferred ≡ some c
    → unique_from [] (configured p) ≡ c ∷ unique_from (c ∷ []) p.fallbacks
unfolding configured unique_from
begins p c h = ground arith

accepted :
    (p : DiscoveryTransportPolicy) (cs : List TransportCapability)
    → ordered p ≡ some cs
    → HasNoRepeat cs
      × ((c : TransportCapability)
          → any (capability_eq c) cs ≡ any (capability_eq c) (configured p))
      × (p.allow_insecure_telnet ≡ false → any (capability_eq telnet) cs ≡ false)
      × ((c : TransportCapability)
          → p.preferred ≡ some c
          → cs ≡ c ∷ unique_from (c ∷ []) p.fallbacks)
accepted p cs h =
    let o = order_of p cs h in
    let members = λ (c : TransportCapability).
      ap (any (capability_eq c)) o.0 ∙ any-unique_from c [] (configured p) in
    (
      rw o.0 (unique_from-HasNoRepeat [] (configured p)),
      members,
      λ n. members telnet ∙ o.1 n,
      λ c e. o.0 ∙ begins p c e,
    )

-- The order of an accepted policy names every configured capability once and no other, names
-- telnet only when it is approved, and begins with the preferred capability; a policy is refused
-- exactly when telnet is configured and not approved.
pub ordered_lem :
    (p : DiscoveryTransportPolicy)
    → ((ordered p ≡ none)
        ↔ ((p.allow_insecure_telnet ≡ false) × (any (capability_eq telnet) (configured p) ≡ true)))
      × ((cs : List TransportCapability)
          → ordered p ≡ some cs
          → HasNoRepeat cs
            × ((c : TransportCapability)
                → any (capability_eq c) cs ≡ any (capability_eq c) (configured p))
            × (p.allow_insecure_telnet ≡ false → any (capability_eq telnet) cs ≡ false)
            × ((c : TransportCapability)
                → p.preferred ≡ some c
                → cs ≡ c ∷ unique_from (c ∷ []) p.fallbacks))
ordered_lem p = (refused p, λ cs h. accepted p cs h)
