-- ===== src/Discovery/Scopes.antt =====
-- backend/app/discovery/scopes.py and `validate_scope` of contracts.py. The library `ipaddress` is a
-- parameter: it reads an address as its version and its number, prints the address of a number, and
-- lists the hosts of a network.
mod Examples
use network_operations_platf.Common.{
  ℕ, zero, suc, ◌+◌, ◌-◌, ◌≤◌, ◌≡◌, refl, Bool, true, false, String, Option, none, some, List, [],
  ◌∷◌, length, ltb, leb, str_eq, not, is_none, ◌==◌, ◌&&◌, ◌||◌, if◌then◌else◌, arith, Bool-cases,
  Option-cases, inl, inr, ◌⊎◌,
}
use network_operations_platf.Persistence.Tables.{
  DiscoveryScopeType, single_device, ip_range, cidr_network, device_group, netbox_scope,
}

pub record IpAddress : Type 0 where
  pub ip_address : String → Option (ℕ × ℕ)
  pub str : ℕ → ℕ → String
  pub hosts : String → Option (List String)

pub record DiscoveryScope : Type 0 where
  pub scope_type : DiscoveryScopeType
  pub address : Option String
  pub scope_end : Option String
  pub scope_cidr : Option String

-- `str(start + offset) for offset in range(count)`
unfoldable pub addresses_from : (ℕ → String) → ℕ → ℕ → List String
addresses_from print start zero = []
addresses_from print start (suc count) = print start ∷ addresses_from print (suc start) count

module _ (ip : IpAddress) where
  expand_range : ℕ → ℕ × ℕ → ℕ × ℕ → Option (List String)
  unfolding addresses_from
  expand_range max_targets (version, start) (version', end) =
      if not (version == version') || ltb end start
      then none
      else if ltb max_targets (end - start + 1)
      then none
      else some (addresses_from (ip.str version) start (end - start + 1))

  expand_hosts : ℕ → List String → Option (List String)
  expand_hosts max_targets hosts = if ltb max_targets (length hosts) then none else some hosts

  expand_in : ℕ → DiscoveryScopeType → DiscoveryScope → Option (List String)
  unfolding expand_range expand_hosts
  expand_in max_targets single_device s = elim s.address [
    | none ↦ none
    | some a ↦ elim (ip.ip_address a) [ none ↦ none | some _ ↦ some (a ∷ []) ]
  ]
  expand_in max_targets ip_range s = elim s.address [
    | none ↦ none
    | some a ↦ elim s.scope_end [
      | none ↦ none
      | some b ↦ elim (ip.ip_address a) [
        | none ↦ none
        | some x ↦ elim (ip.ip_address b) [ none ↦ none | some y ↦ expand_range max_targets x y ]
      ]
    ]
  ]
  expand_in max_targets cidr_network s = elim s.scope_cidr [
    | none ↦ none
    | some c ↦ elim (ip.hosts c) [ none ↦ none | some hosts ↦ expand_hosts max_targets hosts ]
  ]
  expand_in max_targets device_group s = none
  expand_in max_targets netbox_scope s = none

  -- `none` is a `ValueError`: the scope's own, or that of reading an address.
  unfoldable pub expand : ℕ → DiscoveryScope → Option (List String)
  unfolding expand_in
  expand max_targets s = if ltb max_targets 1 then none else expand_in max_targets s.scope_type s

  valid_range : Option (ℕ × ℕ) → Option (ℕ × ℕ) → Bool
  valid_range none end = false
  valid_range (some start) none = false
  valid_range (some (version, start)) (some (version', end)) =
      version == version' && not (ltb end start)

  -- A text that is there and not empty.
  given : Option String → (String → Bool) → Bool
  given none test = false
  given (some a) test = not (str_eq a "") && test a

  -- Whether `validate_scope` accepts.
  pub validate_scope : DiscoveryScope → Bool
  unfolding valid_range given
  validate_scope s = elim s.scope_type [
    | single_device ↦ given s.address (λ a. not (is_none (ip.ip_address a)))
    | ip_range ↦
        given s.address
          (λ a. given s.scope_end (λ b. valid_range (ip.ip_address a) (ip.ip_address b)))
    | cidr_network ↦ given s.scope_cidr (λ c. not (is_none (ip.hosts c)))
    | device_group ↦ false
    | netbox_scope ↦ false
  ]

  length-addresses_from :
      (print : ℕ → String) (start count : ℕ) → length (addresses_from print start count) ≡ count
  unfolding addresses_from
  length-addresses_from print start zero = refl
  length-addresses_from print start (suc count) =
      omega (arith, length-addresses_from print (suc start) count)

  expand_range-bounded :
      (max_targets : ℕ) (x y : ℕ × ℕ) (found : List String)
      → expand_range max_targets x y ≡ some found
      → length found ≤ max_targets
  unfolding expand_range
  expand_range-bounded max_targets (v, a) (w, b) found h =
      ground (arith, length-addresses_from (ip.str v) a (b - a + 1))

  expand_in-bounded :
      (max_targets : ℕ) (type : DiscoveryScopeType) (s : DiscoveryScope) (found : List String)
      → 1 ≤ max_targets
      → expand_in max_targets type s ≡ some found
      → length found ≤ max_targets
  unfolding expand_in expand_hosts
  expand_in-bounded m single_device s found pos h = ground arith
  expand_in-bounded m ip_range s found pos h = elim (Option-cases s.address) [
    | inl n ↦ ground (arith, n, h)
    | inr (a, e) ↦ elim (Option-cases s.scope_end) [
      | inl n ↦ ground (arith, n, e, h)
      | inr (b, f) ↦ elim (Option-cases (ip.ip_address a)) [
        | inl n ↦ ground (arith, n, e, f, h)
        | inr (x, u) ↦ elim (Option-cases (ip.ip_address b)) [
          | inl n ↦ ground (arith, n, e, f, u, h)
          | inr (y, v) ↦ expand_range-bounded m x y found (ground (arith, e, f, u, v, h))
        ]
      ]
    ]
  ]
  expand_in-bounded m cidr_network s found pos h = ground arith
  expand_in-bounded m device_group s found pos h = cc
  expand_in-bounded m netbox_scope s found pos h = cc

  -- From how large a limit on a valid scope expands.
  enough : DiscoveryScope → ℕ
  enough s = elim s.scope_type [
    | ip_range ↦ elim s.address [
      | none ↦ 1
      | some a ↦ elim s.scope_end [
        | none ↦ 1
        | some b ↦ elim (ip.ip_address a) [
          | none ↦ 1
          | some (v, x) ↦ elim (ip.ip_address b) [ none ↦ 1 | some (w, y) ↦ y - x + 1 ]
        ]
      ]
    ]
    | cidr_network ↦ elim s.scope_cidr [
      | none ↦ 1
      | some c ↦ elim (ip.hosts c) [ none ↦ 1 | some hosts ↦ suc (length hosts) ]
    ]
    | _ ↦ 1
  ]

  -- A scope expands to no more addresses than the limit allows, and a scope that validation accepted
  -- expands under every limit that is large enough for it.
  pub expand_lem :
      (s : DiscoveryScope)
      → ((m : ℕ) → (found : List String) → expand m s ≡ some found → length found ≤ m)
        × (validate_scope s ≡ true → (n : ℕ) × ((m : ℕ) → n ≤ m → is_none (expand m s) ≡ false))
  unfolding expand
  expand_lem s = (
    λ m found h. expand_in-bounded m s.scope_type s found (ground arith) (ground arith),
    λ valid. (
      enough s,
      λ m le.
          unfold validate_scope expand_in expand_range expand_hosts enough given valid_range in
          ground arith,
    ),
  )
