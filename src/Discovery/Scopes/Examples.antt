-- ===== src/Discovery/Scopes/Examples.antt =====
-- A scope that the theorem about backend/app/discovery/scopes.py applies to.
use network_operations_platf.Common.{
  ℕ, ◌≤◌, ◌≡◌, refl, true, false, String, some, List, [], ◌∷◌, length, is_none,
}
use network_operations_platf.Discovery.Scopes.{
  expand, expand_in, expand_range, addresses_from, validate_scope, expand_lem,
}
use network_operations_platf.Persistence.Samples.{small_network, lab_range}

expand_test : expand small_network 4096 lab_range ≡ some ("10.0.0.1" ∷ "10.0.0.2" ∷ [])
unfolding expand expand_in expand_range addresses_from
expand_test = refl

expand_lem_example :
    ((m : ℕ)
      → (found : List String) → expand small_network m lab_range ≡ some found
      → length found ≤ m)
    × (validate_scope small_network lab_range ≡ true
        → (n : ℕ) × ((m : ℕ) → n ≤ m → is_none (expand small_network m lab_range) ≡ false))
expand_lem_example = expand_lem small_network lab_range
