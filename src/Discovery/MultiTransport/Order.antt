-- ===== src/Discovery/MultiTransport/Order.antt =====
-- Reordering by availability (`_reorder_transports_by_availability` of backend/app/discovery/
-- multi_transport.py) loses and adds no transport.
use mathlib.Core.List.{Perm, perm_middle}
use mathlib.Core.List.Perm
use network_operations_platf.Common.{
  ◌≡◌, Bool, true, false, Option, none, some, List, [], ◌∷◌, ◌++◌, keep, not, arith, Bool-cases,
  inl, inr, if◌then◌else◌, ◌&&◌,
}
use network_operations_platf.Discovery.MultiTransport.{
  TransportService, TransportAttemptConfig, is_available, reorder_transports_by_availability,
  attempt_sequence, reordered,
}

partition-perm {ℓ} :
    {A : Type ℓ} (p : A → Bool) (xs : List A) → Perm (keep p xs ++ keep (λ x. not (p x)) xs) xs
partition-perm p [] = Perm.refl []
partition-perm p (x ∷ xs) = elim (Bool-cases (p x)) [
  | inl e ↦ rw e (Perm.cons x (partition-perm p xs))
  | inr e ↦ rw e (
      Perm.trans (perm_middle (keep p xs) (keep (λ y. not (p y)) xs))
        (Perm.cons x (partition-perm p xs)))
]

reordered-perm :
    (probed : Option (List TransportService)) (configs : List TransportAttemptConfig)
    → Perm (reordered probed configs) configs
unfolding reordered reorder_transports_by_availability
reordered-perm none configs = Perm.refl configs
reordered-perm (some services) configs = partition-perm (is_available services) configs

if-perm :
    (b : Bool) (probed : Option (List TransportService)) (configs : List TransportAttemptConfig)
    → Perm (if b then reordered probed configs else configs) configs
if-perm true probed configs = reordered-perm probed configs
if-perm false probed configs = Perm.refl configs

-- Whatever probing finds, and also when it raises, the sequence tried is a rearrangement of the
-- configured one, and it is the configured one unless both probing and reordering are enabled.
pub attempt_sequence_lem :
    (should_probe allow_reorder : Bool) (probed : Option (List TransportService))
    (configs : List TransportAttemptConfig)
    → Perm (attempt_sequence should_probe allow_reorder probed configs) configs
      × ((should_probe && allow_reorder) ≡ false
          → attempt_sequence should_probe allow_reorder probed configs ≡ configs)
unfolding attempt_sequence
attempt_sequence_lem should_probe allow_reorder probed configs =
    (if-perm _ probed configs, λ h. ground arith)
