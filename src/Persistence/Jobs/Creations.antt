-- ===== src/Persistence/Jobs/Creations.antt =====
-- The ways in which `create` of `DiscoveryJobRepository` (backend/app/persistence/
-- discovery_repositories.py) ends.
use network_operations_platf.Common.{
  ℕ, ◌≡◌, Bool, false, [], ◌∷◌, ◌++◌, any, first, ◌==◌, arith, Bool-cases, inl, inr,
}
use network_operations_platf.Persistence.Tables.{DiscoveryJobRecord, Session, rollback}
use network_operations_platf.Persistence.Jobs.{
  DiscoveryPersistenceError, resource_not_found, duplicate_active, Result, ok, err, NewJob,
  new_record, target_found, run_found, is_active_for, create,
}

-- It refuses and writes nothing, or the database refuses the row, or one row is added for a target
-- without an active job.
pub data Creation (conflict : Bool) (now : ℕ) (n : NewJob) (s : Session)
    (q : Session × Result DiscoveryJobRecord) : Type 0 where
  rejects : (e : DiscoveryPersistenceError) → q ≡ (s, err e) → Creation conflict now n s q
  clashes : q ≡ (rollback s, err duplicate_active) → Creation conflict now n s q
  makes :
      conflict ≡ false
      → any (is_active_for n.tenant_id n.target_id) s.working ≡ false
      → q ≡ (record s { working = s.working ++ new_record now n ∷ [] }, ok (new_record now n))
      → Creation conflict now n s q

pub create-Creation :
    (conflict : Bool) (now : ℕ) (n : NewJob) (s : Session)
    → Creation conflict now n s (create conflict now n s)
unfolding create
create-Creation conflict now n s =
    elim (Bool-cases
      (target_found n.tenant_id (first (λ t. t.id == n.target_id) s.others.targets))) [
        | inr x ↦ rejects resource_not_found (ground arith)
        | inl x ↦
            elim (Bool-cases
              (run_found n.tenant_id (first (λ r. r.id == n.run_id) s.others.runs))) [
                | inr y ↦ rejects resource_not_found (ground arith)
                | inl y ↦
                    elim (Bool-cases (any (is_active_for n.tenant_id n.target_id) s.working)) [
                      | inl z ↦ rejects duplicate_active (ground arith)
                      | inr z ↦ elim (Bool-cases conflict) [
                        | inl w ↦ clashes (ground arith)
                        | inr w ↦ makes w z (ground arith)
                      ]
                    ]
              ]
      ]
