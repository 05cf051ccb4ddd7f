-- ===== src/Persistence/Jobs/Examples.antt =====
-- Tests of the jobs repository (backend/app/persistence/discovery_repositories.py) and runs that the
-- theorems about it apply to.
use network_operations_platf.Common.{◌≡◌, ◌↔◌, refl, true, false, some, [], ◌∷◌, arith}
use network_operations_platf.Persistence.Tables.{alone, interleave, update_where, get}
use network_operations_platf.Persistence.Jobs.{
  DiscoveryPersistenceError, invalid_transition, duplicate_active, ok, err, new_record, create,
  claim, claimed, is_claimable, apply_update, recover_expired_owned_jobs, target_found, run_found,
  is_active_for, is_active,
}
use network_operations_platf.Persistence.Jobs.Claims.{claim_race}
use network_operations_platf.Persistence.Jobs.Leases.{
  is_listed, IsStale, recover_iff, claim_protects,
}
use network_operations_platf.Persistence.Samples.{core_switch, waiting_job, taken_job, holding}

create_test : (create false 100 core_switch (holding [])).1 ≡ ok waiting_job
unfolding create new_record target_found run_found
create_test = refl

create_twice_test :
    (create false 100 core_switch (holding (waiting_job ∷ []))).1 ≡ err duplicate_active
unfolding create target_found run_found is_active_for is_active
create_twice_test = refl

claim_test :
    claim alone 110 "acme" 11 5 30 (holding (waiting_job ∷ []))
    ≡ (record (holding (waiting_job ∷ [])) { working = taken_job ∷ [] }, ok (some taken_job))
unfolding claim apply_update is_claimable claimed interleave update_where get
claim_test = refl

claim_taken_test :
    (claim alone 115 "acme" 11 6 30 (holding (taken_job ∷ []))).1 ≡ err invalid_transition
unfolding claim apply_update is_claimable claimed interleave update_where get
claim_taken_test = refl

-- The second worker reads the job before the first one claims it, and updates afterwards.
claim_race_example :
    (e : DiscoveryPersistenceError) × ((claim
        (λ rows. taken_job ∷ [])
        111
        "acme"
        11
        6
        30
        (holding (waiting_job ∷ []))).1
      ≡ err e)
claim_race_example =
    claim_race alone (λ rows. taken_job ∷ []) 110 111 "acme" 11 5 6 30 30
      (holding (waiting_job ∷ []))
      (record (holding (waiting_job ∷ [])) { working = taken_job ∷ [] })
      (holding (waiting_job ∷ [])) (some taken_job) claim_test refl

taken_here : get "acme" 11 (taken_job ∷ []) ≡ some taken_job
unfolding get
taken_here = refl

recover_iff_example :
    (is_listed "acme" 11 (recover_expired_owned_jobs 141 (taken_job ∷ [])) ≡ true)
    ↔ IsStale 141 taken_job
recover_iff_example = recover_iff 141 "acme" 11 (taken_job ∷ []) taken_job (refl, tt) taken_here

claim_protects_example :
    is_listed "acme" 11 (recover_expired_owned_jobs 140 (taken_job ∷ [])) ≡ false
claim_protects_example =
    claim_protects alone 110 140 "acme" 11 5 30 (holding (waiting_job ∷ []))
      (record (holding (waiting_job ∷ [])) { working = taken_job ∷ [] }) (some taken_job) (refl, tt)
      claim_test (omega arith)
