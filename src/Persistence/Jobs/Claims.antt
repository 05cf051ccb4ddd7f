-- ===== src/Persistence/Jobs/Claims.antt =====
-- Claims of several workers on one job, and the recovery of expired leases (`claim` and
-- `recover_expired_owned_jobs` of backend/app/persistence/discovery_repositories.py).
use network_operations_platf.Common.{
  ℕ, ◌≡◌, refl, ◌∙◌, true, false, String, Option, none, some, List, [], ◌∷◌, any, ◌==◌, arith,
  Bool-cases, Option-cases, inl, inr,
}
use network_operations_platf.Discovery.Contracts.{queued}
use network_operations_platf.Persistence.Tables.{
  DiscoveryJobRecord, Session, interleave, update_where, get,
}
use network_operations_platf.Persistence.Jobs.{
  DiscoveryPersistenceError, invalid_transition, resource_not_found, protected_discovery_job_id, ok,
  err, is_claimable, claimed, apply_update, claim,
}
use network_operations_platf.Persistence.Jobs.Updates.{HasUniqueIds, any-get, get-update_where}

-- What a successful claim did: some row could be claimed when the UPDATE ran, and the session holds
-- the updated rows.
pub claim-ok :
    (meanwhile : List DiscoveryJobRecord → List DiscoveryJobRecord) (now : ℕ) (t : String)
    (k owner lease : ℕ) (s s' : Session) (job : Option DiscoveryJobRecord)
    → claim meanwhile now t k owner lease s ≡ (s', ok job)
    → (any (is_claimable t k) (meanwhile s.working) ≡ true)
      × (s'.working
          ≡ update_where (is_claimable t k) (claimed now owner lease) (meanwhile s.working))
unfolding claim apply_update interleave
claim-ok meanwhile now t k owner lease s s' job h =
    elim (Bool-cases (k == protected_discovery_job_id)) [
      | inl e ↦ ground (arith, h)
      | inr e ↦ elim (Bool-cases (lease == 0)) [
        | inl z ↦ ground (arith, h)
        | inr z ↦ elim (Option-cases (get t k s.working)) [
          | inl n ↦ ground (arith, h)
          | inr (r, n) ↦ elim (Bool-cases (any (is_claimable t k) (meanwhile s.working))) [
            | inl y ↦ (y, ground (arith, h))
            | inr x ↦ ground (arith, h)
          ]
        ]
      ]
    ]

claimed-any :
    (t : String) (k now owner lease : ℕ) (rows : List DiscoveryJobRecord)
    → any (is_claimable t k) (update_where (is_claimable t k) (claimed now owner lease) rows)
      ≡ false
unfolding update_where is_claimable claimed
claimed-any t k now owner lease [] = refl
claimed-any t k now owner lease (r ∷ rs) = ground (arith, claimed-any t k now owner lease rs)

pub claim-fails :
    (meanwhile : List DiscoveryJobRecord → List DiscoveryJobRecord) (now : ℕ) (t : String)
    (k owner lease : ℕ) (s : Session)
    → any (is_claimable t k) (meanwhile s.working) ≡ false
    → (e : DiscoveryPersistenceError) × ((claim meanwhile now t k owner lease s).1 ≡ err e)
unfolding claim apply_update interleave
claim-fails meanwhile now t k owner lease s h =
    elim (Bool-cases (k == protected_discovery_job_id)) [
      | inl e ↦ (invalid_transition, ground arith)
      | inr e ↦ elim (Bool-cases (lease == 0)) [
        | inl z ↦ (invalid_transition, ground arith)
        | inr z ↦ elim (Option-cases (get t k s.working)) [
          | inl n ↦ (resource_not_found, ground arith)
          | inr (r, n) ↦ (invalid_transition, ground arith)
        ]
      ]
    ]

-- Of two workers that race for a job, the second loses: once a claim has succeeded, a claim by any
-- worker whose UPDATE finds the rows that the first one left fails, whenever that worker read the
-- job.
pub claim_race :
    (before between : List DiscoveryJobRecord → List DiscoveryJobRecord) (now now' : ℕ) (t : String)
    (k owner owner' lease lease' : ℕ) (s s' q : Session) (job : Option DiscoveryJobRecord)
    → claim before now t k owner lease s ≡ (s', ok job)
    → between q.working ≡ s'.working
    → (e : DiscoveryPersistenceError) × ((claim between now' t k owner' lease' q).1 ≡ err e)
claim_race before between now now' t k owner owner' lease lease' s s' q job h seen =
    let (could, rows) = claim-ok before now t k owner lease s s' job h in
    claim-fails between now' t k owner' lease' q
      (rw seen (rw rows (claimed-any t k now owner lease (before s.working))))

-- A claim that succeeds, in a table without two rows of one identifier, found the job queued and
-- without owner when its UPDATE ran, whatever other sessions did since it read the job, and leaves
-- that row claimed: running, one attempt more, owned, with the lease and the heartbeat of this claim.
pub claim_wins :
    (meanwhile : List DiscoveryJobRecord → List DiscoveryJobRecord) (now : ℕ) (t : String)
    (k owner lease : ℕ) (s s' : Session) (job : Option DiscoveryJobRecord)
    → HasUniqueIds (meanwhile s.working)
    → claim meanwhile now t k owner lease s ≡ (s', ok job)
    → (r : DiscoveryJobRecord) × (get t k (meanwhile s.working) ≡ some r)
      × (r.state ≡ queued)
      × (r.execution_owner ≡ none)
      × (get t k s'.working ≡ some (claimed now owner lease r))
unfolding is_claimable
claim_wins meanwhile now t k owner lease s s' job unique h =
    let (could, rows) = claim-ok meanwhile now t k owner lease s s' job h in
    let (r, found, holds) =
      any-get (is_claimable t k) t k (meanwhile s.working) unique (λ x y. ground arith) could in
    (
      r,
      found,
      ground arith,
      ground arith,
      rw rows (
          get-update_where t k (is_claimable t k) (claimed now owner lease) (meanwhile s.working)
            (unfold claimed in λ x. (refl, refl))
          ∙ ground (arith, found, holds)),
    )

-- A claim that succeeds gives back the row of the job as the session now sees it.
pub claim-returns :
    (meanwhile : List DiscoveryJobRecord → List DiscoveryJobRecord) (now : ℕ) (t : String)
    (k owner lease : ℕ) (s s' : Session) (job : Option DiscoveryJobRecord)
    → claim meanwhile now t k owner lease s ≡ (s', ok job)
    → job ≡ get t k s'.working
unfolding claim apply_update interleave
claim-returns meanwhile now t k owner lease s s' job h =
    elim (Bool-cases (k == protected_discovery_job_id)) [
      | inl e ↦ ground (arith, h)
      | inr e ↦ elim (Bool-cases (lease == 0)) [
        | inl z ↦ ground (arith, h)
        | inr z ↦ elim (Option-cases (get t k s.working)) [
          | inl n ↦ ground (arith, h)
          | inr (r, n) ↦ elim (Bool-cases (any (is_claimable t k) (meanwhile s.working))) [
            | inl y ↦ ground (arith, h)
            | inr x ↦ ground (arith, h)
          ]
        ]
      ]
    ]
