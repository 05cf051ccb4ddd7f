-- ===== src/Persistence/Jobs/Leases.antt =====
-- Which jobs the recovery of expired leases finds (`recover_expired_owned_jobs` of
-- backend/app/persistence/discovery_repositories.py).
use network_operations_platf.Common.{
  ℕ, ◌+◌, ◌≤◌, ◌<◌, ◌≡◌, ◌↔◌, refl, sym, ◌∙◌, subst, Bool, true, false, String, Option, none, some,
  List, [], ◌∷◌, any, keep, map, str_eq, is_none, ◌==◌, ◌&&◌, arith, Bool-cases, Option-cases, inl,
  inr,
}
use network_operations_platf.Discovery.Contracts.{running}
use network_operations_platf.Persistence.Tables.{DiscoveryJobRecord, Session, is_job, get}
use network_operations_platf.Persistence.Jobs.{
  protected_discovery_job_id, ok, is_claimable, claimed, claim, lease_expired,
  recover_expired_owned_jobs,
}
use network_operations_platf.Persistence.Jobs.Updates.{
  status_eq_sound, HasUniqueIds, any-get, update_where-HasUniqueIds,
}
use network_operations_platf.Persistence.Jobs.Claims.{claim_wins, claim-ok}

-- The key is in a list of keys.
abbrev pub is_listed : String → ℕ → List (String × ℕ) → Bool
is_listed t k keys = any (λ x. x.1 == k && str_eq x.0 t) keys

is_listed-map :
    (t : String) (k : ℕ) (p : DiscoveryJobRecord → Bool) (rows : List DiscoveryJobRecord)
    → is_listed t k (map (λ r. (r.tenant_id, r.id)) (keep p rows))
      ≡ any (λ r. is_job t k r && p r) rows
is_listed-map t k p [] = refl
is_listed-map t k p (r ∷ rs) = ground (arith, is_listed-map t k p rs)

-- A running root job, other than the protected one, whose owner let the lease end before the
-- instant.
pub record IsStale (at : ℕ) (r : DiscoveryJobRecord) : Type 0 where
  pub runs : r.state ≡ running
  pub root : r.parent_job_id ≡ none
  pub free : (r.id ≡ protected_discovery_job_id) → ⊥
  pub owned : is_none r.execution_owner ≡ false
  pub beating : is_none r.last_heartbeat_at ≡ false
  pub lease : ℕ
  pub leased : r.lease_expires_at ≡ some lease
  pub ended : lease < at

expired_iff : (at : ℕ) (r : DiscoveryJobRecord) → (lease_expired at r ≡ true) ↔ IsStale at r
unfolding lease_expired
expired_iff at r = (
  λ h. elim (Option-cases r.lease_expires_at) [
    | inl n ↦ ground (arith, h)
    | inr (lease, n) ↦ record {
      runs = status_eq_sound r.state running (ground arith);
      root = ground arith;
      free = ground arith;
      owned = ground arith;
      beating = ground arith;
      lease = lease;
      leased = n;
      ended = ground arith;
    }
  ],
  λ h. ground (arith, h.runs, h.root, h.free, h.owned, h.beating, h.leased, h.ended),
)

any_of_get :
    (p : DiscoveryJobRecord → Bool) (t : String) (k : ℕ) (rows : List DiscoveryJobRecord)
    (r : DiscoveryJobRecord)
    → get t k rows ≡ some r
    → p r ≡ true
    → any (λ x. is_job t k x && p x) rows ≡ true
unfolding get
any_of_get p t k [] r found h = cc
any_of_get p t k (q ∷ rs) r found h = ground (arith, any_of_get p t k rs r)

-- In a table without two rows of one identifier, recovery lists a job exactly if its row is a running
-- root job with owner, heartbeat and a lease that ended before the given instant, and it is not the
-- protected job.
pub recover_iff :
    (at : ℕ) (t : String) (k : ℕ) (rows : List DiscoveryJobRecord) (r : DiscoveryJobRecord)
    → HasUniqueIds rows
    → get t k rows ≡ some r
    → (is_listed t k (recover_expired_owned_jobs at rows) ≡ true) ↔ IsStale at r
unfolding recover_expired_owned_jobs
recover_iff at t k rows r unique found = (
  λ h.
      let (q, here, holds) =
        any-get (λ x. is_job t k x && lease_expired at x) t k rows unique (λ x y. ground arith)
          (sym (is_listed-map t k (lease_expired at) rows) ∙ h) in
      let same : some q ≡ some r = sym here ∙ found in
      subst (IsStale at) (ground (arith, same)) ((expired_iff at q).0 (ground arith)),
  λ h.
      is_listed-map t k (lease_expired at) rows
      ∙ any_of_get (lease_expired at) t k rows r found ((expired_iff at r).1 h),
)

-- A claim that succeeded protects its job: in a table without two rows of one identifier, recovery
-- does not list the job until the lease of the claim has ended.
pub claim_protects :
    (meanwhile : List DiscoveryJobRecord → List DiscoveryJobRecord) (now at : ℕ) (t : String)
    (k owner lease : ℕ) (s s' : Session) (job : Option DiscoveryJobRecord)
    → HasUniqueIds (meanwhile s.working)
    → claim meanwhile now t k owner lease s ≡ (s', ok job)
    → at ≤ now + lease
    → is_listed t k (recover_expired_owned_jobs at s'.working) ≡ false
claim_protects meanwhile now at t k owner lease s s' job unique h early =
    let (could, rows) = claim-ok meanwhile now t k owner lease s s' job h in
    let (r, found, was_queued, was_free, here) =
      claim_wins meanwhile now t k owner lease s s' job unique h in
    let after : HasUniqueIds s'.working = subst HasUniqueIds (sym rows) (
      update_where-HasUniqueIds (is_claimable t k) (claimed now owner lease) (meanwhile s.working)
        (unfold claimed in λ x. (refl, refl)) unique) in
    let exact = recover_iff at t k s'.working (claimed now owner lease r) after here in
    elim (Bool-cases (is_listed t k (recover_expired_owned_jobs at s'.working))) [
      | inr n ↦ n
      | inl y ↦
          let stale = exact.0 y in
          let end = stale.leased in let late = stale.ended in unfold claimed in ground arith
    ]
