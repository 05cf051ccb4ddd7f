-- ===== src/Discovery/Fanout/Coverage.antt =====
-- What the reconciliation of a scope (backend/app/discovery/fanout.py) leaves behind: a settled result
-- for every expected address.
pub mod Loop
pub mod Parents
use network_operations_platf.Common.{
  ℕ, suc, ◌≡◌, refl, sym, subst, ◌∙◌, Bool, true, false, String, Option, none, some, List, [], ◌∷◌,
  ◌++◌, map, any, first, keep, str_eq, str_eq_refl, ==_refl, not, ◌==◌, ◌&&◌, ◌||◌, arith,
  Bool-cases, Option-cases, List-cases, inl, inr,
}
use network_operations_platf.Discovery.Contracts.{is_terminal}
use network_operations_platf.Discovery.Scopes.{IpAddress, expand}
use network_operations_platf.Persistence.Tables.{
  DiscoveryJobRecord, TargetRow, DeviceResult, Session, commit, get,
}
use network_operations_platf.Persistence.Jobs.{
  Result, ok, err, Ending, and_then, create, NewJob, target_found, run_found, is_active_for,
}
use network_operations_platf.Discovery.Fanout.{
  Fresh, child_target, child_job, child_result, with_run, create_job, create_child, outcome,
  settle_child, is_open, is_unsettled, settled, settle_row, settle_result, settle, belongs,
  by_address, reconcile_address, reconcile_addresses, on_run, run_addresses, scope_of,
  reconcile_expected, reconcile_target, reconcile_parent_job,
}

-- What holds of the answer and the session of a method that did not raise.
abbrev After : {A : Type 0} → (A → Session → Type 0) → Session × Result A → Type 0
After P (s, ok a) = P a s
After P (s, err e) = Unit

After-and_then :
    {A B : Type 0} (P : A → Session → Type 0) (Q : B → Session → Type 0) (q : Session × Result A)
    (f : A → Session → Session × Result B)
    → After P q
    → ((a : A) → (mid : Session) → P a mid → After Q (f a mid))
    → After Q (and_then q f)
unfolding and_then
After-and_then P Q (mid, ok a) f p h = h a mid p
After-and_then P Q (mid, err e) f p h = tt

pub After-mono :
    {A : Type 0} (P Q : A → Session → Type 0) (q : Session × Result A)
    → ((a : A) → (s : Session) → P a s → Q a s)
    → After P q
    → After Q q
After-mono P Q (s, ok a) h p = h a s p
After-mono P Q (s, err e) h p = tt

pub After-result :
    {A : Type 0} (P : A → Session → Type 0) (q : Session × Result A) (a : A)
    → After P q
    → q.1 ≡ ok a
    → P a q.0
After-result P (s, ok b) a p e = subst (λ x. P x s) (let same : b ≡ a = cc in same) p
After-result P (s, err x) a p e = elim (let absurd : ⊥ = cc in absurd) [ ]

module _ (t : String) (p : ℕ) where
  -- A result of the parent for an address, that needs no more work.
  pub is_settled_for : String → DeviceResult → Bool
  unfolding belongs is_unsettled
  is_settled_for x r = belongs t p r && (str_eq r.address x && not (is_unsettled r))

  -- A result of the parent for an address and a child job.
  pub is_tagged : String → ℕ → DeviceResult → Bool
  unfolding belongs
  is_tagged x k r = belongs t p r && (str_eq r.address x && r.child_job_id == k)

  -- Every address has a settled result.
  abbrev pub Covers : List String → List DeviceResult → Type 0
  Covers [] rs = Unit
  Covers (x ∷ xs) rs = (any (is_settled_for x) rs ≡ true) × Covers xs rs

  -- Settled results stay, and so do the results of child jobs.
  pub record Grows (rs rs' : List DeviceResult) : Type 0 where
    settled_stay :
        (x : String) → any (is_settled_for x) rs ≡ true → any (is_settled_for x) rs' ≡ true
    tagged_stay :
        (x : String) (k : ℕ) → any (is_tagged x k) rs ≡ true → any (is_tagged x k) rs' ≡ true

  Grows-trans : (rs mid rs' : List DeviceResult) → Grows rs mid → Grows mid rs' → Grows rs rs'
  Grows-trans rs mid rs' g h = record {
    settled_stay = λ x e. h.settled_stay x (g.settled_stay x e);
    tagged_stay = λ x k e. h.tagged_stay x k (g.tagged_stay x k e);
  }

  Grows-same : (rs : List DeviceResult) → Grows rs rs
  Grows-same rs = record { settled_stay = λ x e. e; tagged_stay = λ x k e. e }

  any-map :
      (q q' : DeviceResult → Bool) (f : DeviceResult → DeviceResult)
      → ((r : DeviceResult) → q r ≡ true → q' (f r) ≡ true)
      → (rs : List DeviceResult) → any q rs ≡ true
      → any q' (map f rs) ≡ true
  any-map q q' f h [] e = e
  any-map q q' f h (r ∷ rs) e = ground (arith, any-map q q' f h rs, h r)

  settled-settle_row :
      (b : Bool) (e : Ending) (k : ℕ) (x : String) (r : DeviceResult)
      → is_settled_for x r ≡ true
      → is_settled_for x (settle_row b e k r) ≡ true
  unfolding settle_row is_settled_for
  settled-settle_row b e k x r h = elim (Bool-cases (is_unsettled r)) [
    | inl y ↦ ground (arith, y, h)
    | inr n ↦
        subst (λ q. is_settled_for x q ≡ true)
          (sym (let u : settle_row b e k r ≡ r = ground (arith, n) in u)) h
  ]

  tagged-settle_row :
      (b : Bool) (e : Ending) (k : ℕ) (x : String) (j : ℕ) (r : DeviceResult)
      → is_tagged x j r ≡ true
      → is_tagged x j (settle_row b e k r) ≡ true
  unfolding settle_row settled is_tagged belongs
  tagged-settle_row b e k x j r h = elim (Bool-cases (r.child_job_id == k && is_unsettled r)) [
    | inl y ↦
        subst (λ q. is_tagged x j q ≡ true)
          (sym (let u : settle_row b e k r ≡ settled b e r = ground (arith, y) in u)) h
    | inr n ↦
        subst (λ q. is_tagged x j q ≡ true)
          (sym (let u : settle_row b e k r ≡ r = ground (arith, n) in u)) h
  ]

  settled-is_unsettled :
      (b : Bool) (e : Ending) (r : DeviceResult)
      → is_terminal e.state ≡ true
      → is_unsettled (settled b e r) ≡ false
  unfolding settled is_unsettled is_open
  settled-is_unsettled b e r over = ground arith

  -- Settling a child job settles the result of its address.
  covers-settle_row :
      (b : Bool) (e : Ending) (k : ℕ) (x : String) (r : DeviceResult)
      → is_terminal e.state ≡ true
      → is_tagged x k r ≡ true
      → is_settled_for x (settle_row b e k r) ≡ true
  unfolding is_settled_for
  covers-settle_row b e k x r over h =
      let still = tagged-settle_row b e k x k r h in
      let done : is_unsettled (settle_row b e k r) ≡ false = elim (Bool-cases (is_unsettled r)) [
        | inl y ↦
            let hit : (r.child_job_id == k) ≡ true = unfold is_tagged in ground (arith, h) in
            let u : settle_row b e k r ≡ settled b e r =
              unfold settle_row in ground (arith, y, hit) in
            subst (λ q. is_unsettled q ≡ false) (sym u) (settled-is_unsettled b e r over)
        | inr n ↦
            let u : settle_row b e k r ≡ r = unfold settle_row in ground (arith, n) in
            subst (λ q. is_unsettled q ≡ false) (sym u) n
      ] in
      unfold is_tagged in ground (arith, still, done)

  any-append :
      (q : DeviceResult → Bool) (rs : List DeviceResult) (r : DeviceResult)
      → any q (rs ++ r ∷ []) ≡ (any q rs || q r)
  any-append q [] r = ground arith
  any-append q (x ∷ rs) r = ground (arith, any-append q rs r)

  Grows-append : (rs : List DeviceResult) (r : DeviceResult) → Grows rs (rs ++ r ∷ [])
  Grows-append rs r = record {
    settled_stay = λ x e. ground (arith, any-append (is_settled_for x) rs r);
    tagged_stay = λ x k e. ground (arith, any-append (is_tagged x k) rs r);
  }

  Grows-settle :
      (b : Bool) (e : Ending) (k : ℕ) (rs : List DeviceResult) → Grows rs (settle_result b e k rs)
  Grows-settle b e k rs = record {
    settled_stay = λ x h. unfold settle_result in any-map _ _ _ (settled-settle_row b e k x) rs h;
    tagged_stay = λ x j h. unfold settle_result in any-map _ _ _ (tagged-settle_row b e k x j) rs h;
  }

  -- A result that was found by its address is tagged with it.
  by_address-tagged :
      (x : String) (rs : List DeviceResult) (r : DeviceResult)
      → by_address x (keep (belongs t p) rs) ≡ some r
      → any (is_tagged x r.child_job_id) rs ≡ true
  unfolding by_address is_tagged
  by_address-tagged x [] r h = ground arith
  by_address-tagged x (q ∷ rs) r h = elim (Option-cases (by_address x (keep (belongs t p) rs))) [
    | inr (found, n) ↦ let rest = by_address-tagged x rs r in ground (arith, n, rest)
    | inl n ↦ ground (arith, n, ==_refl q.child_job_id)
  ]
