-- ===== src/Discovery/Fanout/Coverage/Parents.antt =====
-- What the reconciliation of a parent job (backend/app/discovery/fanout.py) has committed when it
-- returns.
use network_operations_platf.Common.{
  ℕ, ◌≡◌, sym, subst, Bool, String, Option, some, List, [], ◌∷◌, any, first, keep, ◌==◌, arith,
  Option-cases, List-cases, inl, inr, true,
}
use network_operations_platf.Discovery.Scopes.{IpAddress, expand}
use network_operations_platf.Persistence.Tables.{
  DiscoveryJobRecord, TargetRow, DeviceResult, Session, commit, get,
}
use network_operations_platf.Persistence.Jobs.{scope_error, Result, ok, err}
use network_operations_platf.Discovery.Fanout.{
  Fresh, belongs, reconcile_addresses, on_run, run_addresses, scope_of, reconcile_expected,
  reconcile_target, reconcile_parent_job,
}
use network_operations_platf.Discovery.Fanout.Coverage.{
  After, After-and_then, After-mono, After-result, is_settled_for, Covers, by_address-tagged,
}
use network_operations_platf.Discovery.Fanout.Coverage.Loop.{
  IsKnown, Advanced, reconcile_addresses-After,
}

-- The addresses that a parent job must account for: those its run has planned, or its scope's.
abbrev pub expected :
    IpAddress → ℕ → DiscoveryJobRecord → TargetRow → Session → Option (List String)
expected ip limit parent target s =
    elim (run_addresses (first (λ r. r.id == parent.run_id) s.others.runs)) [
      | [] ↦ expand ip limit (scope_of target)
      | a ∷ rest ↦ some (a ∷ rest)
    ]

-- The committed results and those that were returned account for the addresses.
abbrev pub Accounts : String → ℕ → List String → List DeviceResult → Session → Type 0
Accounts t p xs found s = Covers t p xs s.saved.results × Covers t p xs found

keeps-settled :
    (t : String) (p : ℕ) (x : String) (rs : List DeviceResult)
    → any (is_settled_for t p x) rs ≡ true
    → any (is_settled_for t p x) (keep (belongs t p) rs) ≡ true
unfolding is_settled_for
keeps-settled t p x [] h = h
keeps-settled t p x (r ∷ rs) h = ground (arith, keeps-settled t p x rs)

Covers-keep :
    (t : String) (p : ℕ) (xs : List String) (rs : List DeviceResult)
    → Covers t p xs rs
    → Covers t p xs (keep (belongs t p) rs)
Covers-keep t p [] rs h = tt
Covers-keep t p (x ∷ xs) rs h = (keeps-settled t p x rs h.0, Covers-keep t p xs rs h.1)

reconcile_expected-After :
    (now : ℕ) (fresh : ℕ → Fresh) (t : String) (parent : DiscoveryJobRecord) (target : TargetRow)
    (b : Bool) (xs : List String) (s : Session)
    → After (Accounts t parent.id xs) (reconcile_expected now fresh t parent target b xs s)
unfolding reconcile_expected
reconcile_expected-After now fresh t parent target b [] s = (tt, tt)
reconcile_expected-After now fresh t parent target b (x ∷ xs) s =
    let known = keep (belongs t parent.id) s.others.results in
    let here : IsKnown t parent.id known s.others.results =
      λ y r found. by_address-tagged t parent.id y s.others.results r found in
    After-and_then (λ done next. Advanced t parent.id (x ∷ xs) s next)
      (Accounts t parent.id (x ∷ xs))
      (reconcile_addresses now fresh t parent target b known (x ∷ xs) 0 s) _
      (reconcile_addresses-After now fresh t parent target b known (x ∷ xs) 0 s here)
      (λ done next advanced.
        unfold commit on_run in
        (advanced.0, Covers-keep t parent.id (x ∷ xs) next.others.results advanced.0))

-- The reconciliation knows the expected addresses and accounts for them.
abbrev IsAccounted :
    IpAddress
    → ℕ
    → String
    → DiscoveryJobRecord
    → TargetRow
    → Session
    → List DeviceResult
    → Session
    → Type 0
IsAccounted ip limit t parent target s found next =
    (xs : List String) × (expected ip limit parent target s ≡ some xs)
    × Accounts t parent.id xs found next

reconcile_target-After :
    (ip : IpAddress) (now : ℕ) (fresh : ℕ → Fresh) (t : String) (parent : DiscoveryJobRecord)
    (b : Bool) (limit : ℕ) (target : TargetRow) (s : Session)
    → After
        (IsAccounted ip limit t parent target s)
        (reconcile_target ip now fresh t parent b limit target s)
reconcile_target-After ip now fresh t parent b limit target s =
    let P : Session × Result (List DeviceResult) → Type 0 =
      After (IsAccounted ip limit t parent target s) in
    elim (List-cases (run_addresses (first (λ r. r.id == parent.run_id) s.others.runs))) [
      | inr (a, rest, n) ↦
          let e : reconcile_target ip now fresh t parent b limit target s
              ≡ reconcile_expected now fresh t parent target b (a ∷ rest) s =
            unfold reconcile_target in ground (arith, n) in
          let known : expected ip limit parent target s ≡ some (a ∷ rest) = ground (arith, n) in
          subst P (sym e) (
            After-mono (Accounts t parent.id (a ∷ rest)) (IsAccounted ip limit t parent target s)
              (reconcile_expected now fresh t parent target b (a ∷ rest) s)
              (λ found next h. (a ∷ rest, known, h))
              (reconcile_expected-After now fresh t parent target b (a ∷ rest) s))
      | inl n ↦ elim (Option-cases (expand ip limit (scope_of target))) [
        | inl x ↦
            let e : reconcile_target ip now fresh t parent b limit target s ≡ (s, err scope_error) =
              unfold reconcile_target in ground (arith, n, x) in
            subst P (sym e) tt
        | inr (xs, x) ↦
            let planning =
              on_run parent.run_id (λ r. record r { expected_addresses = some xs }) s in
            let e : reconcile_target ip now fresh t parent b limit target s
                ≡ reconcile_expected now fresh t parent target b xs planning =
              unfold reconcile_target in ground (arith, n, x) in
            let known : expected ip limit parent target s ≡ some xs = ground (arith, n, x) in
            subst P (sym e) (
              After-mono (Accounts t parent.id xs) (IsAccounted ip limit t parent target s)
                (reconcile_expected now fresh t parent target b xs planning)
                (λ found next h. (xs, known, h))
                (reconcile_expected-After now fresh t parent target b xs planning))
      ]
    ]

-- When the reconciliation of a parent job returns, for a job and a target that are there, then its
-- expected addresses are those that its run has planned or else those of its scope, and each of them
-- has a result of the job that carries a verdict and is no longer open: among the results that were
-- returned, and among those that are committed.
pub reconcile_parent_job-Covers :
    (ip : IpAddress) (now : ℕ) (fresh : ℕ → Fresh) (t : String) (k : ℕ) (b : Bool) (limit : ℕ)
    (s : Session) (parent : DiscoveryJobRecord) (target : TargetRow) (found : List DeviceResult)
    → get t k s.working ≡ some parent
    → first (λ t. t.id == parent.target_id) s.others.targets ≡ some target
    → (reconcile_parent_job ip now fresh t k b limit s).1 ≡ ok found
    → (xs : List String) × (expected ip limit parent target s ≡ some xs)
      × Covers t parent.id xs (reconcile_parent_job ip now fresh t k b limit s).0.saved.results
      × Covers t parent.id xs found
reconcile_parent_job-Covers ip now fresh t k b limit s parent target found here there done =
    let P : Session × Result (List DeviceResult) → Type 0 =
      After (IsAccounted ip limit t parent target s) in
    let e : reconcile_parent_job ip now fresh t k b limit s
        ≡ reconcile_target ip now fresh t parent b limit target s =
      unfold reconcile_parent_job in ground (arith, here, there) in
    let all = subst P (sym e) (reconcile_target-After ip now fresh t parent b limit target s) in
    let (xs, known, accounts) =
      After-result (IsAccounted ip limit t parent target s)
        (reconcile_parent_job ip now fresh t k b limit s) found all done in
    (xs, known, accounts.0, accounts.1)
