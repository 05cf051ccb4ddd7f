-- ===== src/Discovery/Fanout/Moves.antt =====
-- What `reconcile_parent_job` of backend/app/discovery/fanout.py does to the jobs table is a sequence
-- of steps of the row machine.
use network_operations_platf.Common.{
  ℕ, suc, ◌≡◌, refl, sym, subst, Bool, true, false, String, some, List, [], ◌∷◌, first, keep, ◌==◌,
  arith, Bool-cases, Option-cases, List-cases, inl, inr,
}
use network_operations_platf.Discovery.Contracts.{DiscoveryJobStatus, is_terminal}
use network_operations_platf.Discovery.Scopes.{IpAddress, expand}
use network_operations_platf.Persistence.Tables.{
  DiscoveryJobRecord, TargetRow, DeviceResult, Session, commit, update_where, is_job, get,
}
use network_operations_platf.Persistence.Jobs.{
  integrity_error, scope_error, and_then, Result, ok, err, Ending, ended, is_active,
}
use network_operations_platf.Persistence.Steps.{
  Effects, stays, one, updated, Moved, Ended, Moved-after, Ended-after, Moved-and_then,
  Ended-and_then, Ends-stays,
}
use network_operations_platf.Persistence.Steps.Outcomes.{
  create-Moved, ended-IsGuarded, ended-KeepsPlace,
}
use network_operations_platf.Discovery.Fanout.{
  Fresh, child_target, child_job, with_run, create_job, create_child, outcome, settle_child, settle,
  by_address, belongs, reconcile_address, reconcile_addresses, on_run, run_addresses, scope_of,
  reconcile_expected, reconcile_target, reconcile_parent_job,
}

create_job-Moved :
    (now : ℕ) (fresh : Fresh) (t : String) (parent : DiscoveryJobRecord) (scope : TargetRow)
    (address : String) (target : TargetRow) (s : Session)
    → Moved s (create_job now fresh t parent scope address target s)
unfolding create_job child_job
create_job-Moved now fresh t parent scope address target s =
    Moved-and_then s _ _ (create-Moved fresh.conflict now (child_job fresh t parent target) s)
      (λ child made. (stays, refl))

create_child-Moved :
    (now : ℕ) (fresh : Fresh) (t : String) (parent : DiscoveryJobRecord) (scope : TargetRow)
    (address : String) (s : Session)
    → Moved s (create_child now fresh t parent scope address s)
create_child-Moved now fresh t parent scope address s =
    elim (Option-cases (child_target fresh t scope address s.others.targets)) [
      | inl n ↦
          let e : create_child now fresh t parent scope address s ≡ (s, err integrity_error) =
            unfold create_child in ground (arith, n) in
          subst (λ q. Moved s q) (sym e) (Ends-stays s)
      | inr ((targets, target), n) ↦
          let ready = with_run fresh t parent address targets target s in
          let e : create_child now fresh t parent scope address s
              ≡ create_job now fresh t parent scope address target ready =
            unfold create_child in ground (arith, n) in
          let made = create_job-Moved now fresh t parent scope address target ready in
          subst (λ q. Moved s q) (sym e)
            (Moved-after s ready (create_job now fresh t parent scope address target ready)
              (unfold with_run in stays) (unfold with_run in refl) made)
    ]

not_terminal : (a : DiscoveryJobStatus) → is_terminal a ≡ false → is_active a ≡ true
unfolding is_active
not_terminal a h = ground arith

settle_child-Effects :
    (e : Ending) (t : String) (k : ℕ) (s : Session)
    → is_terminal e.state ≡ true
    → Effects s.working (settle_child e t k s).working
unfolding settle_child
settle_child-Effects e t k s over = elim (Option-cases (get t k s.working)) [
  | inl n ↦
      subst (Effects s.working)
        (sym (let q : (settle_child e t k s).working ≡ s.working = ground (arith, n) in q)) stays
  | inr (child, n) ↦ elim (Bool-cases (is_terminal child.state)) [
    | inl y ↦
        subst (Effects s.working)
          (sym (let q : (settle_child e t k s).working ≡ s.working = ground (arith, n, y) in q))
          stays
    | inr x ↦
        subst (Effects s.working)
          (sym (
            let q : (settle_child e t k s).working ≡ update_where (is_job t k) (ended e) s.working =
              ground (arith, n, x) in
            q))
          (one (
            updated (is_job t k) (ended e) (ended-KeepsPlace e)
              (ended-IsGuarded e t k s.working child n (not_terminal child.state x) over) refl))
  ]
]

settle_child-committed :
    (e : Ending) (t : String) (k : ℕ) (s : Session) → (settle_child e t k s).committed ≡ s.committed
unfolding settle_child
settle_child-committed e t k s = ground arith

settle-Effects :
    (b : Bool) (e : Ending) (t : String) (k : ℕ) (s : Session)
    → is_terminal e.state ≡ true
    → Effects s.working (settle b e t k s).working × ((settle b e t k s).committed ≡ s.committed)
unfolding settle
settle-Effects b e t k s over = (settle_child-Effects e t k s over, settle_child-committed e t k s)

pub outcome_over : (b : Bool) (now : ℕ) → is_terminal (outcome b now).state ≡ true
unfolding outcome
outcome_over true now = refl
outcome_over false now = refl

reconcile_address-Moved :
    (now : ℕ) (fresh : Fresh) (t : String) (parent : DiscoveryJobRecord) (target : TargetRow)
    (b : Bool) (known : List DeviceResult) (address : String) (s : Session)
    → Moved s (reconcile_address now fresh t parent target b known address s)
reconcile_address-Moved now fresh t parent target b known address s =
    let over = outcome_over b now in
    elim (Option-cases (by_address address known)) [
      | inl n ↦
          let e : reconcile_address now fresh t parent target b known address s
              ≡ and_then (create_child now fresh t parent target address s)
                  (λ r made. (settle b (outcome b now) t r.child_job_id made, ok tt)) =
            unfold reconcile_address in ground (arith, n) in
          subst (λ q. Moved s q) (sym e)
            (Moved-and_then s _ _ (create_child-Moved now fresh t parent target address s)
              (λ r made. settle-Effects b (outcome b now) t r.child_job_id made over))
      | inr (r, n) ↦
          let e : reconcile_address now fresh t parent target b known address s
              ≡ (settle b (outcome b now) t r.child_job_id s, ok tt) =
            unfold reconcile_address in ground (arith, n) in
          subst (λ q. Moved s q) (sym e) (settle-Effects b (outcome b now) t r.child_job_id s over)
    ]

reconcile_addresses-Moved :
    (now : ℕ) (fresh : ℕ → Fresh) (t : String) (parent : DiscoveryJobRecord) (target : TargetRow)
    (b : Bool) (known : List DeviceResult) (xs : List String) (n : ℕ) (s : Session)
    → Moved s (reconcile_addresses now fresh t parent target b known xs n s)
unfolding reconcile_addresses
reconcile_addresses-Moved now fresh t parent target b known [] n s = (stays, refl)
reconcile_addresses-Moved now fresh t parent target b known (x ∷ xs) n s =
    Moved-and_then s _ _ (reconcile_address-Moved now (fresh n) t parent target b known x s)
      (λ done next. reconcile_addresses-Moved now fresh t parent target b known xs (suc n) next)

reconcile_expected-Ended :
    (now : ℕ) (fresh : ℕ → Fresh) (t : String) (parent : DiscoveryJobRecord) (target : TargetRow)
    (b : Bool) (xs : List String) (s : Session)
    → Ended s (reconcile_expected now fresh t parent target b xs s)
unfolding reconcile_expected
reconcile_expected-Ended now fresh t parent target b [] s = Ends-stays s
reconcile_expected-Ended now fresh t parent target b (x ∷ xs) s =
    Ended-and_then s _ _
      (reconcile_addresses-Moved now fresh t parent target b
        (keep (belongs t parent.id) s.others.results) (x ∷ xs) 0 s)
      (λ done next. unfold commit on_run in inr (stays, refl))

reconcile_target-Ended :
    (ip : IpAddress) (now : ℕ) (fresh : ℕ → Fresh) (t : String) (parent : DiscoveryJobRecord)
    (b : Bool) (limit : ℕ) (target : TargetRow) (s : Session)
    → Ended s (reconcile_target ip now fresh t parent b limit target s)
reconcile_target-Ended ip now fresh t parent b limit target s =
    let P : Session × Result (List DeviceResult) → Type 0 = λ q. Ended s q in
    let planned = run_addresses (first (λ r. r.id == parent.run_id) s.others.runs) in
    elim (List-cases planned) [
      | inr (a, rest, n) ↦
          let e : reconcile_target ip now fresh t parent b limit target s
              ≡ reconcile_expected now fresh t parent target b (a ∷ rest) s =
            unfold reconcile_target in ground (arith, n) in
          subst P (sym e) (reconcile_expected-Ended now fresh t parent target b (a ∷ rest) s)
      | inl n ↦ elim (Option-cases (expand ip limit (scope_of target))) [
        | inl x ↦
            let e : reconcile_target ip now fresh t parent b limit target s ≡ (s, err scope_error) =
              unfold reconcile_target in ground (arith, n, x) in
            subst P (sym e) (Ends-stays s)
        | inr (found, x) ↦
            let planning =
              on_run parent.run_id (λ r. record r { expected_addresses = some found }) s in
            let e : reconcile_target ip now fresh t parent b limit target s
                ≡ reconcile_expected now fresh t parent target b found planning =
              unfold reconcile_target in ground (arith, n, x) in
            subst P (sym e) (
              Ended-after s planning (reconcile_expected now fresh t parent target b found planning)
                (unfold on_run in stays) (unfold on_run in refl)
                (reconcile_expected-Ended now fresh t parent target b found planning))
      ]
    ]

pub reconcile_parent_job-Ended :
    (ip : IpAddress) (now : ℕ) (fresh : ℕ → Fresh) (t : String) (k : ℕ) (b : Bool) (limit : ℕ)
    (s : Session)
    → Ended s (reconcile_parent_job ip now fresh t k b limit s)
reconcile_parent_job-Ended ip now fresh t k b limit s =
    let P : Session × Result (List DeviceResult) → Type 0 = λ q. Ended s q in
    elim (Option-cases (get t k s.working)) [
      | inl n ↦
          let e : reconcile_parent_job ip now fresh t k b limit s ≡ (s, ok []) =
            unfold reconcile_parent_job in ground (arith, n) in
          subst P (sym e) (Ends-stays s)
      | inr (parent, n) ↦
          elim (Option-cases (first (λ t. t.id == parent.target_id) s.others.targets)) [
            | inl x ↦
                let e : reconcile_parent_job ip now fresh t k b limit s ≡ (s, ok []) =
                  unfold reconcile_parent_job in ground (arith, n, x) in
                subst P (sym e) (Ends-stays s)
            | inr (target, x) ↦
                let e : reconcile_parent_job ip now fresh t k b limit s
                    ≡ reconcile_target ip now fresh t parent b limit target s =
                  unfold reconcile_parent_job in ground (arith, n, x) in
                subst P (sym e) (reconcile_target-Ended ip now fresh t parent b limit target s)
          ]
    ]
