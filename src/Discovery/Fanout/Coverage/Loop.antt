-- ===== src/Discovery/Fanout/Coverage/Loop.antt =====
-- The loop of `reconcile_parent_job` (backend/app/discovery/fanout.py) over the expected addresses, and
-- the results that it leaves.
use network_operations_platf.Common.{
  ℕ, suc, ◌≡◌, refl, sym, subst, ◌∙◌, ap, Bool, true, String, some, List, [], ◌∷◌, ◌++◌, any,
  str_eq_refl, ==_refl, ◌==◌, ◌||◌, arith, Option-cases, inl, inr,
}
use network_operations_platf.Discovery.Contracts.{is_terminal}
use network_operations_platf.Persistence.Tables.{
  DiscoveryJobRecord, TargetRow, DeviceResult, Session,
}
use network_operations_platf.Persistence.Jobs.{
  integrity_error, Result, ok, err, Ending, and_then, create, NewJob,
}
use network_operations_platf.Persistence.Jobs.Creations.{
  Creation, rejects, clashes, makes, create-Creation,
}
use network_operations_platf.Discovery.Fanout.{
  Fresh, child_target, child_job, child_result, with_run, create_job, create_child, outcome,
  settle_child, settle_result, settle, belongs, by_address, reconcile_address, reconcile_addresses,
}
use network_operations_platf.Discovery.Fanout.Moves.{outcome_over}
use network_operations_platf.Discovery.Fanout.Coverage.{
  After, After-and_then, After-mono, is_settled_for, is_tagged, Covers, Grows, Grows-trans,
  Grows-same, Grows-append, Grows-settle, any-append, any-map, covers-settle_row,
}

made-After :
    (conflict : Bool) (now : ℕ) (n : NewJob) (s : Session) (q : Session × Result DiscoveryJobRecord)
    → Creation conflict now n s q
    → After (λ r next. next.others ≡ s.others) q
made-After conflict now n s q (rejects e h) = rw h tt
made-After conflict now n s q (clashes h) = rw h tt
made-After conflict now n s q (makes fits free h) = rw h refl

-- A child that was made is the last result.
abbrev IsMade :
    Fresh
    → String
    → DiscoveryJobRecord
    → TargetRow
    → String
    → Session
    → DeviceResult
    → Session
    → Type 0
IsMade fresh t parent scope x s r next =
    (r ≡ child_result fresh t parent scope x) × (next.others.results ≡ s.others.results ++ r ∷ [])

create_child-After :
    (now : ℕ) (fresh : Fresh) (t : String) (parent : DiscoveryJobRecord) (scope : TargetRow)
    (x : String) (s : Session)
    → After (IsMade fresh t parent scope x s) (create_child now fresh t parent scope x s)
create_child-After now fresh t parent scope x s =
    let P : Session × Result DeviceResult → Type 0 = After (IsMade fresh t parent scope x s) in
    elim (Option-cases (child_target fresh t scope x s.others.targets)) [
      | inl n ↦
          let e : create_child now fresh t parent scope x s ≡ (s, err integrity_error) =
            unfold create_child in ground (arith, n) in
          subst P (sym e) tt
      | inr ((targets, target), n) ↦
          let ready = with_run fresh t parent x targets target s in
          let taken = fresh.conflict || any (λ r. r.id == fresh.job_id) ready.working in
          let job = child_job fresh t parent target in
          let e : create_child now fresh t parent scope x s
              ≡ create_job now fresh t parent scope x target ready =
            unfold create_child in ground (arith, n) in
          subst P (sym e) (
            unfold create_job in
            After-and_then (λ r next. next.others ≡ ready.others) (IsMade fresh t parent scope x s)
              (create taken now job ready) _
              (made-After taken now job ready _ (create-Creation taken now job ready))
              (λ child made same. (
                refl,
                ap (λ o. o.results ++ child_result fresh t parent scope x ∷ []) same
                    ∙ unfold with_run in refl,
              )))
    ]

settle-results :
    (b : Bool) (e : Ending) (t : String) (k : ℕ) (s : Session)
    → (settle b e t k s).others.results ≡ settle_result b e k s.others.results
unfolding settle settle_child
settle-results b e t k s = ground arith

-- What is known of the results before the loop: one that was found by its address is still there.
abbrev pub IsKnown : String → ℕ → List DeviceResult → List DeviceResult → Type 0
IsKnown t p known rs =
    (x : String) (r : DeviceResult)
    → by_address x known ≡ some r
    → any (is_tagged t p x r.child_job_id) rs ≡ true

-- The results of a parent have grown, and cover addresses.
abbrev pub Advanced : String → ℕ → List String → Session → Session → Type 0
Advanced t p xs s next =
    Covers t p xs next.others.results × Grows t p s.others.results next.others.results

settle-Advanced :
    (b : Bool) (e : Ending) (t : String) (p k : ℕ) (x : String) (s : Session)
    → is_terminal e.state ≡ true
    → any (is_tagged t p x k) s.others.results ≡ true
    → Advanced t p (x ∷ []) s (settle b e t k s)
settle-Advanced b e t p k x s over tagged =
    let same = sym (settle-results b e t k s) in
    subst (λ rs. Covers t p (x ∷ []) rs × Grows t p s.others.results rs) same
      (
        (
          unfold settle_result in
              any-map t p (is_tagged t p x k) (is_settled_for t p x) _
                (λ r h. covers-settle_row t p b e k x r over h) s.others.results tagged,
          tt,
        ),
        Grows-settle t p b e k s.others.results,
      )

made-tagged :
    (fresh : Fresh) (t : String) (parent : DiscoveryJobRecord) (target : TargetRow) (x : String)
    → is_tagged t parent.id x fresh.job_id (child_result fresh t parent target x) ≡ true
unfolding is_tagged belongs child_result
made-tagged fresh t parent target x =
    ground (arith, str_eq_refl t, str_eq_refl x, ==_refl parent.id, ==_refl fresh.job_id)

-- A child that was made is settled at once.
made-Advanced :
    (b : Bool) (e : Ending) (fresh : Fresh) (t : String) (parent : DiscoveryJobRecord)
    (target : TargetRow) (x : String) (s : Session) (r : DeviceResult) (made : Session)
    → is_terminal e.state ≡ true
    → IsMade fresh t parent target x s r made
    → Advanced t parent.id (x ∷ []) s (settle b e t r.child_job_id made)
made-Advanced b e fresh t parent target x s r made over (same, grown) =
    let key : r.child_job_id ≡ fresh.job_id =
      ap (λ q. q.child_job_id) same ∙ unfold child_result in refl in
    let new : is_tagged t parent.id x r.child_job_id r ≡ true =
      subst (λ k. is_tagged t parent.id x k r ≡ true) (sym key)
        (subst (λ q. is_tagged t parent.id x fresh.job_id q ≡ true) (sym same)
          (made-tagged fresh t parent target x)) in
    let tagged : any (is_tagged t parent.id x r.child_job_id) made.others.results ≡ true =
      rw grown (
        ground (
          arith,
          any-append t parent.id (is_tagged t parent.id x r.child_job_id) s.others.results r,
          new,
        )) in
    let (covers, grows) = settle-Advanced b e t parent.id r.child_job_id x made over tagged in
    (
      covers,
      Grows-trans t parent.id s.others.results made.others.results _
          (subst (Grows t parent.id s.others.results) (sym grown)
            (Grows-append t parent.id s.others.results r))
          grows,
    )

reconcile_address-After :
    (now : ℕ) (fresh : Fresh) (t : String) (parent : DiscoveryJobRecord) (target : TargetRow)
    (b : Bool) (known : List DeviceResult) (x : String) (s : Session)
    → IsKnown t parent.id known s.others.results
    → After
        (λ done next. Advanced t parent.id (x ∷ []) s next)
        (reconcile_address now fresh t parent target b known x s)
reconcile_address-After now fresh t parent target b known x s h =
    let P : Session × Result Unit → Type 0 =
      After (λ done next. Advanced t parent.id (x ∷ []) s next) in
    let over = outcome_over b now in
    elim (Option-cases (by_address x known)) [
      | inl n ↦
          let call : DeviceResult → Session → Session × Result Unit =
            λ r made. (settle b (outcome b now) t r.child_job_id made, ok tt) in
          let e : reconcile_address now fresh t parent target b known x s
              ≡ and_then (create_child now fresh t parent target x s) call =
            unfold reconcile_address in ground (arith, n) in
          subst P (sym e) (
            After-and_then (IsMade fresh t parent target x s)
              (λ done next. Advanced t parent.id (x ∷ []) s next)
              (create_child now fresh t parent target x s) call
              (create_child-After now fresh t parent target x s)
              (λ r made is_made.
                made-Advanced b (outcome b now) fresh t parent target x s r made over is_made))
      | inr (r, n) ↦
          let e : reconcile_address now fresh t parent target b known x s
              ≡ (settle b (outcome b now) t r.child_job_id s, ok tt) =
            unfold reconcile_address in ground (arith, n) in
          subst P (sym e)
            (settle-Advanced b (outcome b now) t parent.id r.child_job_id x s over (h x r n))
    ]

IsKnown-Grows :
    (t : String) (p : ℕ) (known rs rs' : List DeviceResult)
    → Grows t p rs rs'
    → IsKnown t p known rs
    → IsKnown t p known rs'
IsKnown-Grows t p known rs rs' g h x r found = g.tagged_stay x r.child_job_id (h x r found)

pub reconcile_addresses-After :
    (now : ℕ) (fresh : ℕ → Fresh) (t : String) (parent : DiscoveryJobRecord) (target : TargetRow)
    (b : Bool) (known : List DeviceResult) (xs : List String) (n : ℕ) (s : Session)
    → IsKnown t parent.id known s.others.results
    → After
        (λ done next. Advanced t parent.id xs s next)
        (reconcile_addresses now fresh t parent target b known xs n s)
unfolding reconcile_addresses
reconcile_addresses-After now fresh t parent target b known [] n s h =
    (tt, Grows-same t parent.id s.others.results)
reconcile_addresses-After now fresh t parent target b known (x ∷ xs) n s h =
    After-and_then (λ done next. Advanced t parent.id (x ∷ []) s next)
      (λ done next. Advanced t parent.id (x ∷ xs) s next)
      (reconcile_address now (fresh n) t parent target b known x s) _
      (reconcile_address-After now (fresh n) t parent target b known x s h)
      (λ done mid first_step.
        After-mono (λ done next. Advanced t parent.id xs mid next)
          (λ done next. Advanced t parent.id (x ∷ xs) s next)
          (reconcile_addresses now fresh t parent target b known xs (suc n) mid)
          (λ done next later. (
            (later.1.settled_stay x first_step.0.0, later.0),
            Grows-trans t parent.id s.others.results mid.others.results next.others.results
                first_step.1 later.1,
          ))
          (reconcile_addresses-After now fresh t parent target b known xs (suc n) mid
            (IsKnown-Grows t parent.id known s.others.results mid.others.results first_step.1 h)))
