-- ===== src/Persistence/Trees/Owned/Moves.antt =====
-- What the end of an owned job and of its children (backend/app/persistence/
-- discovery_repositories.py) does to the jobs table is a sequence of steps of the row machine.
use network_operations_platf.Common.{
  ℕ, ◌≡◌, refl, sym, subst, Bool, true, false, String, Option, none, List, [], ◌∷◌, any, keep, map,
  not, opt_eq, ◌==◌, ◌&&◌, arith, Bool-cases, Option-cases, inl, inr, if◌then◌else◌,
}
use network_operations_platf.Discovery.Contracts.{queued, running, is_terminal, status_eq}
use network_operations_platf.Discovery.Scopes.{IpAddress}
use network_operations_platf.Discovery.Fanout.{Fresh, reconcile_parent_job}
use network_operations_platf.Discovery.Fanout.Moves.{reconcile_parent_job-Ended}
use network_operations_platf.Persistence.Tables.{
  DiscoveryJobRecord, Session, alone, update_where, is_job, get,
}
use network_operations_platf.Persistence.Jobs.{
  Result, ok, and_then, Ending, ended, is_active, transition, protected_discovery_job_id,
  cancellation_requested,
}
use network_operations_platf.Persistence.Steps.{
  stays, one, updated, Moved, Ended, Moved-and_then, Ended-and_then, Ends-stays,
}
use network_operations_platf.Persistence.Steps.Outcomes.{
  ended-IsGuarded, ended-KeepsPlace, transition-Outcome, Outcome-Moved,
}
use network_operations_platf.Persistence.Trees.{has_children, target_of, after}
use network_operations_platf.Persistence.Trees.Moves.{after-Ended}
use network_operations_platf.Persistence.Trees.Owned.{
  tree_ending, tree_change, end_child, end_children, is_active_child, end_root,
  reconcile_owned_tree, expired_owner, recover_expired_owned_job, abandon_owned_job,
}

-- A session and the row that a method returns.
abbrev Answer : Type 0
Answer = Session × Result (Option DiscoveryJobRecord)

pub end_child-Moved :
    (e : Ending) (t : String) (owner k : ℕ) (s : Session)
    → is_terminal e.state ≡ true
    → Moved s (end_child e t owner k s)
end_child-Moved e t owner k s over =
    let P : Answer → Type 0 = λ q. Moved s q in
    elim (Option-cases (get t k s.working)) [
      | inl n ↦
          let q : end_child e t owner k s ≡ (s, ok none) = unfold end_child in ground (arith, n) in
          subst P (sym q) (stays, refl)
      | inr (child, n) ↦ elim (Bool-cases (status_eq child.state queued)) [
        | inl y ↦
            let q : end_child e t owner k s
                ≡ (record s { working = update_where (is_job t k) (ended e) s.working }, ok none) =
              unfold end_child in ground (arith, n, y) in
            let active : is_active child.state ≡ true = unfold is_active in ground (arith, y) in
            subst P (sym q) (
              one (
                  updated (is_job t k) (ended e) (ended-KeepsPlace e)
                    (ended-IsGuarded e t k s.working child n active over) refl),
              refl,
            )
        | inr y ↦ elim (Bool-cases (opt_eq child.execution_owner owner)) [
          | inr z ↦
              let q : end_child e t owner k s ≡ (s, ok none) =
                unfold end_child in ground (arith, n, y, z) in
              subst P (sym q) (stays, refl)
          | inl z ↦
              let c = tree_change e owner in
              let q : end_child e t owner k s ≡ transition alone e.now t k c s =
                unfold end_child in ground (arith, n, y, z) in
              subst P (sym q) (
                Outcome-Moved s (transition alone e.now t k c s) (transition-Outcome e.now t k c s))
        ]
      ]
    ]

end_children-Moved :
    (e : Ending) (t : String) (owner : ℕ) (ks : List ℕ) (s : Session)
    → is_terminal e.state ≡ true
    → Moved s (end_children e t owner ks s)
unfolding end_children
end_children-Moved e t owner [] s over = (stays, refl)
end_children-Moved e t owner (k ∷ ks) s over =
    Moved-and_then s _ _ (end_child-Moved e t owner k s over)
      (λ done next. end_children-Moved e t owner ks next over)

tree_ending_over :
    (cancel : Bool) (now : ℕ) (message : String) (job : DiscoveryJobRecord)
    → is_terminal (tree_ending cancel now message job).state ≡ true
unfolding tree_ending
tree_ending_over true now message job = refl
tree_ending_over false now message job = refl

Ended-if :
    (b : Bool) (s : Session) (q r : Answer) → Ended s q → Ended s r → Ended s (if b then q else r)
Ended-if true s q r x y = x
Ended-if false s q r x y = y

module _ (ip : IpAddress) (fresh : ℕ → Fresh) (t : String) where
  results-Ended :
      (cancel : Bool) (e : Ending) (job : DiscoveryJobRecord) (terminal : Option DiscoveryJobRecord)
      (s : Session)
      → Ended s (
          if has_children (target_of job s)
          then after
              (λ q. terminal)
              (reconcile_parent_job ip e.now fresh t job.id (not cancel) 4096 s)
          else (s, ok terminal))
  results-Ended cancel e job terminal s =
      Ended-if (has_children (target_of job s)) s _ _
        (after-Ended s (λ q. terminal)
          (reconcile_parent_job ip e.now fresh t job.id (not cancel) 4096 s)
          (reconcile_parent_job-Ended ip e.now fresh t job.id (not cancel) 4096 s))
        (Ends-stays s)

  end_root-Ended :
      (cancel : Bool) (e : Ending) (owner : ℕ) (job : DiscoveryJobRecord) (s : Session)
      → Ended s (end_root ip fresh cancel e t owner job s)
  unfolding end_root
  end_root-Ended cancel e owner job s =
      let c = tree_change e owner in
      Ended-and_then s (transition alone e.now t job.id c s) _
        (Outcome-Moved s (transition alone e.now t job.id c s)
          (transition-Outcome e.now t job.id c s))
        (λ terminal next. results-Ended cancel e job terminal next)

  pub reconcile_owned_tree-Ended :
      (now k owner : ℕ) (message : String) (s : Session)
      → Ended s (reconcile_owned_tree ip now fresh t k owner message s)
  reconcile_owned_tree-Ended now k owner message s =
      let P : Answer → Type 0 = λ q. Ended s q in
      elim (Option-cases (get t k s.working)) [
        | inl n ↦
            let q : reconcile_owned_tree ip now fresh t k owner message s ≡ (s, ok none) =
              unfold reconcile_owned_tree in ground (arith, n) in
            subst P (sym q) (Ends-stays s)
        | inr (job, n) ↦
            let cancel = cancellation_requested t k s in
            let e = tree_ending cancel now message job in
            let children = map (λ c. c.id) (keep (is_active_child t k) s.working) in
            let q : reconcile_owned_tree ip now fresh t k owner message s
                ≡ and_then (end_children e t owner children s)
                    (λ done next. end_root ip fresh cancel e t owner job next) =
              unfold reconcile_owned_tree in ground (arith, n) in
            subst P (sym q) (
              Ended-and_then s (end_children e t owner children s) _
                (end_children-Moved e t owner children s (tree_ending_over cancel now message job))
                (λ done next. end_root-Ended cancel e owner job next))
      ]

  pub recover_expired_owned_job-Ended :
      (now k stale_before : ℕ) (s : Session)
      → Ended s (recover_expired_owned_job ip now fresh t k stale_before s)
  recover_expired_owned_job-Ended now k stale_before s =
      let P : Answer → Type 0 = λ q. Ended s q in
      let message : String = "Discovery worker lease expired; execution was not resumed." in
      elim (Bool-cases (k == protected_discovery_job_id)) [
        | inl y ↦
            let q : recover_expired_owned_job ip now fresh t k stale_before s ≡ (s, ok none) =
              unfold recover_expired_owned_job in ground (arith, y) in
            subst P (sym q) (Ends-stays s)
        | inr y ↦ elim (Option-cases (get t k s.working)) [
          | inl n ↦
              let q : recover_expired_owned_job ip now fresh t k stale_before s ≡ (s, ok none) =
                unfold recover_expired_owned_job in ground (arith, y, n) in
              subst P (sym q) (Ends-stays s)
          | inr (job, n) ↦ elim (Option-cases (expired_owner stale_before job)) [
            | inl z ↦
                let q : recover_expired_owned_job ip now fresh t k stale_before s ≡ (s, ok none) =
                  unfold recover_expired_owned_job in ground (arith, y, n, z) in
                subst P (sym q) (Ends-stays s)
            | inr (owner, z) ↦
                let q : recover_expired_owned_job ip now fresh t k stale_before s
                    ≡ reconcile_owned_tree ip now fresh t k owner message s =
                  unfold recover_expired_owned_job in ground (arith, y, n, z) in
                subst P (sym q) (reconcile_owned_tree-Ended now k owner message s)
          ]
        ]
      ]

  pub abandon_owned_job-Ended :
      (now k owner : ℕ) (message : String) (s : Session)
      → Ended s (abandon_owned_job ip now fresh t k owner message s)
  abandon_owned_job-Ended now k owner message s =
      let P : Answer → Type 0 = λ q. Ended s q in
      let owned : DiscoveryJobRecord → Bool =
        λ r. is_job t k r && (status_eq r.state running && opt_eq r.execution_owner owner) in
      elim (Bool-cases (k == protected_discovery_job_id)) [
        | inl y ↦
            let q : abandon_owned_job ip now fresh t k owner message s ≡ (s, ok none) =
              unfold abandon_owned_job in ground (arith, y) in
            subst P (sym q) (Ends-stays s)
        | inr y ↦ elim (Bool-cases (any owned s.working)) [
          | inl z ↦
              let q : abandon_owned_job ip now fresh t k owner message s
                  ≡ reconcile_owned_tree ip now fresh t k owner message s =
                unfold abandon_owned_job in ground (arith, y, z) in
              subst P (sym q) (reconcile_owned_tree-Ended now k owner message s)
          | inr z ↦
              let q : abandon_owned_job ip now fresh t k owner message s ≡ (s, ok none) =
                unfold abandon_owned_job in ground (arith, y, z) in
              subst P (sym q) (Ends-stays s)
        ]
      ]
