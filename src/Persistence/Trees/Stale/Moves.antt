-- ===== src/Persistence/Trees/Stale/Moves.antt =====
-- What `resolve_stale_cancellation` of backend/app/persistence/discovery_repositories.py does to the
-- jobs table is a sequence of steps of the row machine.
use network_operations_platf.Common.{
  ℕ, ◌≡◌, refl, sym, subst, Bool, false, String, Option, some, any, is_none, not, ◌||◌, arith,
  Bool-cases, Option-cases, inl, inr,
}
use network_operations_platf.Discovery.Contracts.{running, cancelled, is_terminal, status_eq}
use network_operations_platf.Discovery.Scopes.{IpAddress}
use network_operations_platf.Discovery.Fanout.{Fresh, reconcile_parent_job}
use network_operations_platf.Discovery.Fanout.Moves.{reconcile_parent_job-Ended}
use network_operations_platf.Persistence.Tables.{
  DiscoveryJobRecord, Session, alone, rollback, update_where, get,
}
use network_operations_platf.Persistence.Jobs.{
  resource_not_found, cancellation_conflict, Result, ok, err, ended, is_active,
}
use network_operations_platf.Persistence.Steps.{
  ends_row, IsGuarded, Effects, one, updated, Ended, Ended-after, Ends-stays, Ends-rollback,
}
use network_operations_platf.Persistence.Steps.Outcomes.{ended-KeepsPlace}
use network_operations_platf.Persistence.Trees.{has_children, target_of, after}
use network_operations_platf.Persistence.Trees.Moves.{after-Ended}
use network_operations_platf.Persistence.Trees.Stale.{
  held, is_resolvable, cancel_ending, is_found, resolve_children, resolve_update,
  resolve_stale_cancellation,
}

found-IsGuarded :
    (now : ℕ) (t : String) (job : DiscoveryJobRecord) (s : Session)
    → IsGuarded s.working (is_found t job.id s.working) (ended (cancel_ending now job))
unfolding is_found is_active
found-IsGuarded now t job s u j r here holds =
    ends_row (cancel_ending now job) (ground arith) (unfold cancel_ending in refl) refl

resolvable-IsGuarded :
    (now : ℕ) (t : String) (job : DiscoveryJobRecord) (s : Session)
    → IsGuarded s.working (is_resolvable now t job.id) (ended (cancel_ending now job))
unfolding is_resolvable is_active
resolvable-IsGuarded now t job s u j r here holds =
    ends_row (cancel_ending now job) (ground arith) (unfold cancel_ending in refl) refl

resolve_children-Ended :
    (ip : IpAddress) (now : ℕ) (fresh : ℕ → Fresh) (t : String) (job : DiscoveryJobRecord)
    (s : Session)
    → Ended s (resolve_children ip now fresh t job s)
resolve_children-Ended ip now fresh t job s =
    let P : Session × Result (Option DiscoveryJobRecord) → Type 0 = λ q. Ended s q in
    let guard = is_found t job.id s.working in
    let ending = cancel_ending now job in
    let mid = record s { working = update_where guard (ended ending) s.working } in
    let step : Effects s.working mid.working =
      one (
        updated guard (ended ending) (ended-KeepsPlace ending) (found-IsGuarded now t job s)
          refl) in
    elim (Bool-cases (has_children (target_of job mid))) [
      | inl y ↦
          let e : resolve_children ip now fresh t job s
              ≡ after (λ q. get t job.id q.working)
                  (reconcile_parent_job ip now fresh t job.id false 4096 mid) =
            unfold resolve_children in ground (arith, y) in
          let read : Session → Option DiscoveryJobRecord = λ q. get t job.id q.working in
          let call = reconcile_parent_job ip now fresh t job.id false 4096 mid in
          let ending_call = reconcile_parent_job-Ended ip now fresh t job.id false 4096 mid in
          subst P (sym e)
            (Ended-after s mid (after read call) step refl (after-Ended mid read call ending_call))
      | inr n ↦
          let e : resolve_children ip now fresh t job s ≡ (mid, ok (get t job.id mid.working)) =
            unfold resolve_children in ground (arith, n) in
          subst P (sym e) (inl (refl, inl step))
    ]

resolve_update-Ended :
    (ip : IpAddress) (now : ℕ) (fresh : ℕ → Fresh) (t : String) (job : DiscoveryJobRecord)
    (s : Session)
    → Ended s (resolve_update ip alone now fresh t job s)
resolve_update-Ended ip now fresh t job s =
    let P : Session × Result (Option DiscoveryJobRecord) → Type 0 = λ q. Ended s q in
    let guard = is_resolvable now t job.id in
    let ending = cancel_ending now job in
    elim (Bool-cases (any guard s.working)) [
      | inl y ↦
          let mid = record s { working = update_where guard (ended ending) s.working } in
          let e : resolve_update ip alone now fresh t job s
              ≡ resolve_children ip now fresh t job mid =
            unfold resolve_update in ground (arith, y) in
          subst P (sym e) (
            Ended-after s mid (resolve_children ip now fresh t job mid)
              (one (
                updated guard (ended ending) (ended-KeepsPlace ending)
                  (resolvable-IsGuarded now t job s) refl))
              refl (resolve_children-Ended ip now fresh t job mid))
      | inr n ↦ elim (Option-cases (get t job.id (rollback s).working)) [
        | inl x ↦
            let e : resolve_update ip alone now fresh t job s
                ≡ (rollback s, err cancellation_conflict) =
              unfold resolve_update in ground (arith, n, x) in
            subst P (sym e) (Ends-rollback s)
        | inr (r, x) ↦ elim (Bool-cases (status_eq r.state cancelled)) [
          | inl z ↦
              let e : resolve_update ip alone now fresh t job s ≡ (rollback s, ok (some r)) =
                unfold resolve_update in ground (arith, n, x, z) in
              subst P (sym e) (Ends-rollback s)
          | inr z ↦
              let e : resolve_update ip alone now fresh t job s
                  ≡ (rollback s, err cancellation_conflict) =
                unfold resolve_update in ground (arith, n, x, z) in
              subst P (sym e) (Ends-rollback s)
        ]
      ]
    ]

-- The job cannot be resolved: it has ended, it is not running, nobody asked, or a worker holds it.
abbrev is_refused : ℕ → DiscoveryJobRecord → Bool
is_refused now job =
    is_terminal job.state
    || (not (status_eq job.state running)
        || (is_none job.cancellation_requested_at || held now job))

pub resolve_stale_cancellation-Ended :
    (ip : IpAddress) (now : ℕ) (fresh : ℕ → Fresh) (t : String) (k : ℕ) (s : Session)
    → Ended s (resolve_stale_cancellation ip alone now fresh t k s)
resolve_stale_cancellation-Ended ip now fresh t k s =
    let P : Session × Result (Option DiscoveryJobRecord) → Type 0 = λ q. Ended s q in
    elim (Option-cases (get t k s.working)) [
      | inl n ↦
          let e : resolve_stale_cancellation ip alone now fresh t k s
              ≡ (s, err resource_not_found) =
            unfold resolve_stale_cancellation in ground (arith, n) in
          subst P (sym e) (Ends-stays s)
      | inr (job, n) ↦ elim (Bool-cases (status_eq job.state cancelled)) [
        | inl y ↦
            let e : resolve_stale_cancellation ip alone now fresh t k s ≡ (s, ok (some job)) =
              unfold resolve_stale_cancellation in ground (arith, n, y) in
            subst P (sym e) (Ends-stays s)
        | inr y ↦ elim (Bool-cases (is_refused now job)) [
          | inl z ↦
              let e : resolve_stale_cancellation ip alone now fresh t k s
                  ≡ (s, err cancellation_conflict) =
                unfold resolve_stale_cancellation in ground (arith, n, y, z) in
              subst P (sym e) (Ends-stays s)
          | inr z ↦
              let e : resolve_stale_cancellation ip alone now fresh t k s
                  ≡ resolve_update ip alone now fresh t job s =
                unfold resolve_stale_cancellation in ground (arith, n, y, z) in
              subst P (sym e) (resolve_update-Ended ip now fresh t job s)
        ]
      ]
    ]
