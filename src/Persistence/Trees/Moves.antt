-- ===== src/Persistence/Trees/Moves.antt =====
-- What `request_cancellation` of backend/app/persistence/discovery_repositories.py does to the jobs
-- table is a sequence of steps of the row machine.
use network_operations_platf.Common.{
  ℕ, ◌≡◌, refl, sym, subst, Bool, true, false, String, Option, some, any, is_none, ◌&&◌, arith,
  Bool-cases, Option-cases, inl, inr,
}
use network_operations_platf.Discovery.Contracts.{queued, cancelled, is_terminal, status_eq}
use network_operations_platf.Discovery.Scopes.{IpAddress}
use network_operations_platf.Discovery.Fanout.{Fresh, reconcile_parent_job}
use network_operations_platf.Discovery.Fanout.Moves.{reconcile_parent_job-Ended}
use network_operations_platf.Persistence.Tables.{
  DiscoveryJobRecord, Session, alone, rollback, update_where, get,
}
use network_operations_platf.Persistence.Jobs.{
  resource_not_found, cancellation_conflict, Result, ok, err, Ending, ended, requested,
}
use network_operations_platf.Persistence.Jobs.Updates.{status_eq_sound}
use network_operations_platf.Persistence.Steps.{
  asks_row, stops_row, KeepsPlace, IsGuarded, one, updated, Ended, Ended-after, Ends-stays,
  Ends-rollback,
}
use network_operations_platf.Persistence.Trees.{
  has_children, target_of, after, refreshed, request_values, has_state, already_cancelled,
  request_children, request_update, request_cancellation,
}

pub after-Ended :
    {A B : Type 0} (s : Session) (f : Session → B) (q : Session × Result A)
    → Ended s q
    → Ended s (after f q)
unfolding after
after-Ended s f (next, ok a) h = h
after-Ended s f (next, err e) h = h

request-IsGuarded :
    (now by : ℕ) (reason t : String) (job : DiscoveryJobRecord) (s : Session)
    → is_terminal job.state ≡ false
    → IsGuarded s.working (has_state t job.id job.state) (request_values now by reason job)
unfolding has_state request_values
request-IsGuarded now by reason t job s going u j r found holds =
    let seen = status_eq_sound r.state job.state (ground arith) in
    elim (Bool-cases (status_eq job.state queued)) [
      | inl y ↦
          let stop : Ending = record {
            state = cancelled;
            failure_code = "CANCELLED";
            failure_message = reason;
            now = now;
          } in
          stops_row now by reason stop (ground (arith, seen)) refl (ground arith)
      | inr n ↦ asks_row now by reason (ground (arith, seen)) (ground arith)
    ]

pub request-KeepsPlace :
    (now by : ℕ) (reason : String) (job : DiscoveryJobRecord)
    → KeepsPlace (request_values now by reason job)
unfolding request_values requested ended
request-KeepsPlace now by reason job r = ground arith

request_children-Ended :
    (ip : IpAddress) (sync : Bool) (now : ℕ) (fresh : ℕ → Fresh) (t : String)
    (job : DiscoveryJobRecord) (s : Session)
    → Ended s (request_children ip sync now fresh t job s)
request_children-Ended ip sync now fresh t job s =
    let P : Session × Result (Option DiscoveryJobRecord × Bool) → Type 0 = λ q. Ended s q in
    elim (Bool-cases
      (has_children (target_of job s) && status_eq (refreshed sync t job s).state queued)) [
        | inl y ↦
            let e : request_children ip sync now fresh t job s
                ≡ after (λ q. (get t job.id q.working, true))
                    (reconcile_parent_job ip now fresh t job.id false 4096 s) =
              unfold request_children in ground (arith, y) in
            subst P (sym e)
              (after-Ended s _ _ (reconcile_parent_job-Ended ip now fresh t job.id false 4096 s))
        | inr n ↦
            let e : request_children ip sync now fresh t job s
                ≡ (s, ok (get t job.id s.working, true)) =
              unfold request_children in ground (arith, n) in
            subst P (sym e) (Ends-stays s)
      ]

already_cancelled-Ended : (t : String) (k : ℕ) (s : Session) → Ended s (already_cancelled t k s)
already_cancelled-Ended t k s =
    let P : Session × Result (Option DiscoveryJobRecord × Bool) → Type 0 = λ q. Ended s q in
    elim (Option-cases (get t k (rollback s).working)) [
      | inl n ↦
          let e : already_cancelled t k s ≡ (rollback s, err cancellation_conflict) =
            unfold already_cancelled in ground (arith, n) in
          subst P (sym e) (Ends-rollback s)
      | inr (r, n) ↦ elim (Bool-cases (status_eq r.state cancelled)) [
        | inl y ↦
            let e : already_cancelled t k s ≡ (rollback s, ok (some r, false)) =
              unfold already_cancelled in ground (arith, n, y) in
            subst P (sym e) (Ends-rollback s)
        | inr x ↦
            let e : already_cancelled t k s ≡ (rollback s, err cancellation_conflict) =
              unfold already_cancelled in ground (arith, n, x) in
            subst P (sym e) (Ends-rollback s)
      ]
    ]

request_update-Ended :
    (ip : IpAddress) (sync : Bool) (now : ℕ) (fresh : ℕ → Fresh) (t : String) (by : ℕ)
    (reason : String) (job : DiscoveryJobRecord) (s : Session)
    → is_terminal job.state ≡ false
    → Ended s (request_update ip sync alone now fresh t by reason job s)
request_update-Ended ip sync now fresh t by reason job s going =
    let P : Session × Result (Option DiscoveryJobRecord × Bool) → Type 0 = λ q. Ended s q in
    let guard = has_state t job.id job.state in
    let values = request_values now by reason job in
    elim (Bool-cases (any guard s.working)) [
      | inl y ↦
          let mid = record s { working = update_where guard values s.working } in
          let e : request_update ip sync alone now fresh t by reason job s
              ≡ request_children ip sync now fresh t job mid =
            unfold request_update in ground (arith, y) in
          subst P (sym e) (
            Ended-after s mid (request_children ip sync now fresh t job mid)
              (one (
                updated guard values (request-KeepsPlace now by reason job)
                  (request-IsGuarded now by reason t job s going) refl))
              refl (request_children-Ended ip sync now fresh t job mid))
      | inr n ↦
          let e : request_update ip sync alone now fresh t by reason job s
              ≡ already_cancelled t job.id s =
            unfold request_update in ground (arith, n) in
          subst P (sym e) (already_cancelled-Ended t job.id s)
    ]

pub request_cancellation-Ended :
    (ip : IpAddress) (sync : Bool) (now : ℕ) (fresh : ℕ → Fresh) (t : String) (k by : ℕ)
    (reason : String) (s : Session)
    → Ended s (request_cancellation ip sync alone now fresh t k by reason s)
request_cancellation-Ended ip sync now fresh t k by reason s =
    let P : Session × Result (Option DiscoveryJobRecord × Bool) → Type 0 = λ q. Ended s q in
    elim (Option-cases (get t k s.working)) [
      | inl n ↦
          let e : request_cancellation ip sync alone now fresh t k by reason s
              ≡ (s, err resource_not_found) =
            unfold request_cancellation in ground (arith, n) in
          subst P (sym e) (Ends-stays s)
      | inr (job, n) ↦ elim (Bool-cases (is_terminal job.state)) [
        | inl y ↦ elim (Bool-cases (status_eq job.state cancelled)) [
          | inl z ↦
              let e : request_cancellation ip sync alone now fresh t k by reason s
                  ≡ (s, ok (some job, false)) =
                unfold request_cancellation in ground (arith, n, y, z) in
              subst P (sym e) (Ends-stays s)
          | inr z ↦
              let e : request_cancellation ip sync alone now fresh t k by reason s
                  ≡ (s, err cancellation_conflict) =
                unfold request_cancellation in ground (arith, n, y, z) in
              subst P (sym e) (Ends-stays s)
        ]
        | inr y ↦ elim (Bool-cases (is_none job.cancellation_requested_at)) [
          | inr z ↦
              let e : request_cancellation ip sync alone now fresh t k by reason s
                  ≡ (s, ok (some job, false)) =
                unfold request_cancellation in ground (arith, n, y, z) in
              subst P (sym e) (Ends-stays s)
          | inl z ↦
              let e : request_cancellation ip sync alone now fresh t k by reason s
                  ≡ request_update ip sync alone now fresh t by reason job s =
                unfold request_cancellation in ground (arith, n, y, z) in
              subst P (sym e) (request_update-Ended ip sync now fresh t by reason job s y)
        ]
      ]
    ]
