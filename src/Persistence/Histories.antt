-- ===== src/Persistence/Histories.antt =====
-- Transactions on the discovery jobs table, one after another, and the row machine that they
-- refine (backend/app/persistence/discovery_repositories.py). Each method runs in its own
-- transaction, committed if it succeeds and rolled back if it raises, as its callers do
-- (backend/app/discovery/worker.py).
pub mod Refinement
pub mod Calls
pub mod Frozen
pub mod Soundness
pub mod Uniqueness
mod Examples
use network_operations_platf.Common.{
  ℕ, ◌+◌, ◌≡◌, ◌≢◌, Bool, true, false, String, Option, none, some, List, [], ◌∷◌, ◌++◌, any,
  is_none, ◌==◌, ◌||◌, if◌then◌else◌,
}
use network_operations_platf.Discovery.Contracts.{
  DiscoveryJobStatus, queued, running, transition_job,
}
use network_operations_platf.Discovery.Scopes.{IpAddress}
use network_operations_platf.Discovery.Fanout.{Fresh, reconcile_parent_job}
use network_operations_platf.Persistence.Trees.{request_cancellation}
use network_operations_platf.Persistence.Trees.Stale.{resolve_stale_cancellation}
use network_operations_platf.Persistence.Trees.Owned.{recover_expired_owned_job, abandon_owned_job}
use network_operations_platf.Persistence.Tables.{
  DiscoveryJobRecord, Session, alone, rollback, commit, update_where, get,
}
use network_operations_platf.Persistence.Steps.{close}
use network_operations_platf.Persistence.Jobs.{
  is_active_for, new_record, Result, ok, err, NewJob, Change, create, claim, claimed, renew_lease,
  renewed, transition, changed, finalise_cancellation, record_selection, selected,
  mark_failed_after_rollback,
}

-- The methods that write one job.
pub data Op : Type 0 where
  creates : Bool → ℕ → NewJob → Op
  claims : ℕ → String → ℕ → ℕ → ℕ → Op
  renews : ℕ → String → ℕ → ℕ → ℕ → Op
  transitions : ℕ → String → ℕ → Change → Op
  finalises : ℕ → String → ℕ → Option ℕ → Op
  selects : ℕ → String → ℕ → Option String → Option String → Op
  fails : ℕ → String → ℕ → String → String → Option ℕ → Op

pub perform : Op → Session → Session
unfolding close commit rollback
perform (creates conflict now n) s =
    close (create (conflict || any (λ r. r.id == n.id) s.working) now n s)
perform (claims now t k owner lease) s = close (claim alone now t k owner lease s)
perform (renews now t k owner lease) s = commit (renew_lease now t k owner lease s).0
perform (transitions now t k c) s = close (transition alone now t k c s)
perform (finalises now t k owner) s = close (finalise_cancellation alone now t k owner s)
perform (selects now t k transport platform) s =
    close (record_selection now t k transport platform s)
perform (fails now t k code message owner) s =
    close (mark_failed_after_rollback alone now t k code message owner s)

-- All of them, with the methods that end jobs from outside.
pub data Call : Type 0 where
  does : Op → Call
  cancels : ℕ → (ℕ → Fresh) → String → ℕ → ℕ → String → Call
  resolves : ℕ → (ℕ → Fresh) → String → ℕ → Call
  recovers : ℕ → (ℕ → Fresh) → String → ℕ → ℕ → Call
  abandons : ℕ → (ℕ → Fresh) → String → ℕ → ℕ → String → Call
  reconciles : ℕ → (ℕ → Fresh) → String → ℕ → Bool → ℕ → Call

module _ (ip : IpAddress) (synchronised : Bool) where
  pub serve : Call → Session → Session
  unfolding perform close request_cancellation resolve_stale_cancellation recover_expired_owned_job
      abandon_owned_job reconcile_parent_job
  serve (does op) s = perform op s
  serve (cancels now fresh t k by reason) s =
      close (request_cancellation ip synchronised alone now fresh t k by reason s)
  serve (resolves now fresh t k) s = close (resolve_stale_cancellation ip alone now fresh t k s)
  serve (recovers now fresh t k stale_before) s =
      close (recover_expired_owned_job ip now fresh t k stale_before s)
  serve (abandons now fresh t k owner message) s =
      close (abandon_owned_job ip now fresh t k owner message s)
  serve (reconciles now fresh t k was_interrupted max_targets) s =
      close (reconcile_parent_job ip now fresh t k was_interrupted max_targets s)

  pub history : List Call → Session → Session
  unfolding serve
  history [] s = s
  history (call ∷ calls) s = history calls (serve call s)
