-- ===== src/Persistence/Histories/Calls.antt =====
-- Every transaction of the discovery service on the jobs table, with all that it does to child jobs,
-- is a sequence of steps of the row machine (backend/app/persistence/discovery_repositories.py,
-- backend/app/discovery/fanout.py).
use network_operations_platf.Common.{refl, List, [], ◌∷◌, Bool}
use network_operations_platf.Discovery.Scopes.{IpAddress}
use network_operations_platf.Discovery.Fanout.{reconcile_parent_job}
use network_operations_platf.Discovery.Fanout.Moves.{reconcile_parent_job-Ended}
use network_operations_platf.Persistence.Tables.{DiscoveryJobRecord, Session, alone}
use network_operations_platf.Persistence.Jobs.{Result, ok, err}
use network_operations_platf.Persistence.Steps.{
  close, IsClean, Effect, Effects, stays, one, Ended, Effects-preserve,
}
use network_operations_platf.Persistence.Steps.Follows.{
  Follows, clean-Follows, Ends-Follows, commit-Follows, rollback-Follows,
}
use network_operations_platf.Persistence.Trees.{request_cancellation}
use network_operations_platf.Persistence.Trees.Moves.{request_cancellation-Ended}
use network_operations_platf.Persistence.Trees.Stale.{resolve_stale_cancellation}
use network_operations_platf.Persistence.Trees.Stale.Moves.{resolve_stale_cancellation-Ended}
use network_operations_platf.Persistence.Trees.Owned.{recover_expired_owned_job, abandon_owned_job}
use network_operations_platf.Persistence.Trees.Owned.Moves.{
  recover_expired_owned_job-Ended, abandon_owned_job-Ended,
}
use network_operations_platf.Persistence.Histories.{
  Call, does, cancels, resolves, recovers, abandons, reconciles, serve, history,
}
use network_operations_platf.Persistence.Histories.Refinement.{perform-Effect}

close-Effects :
    {A : Type 0} (s : Session) (q : Session × Result A)
    → IsClean s
    → Ended s q
    → Effects s.committed (close q).committed × IsClean (close q)
unfolding close
close-Effects {A} s (next, r) clean h =
    let start = clean-Follows s.committed s stays clean.0 in
    close_all next r (Ends-Follows s.committed s next start h)
  where
    close_all :
        (next : Session) (r : Result A)
        → Follows s.committed next
        → Effects s.committed (close (next, r)).committed × IsClean (close (next, r))
    close_all next (ok a) f = ((commit-Follows s.committed next f).0, (refl, refl))
    close_all next (err e) f = ((rollback-Follows s.committed next f).0, (refl, refl))

-- Every call, from any table with nothing pending, commits a sequence of steps of the row machine:
-- row steps on guarded rows and new rows for targets that have no active job; and it leaves nothing
-- pending. This covers the calls that end a whole tree of jobs or make the jobs of a scope.
pub serve-Effects :
    (ip : IpAddress) (sync : Bool) (call : Call) (s : Session)
    → IsClean s
    → Effects s.committed (serve ip sync call s).committed × IsClean (serve ip sync call s)
unfolding serve
serve-Effects ip sync (does op) s clean =
    let (effect, next) = perform-Effect op s clean in (one effect, next)
serve-Effects ip sync (cancels now fresh t k by reason) s clean =
    close-Effects s (request_cancellation ip sync alone now fresh t k by reason s) clean
      (request_cancellation-Ended ip sync now fresh t k by reason s)
serve-Effects ip sync (resolves now fresh t k) s clean =
    close-Effects s (resolve_stale_cancellation ip alone now fresh t k s) clean
      (resolve_stale_cancellation-Ended ip now fresh t k s)
serve-Effects ip sync (recovers now fresh t k stale_before) s clean =
    close-Effects s (recover_expired_owned_job ip now fresh t k stale_before s) clean
      (recover_expired_owned_job-Ended ip fresh t now k stale_before s)
serve-Effects ip sync (abandons now fresh t k owner message) s clean =
    close-Effects s (abandon_owned_job ip now fresh t k owner message s) clean
      (abandon_owned_job-Ended ip fresh t now k owner message s)
serve-Effects ip sync (reconciles now fresh t k was_interrupted max_targets) s clean =
    close-Effects s (reconcile_parent_job ip now fresh t k was_interrupted max_targets s) clean
      (reconcile_parent_job-Ended ip now fresh t k was_interrupted max_targets s)

-- What every step of the row machine preserves holds of the committed rows after any calls.
pub history-preserve :
    (ip : IpAddress) (sync : Bool) (P : List DiscoveryJobRecord → Type 0)
    → ((rows rows' : List DiscoveryJobRecord) → Effect rows rows' → P rows → P rows')
    → (calls : List Call) (s : Session) → IsClean s
    → P s.committed
    → P (history ip sync calls s).committed
unfolding history
history-preserve ip sync P step [] s clean h = h
history-preserve ip sync P step (call ∷ calls) s clean h =
    let (effects, next) = serve-Effects ip sync call s clean in
    history-preserve ip sync P step calls (serve ip sync call s) next
      (Effects-preserve P step effects h)
