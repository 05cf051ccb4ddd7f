-- ===== src/Discovery/Fanout/Examples.antt =====
-- Tests of the reconciliation of a scope (backend/app/discovery/fanout.py), and runs that the theorems
-- about it apply to.
use network_operations_platf.Common.{
  ℕ, ◌+◌, ◌<◌, ◌≡◌, ◌↔◌, refl, false, String, none, some, List, [], ◌∷◌, length,
}
use network_operations_platf.Discovery.Contracts.{cancelled}
use network_operations_platf.Discovery.ResultStates.{discovered, was_cancelled, interrupted}
use network_operations_platf.Discovery.Scopes.{expand}
use network_operations_platf.Persistence.Tables.{DeviceResult, of_job, run_succeeded, get}
use network_operations_platf.Persistence.Jobs.{ok}
use network_operations_platf.Persistence.Samples.{
  waiting_job, lab_target, first_run, scanning, small_network, next_ids,
}
use network_operations_platf.Discovery.Fanout.{count_of, totals_of, finalized, reconcile_parent_job}
use network_operations_platf.Discovery.Fanout.Summary.{sum_of, open_count, finalized_lem}
use network_operations_platf.Discovery.Fanout.Coverage.{Covers}
use network_operations_platf.Discovery.Fanout.Coverage.Parents.{
  expected, reconcile_parent_job-Covers,
}

-- A child of the waiting job that never ran.
abbrev lab_result : ℕ → String → DeviceResult
lab_result child address = record {
  tenant_id = "acme";
  discovery_job_id = 11;
  child_job_id = child;
  address = address;
  hostname = none;
  vendor = none;
  platform = none;
  state = of_job cancelled;
  result_state = some was_cancelled;
  selected_transport = none;
  failure_code = some "CANCELLED";
  failure_message = some "Fan-out execution was cancelled before this address completed.";
  completed_at = some 120;
  correlation_id = some "lab";
}

abbrev lab_results : List DeviceResult
lab_results = lab_result 300 "10.0.0.1" ∷ lab_result 301 "10.0.0.2" ∷ []

reconcile_test :
    (reconcile_parent_job small_network 120 next_ids "acme" 11 false 4096
      (scanning (waiting_job ∷ []))).1
    ≡ ok lab_results
unfolding reconcile_parent_job expand
reconcile_test = refl

parent_test : get "acme" 11 (waiting_job ∷ []) ≡ some waiting_job
unfolding get
parent_test = refl

reconcile_parent_job-Covers_example :
    (xs : List String) × (expected small_network 4096 waiting_job lab_target
        (scanning (waiting_job ∷ []))
      ≡ some xs)
    × Covers "acme" 11 xs
        (reconcile_parent_job small_network 120 next_ids "acme" 11 false 4096
          (scanning (waiting_job ∷ []))).0.saved.results
    × Covers "acme" 11 xs lab_results
reconcile_parent_job-Covers_example =
    reconcile_parent_job-Covers small_network 120 next_ids "acme" 11 false 4096
      (scanning (waiting_job ∷ [])) waiting_job lab_target lab_results parent_test refl
      reconcile_test

finalized_lem_example :
    ((finalized 120 2 lab_results first_run).totals ≡ some (totals_of 2 lab_results))
    × (sum_of (totals_of 2 lab_results) + open_count lab_results ≡ length lab_results)
    × (((finalized 120 2 lab_results first_run).status ≡ run_succeeded) ↔ (
        (0 < count_of discovered lab_results)
        × (count_of was_cancelled lab_results ≡ 0)
        × (count_of interrupted lab_results ≡ 0)))
finalized_lem_example = finalized_lem 120 2 lab_results first_run
