-- ===== src/Discovery/Fanout/Summary.antt =====
-- The summary of a parent run (`_finalize_parent_run` of backend/app/discovery/fanout.py).
use network_operations_platf.Common.{
  ℕ, ◌+◌, ◌<◌, ◌≡◌, ◌↔◌, refl, true, false, some, List, [], ◌∷◌, keep, length, is_none, arith,
}
use network_operations_platf.Discovery.ResultStates.{
  DiscoveryResultState, unreachable, reachable_no_management, auth_rejected, partial_discovery,
  discovered, unverified, was_cancelled, interrupted,
}
use network_operations_platf.Persistence.Tables.{RunRow, RunTotals, DeviceResult, run_succeeded}
use network_operations_platf.Discovery.Fanout.{
  has_verdict, count_of, totals_of, status_of_run, finalized,
}

-- The sum of the totals of the result states.
abbrev pub sum_of : RunTotals → ℕ
sum_of t =
    t.total_discovered + t.total_unreachable + t.total_reachable_no_management
    + t.total_authentication_failed + t.total_partial_discovery + t.total_unverified
    + t.total_cancelled + t.total_interrupted

-- How many results have no verdict.
abbrev pub open_count : List DeviceResult → ℕ
open_count rs = length (keep (λ r. is_none r.result_state) rs)

-- 1 for the verdict of a result.
abbrev one_if : DiscoveryResultState → DeviceResult → ℕ
one_if x r = elim (has_verdict x r) [ true ↦ 1 | false ↦ 0 ]

count_of-cons :
    (x : DiscoveryResultState) (r : DeviceResult) (rs : List DeviceResult)
    → count_of x (r ∷ rs) ≡ one_if x r + count_of x rs
unfolding count_of
count_of-cons x r rs = ground arith

-- A result has one verdict or none.
one_verdict :
    (r : DeviceResult)
    → one_if discovered r
        + one_if unreachable r
        + one_if reachable_no_management r
        + one_if auth_rejected r
        + one_if partial_discovery r
        + one_if unverified r
        + one_if was_cancelled r
        + one_if interrupted r
        + (elim (is_none r.result_state) [ true ↦ 1 | false ↦ 0 ])
      ≡ 1
one_verdict r = ground arith

totals_add_up :
    (n : ℕ) (rs : List DeviceResult) → sum_of (totals_of n rs) + open_count rs ≡ length rs
unfolding totals_of
totals_add_up n [] = unfold count_of in refl
totals_add_up n (r ∷ rs) =
    let more : (x : DiscoveryResultState) → count_of x (r ∷ rs) ≡ one_if x r + count_of x rs =
      λ x. count_of-cons x r rs in
    let opened : open_count (r ∷ rs)
        ≡ (elim (is_none r.result_state) [ true ↦ 1 | false ↦ 0 ]) + open_count rs =
      ground arith in
    let rest = totals_add_up n rs in
    omega (
      arith,
      more discovered,
      more unreachable,
      more reachable_no_management,
      more auth_rejected,
      more partial_discovery,
      more unverified,
      more was_cancelled,
      more interrupted,
      opened,
      one_verdict r,
      rest,
    )

status_of_run_iff :
    (t : RunTotals)
    → (status_of_run t ≡ run_succeeded)
      ↔ ((0 < t.total_discovered) × (t.total_cancelled ≡ 0) × (t.total_interrupted ≡ 0))
unfolding status_of_run
status_of_run_iff t = ground arith

-- The summary of a run counts every result that has a verdict exactly once; and the run has succeeded
-- exactly if some device was discovered and none was cancelled or interrupted.
pub finalized_lem :
    (now n : ℕ) (rs : List DeviceResult) (run : RunRow)
    → ((finalized now n rs run).totals ≡ some (totals_of n rs))
      × (sum_of (totals_of n rs) + open_count rs ≡ length rs)
      × (((finalized now n rs run).status ≡ run_succeeded) ↔ (
          (0 < count_of discovered rs)
          × (count_of was_cancelled rs ≡ 0)
          × (count_of interrupted rs ≡ 0)))
unfolding finalized totals_of
finalized_lem now n rs run = (refl, totals_add_up n rs, status_of_run_iff (totals_of n rs))
