-- ===== src/Discovery/Fanout.antt =====
-- `DiscoveryFanoutService` of backend/app/discovery/fanout.py: child jobs of a scope, and the
-- reconciliation of a parent job with what became of them. Fresh identifiers, and what other sessions
-- insert while a child's target is inserted, are arguments.
mod Children
pub mod Moves
pub mod Summary
pub mod Coverage
mod Examples
unfoldable pub use Children.*
use network_operations_platf.Common.{
  ℕ, zero, suc, ◌+◌, ltb, Bool, true, false, String, Option, none, some, List, [], ◌∷◌, ◌++◌, any,
  keep, first, map, length, str_eq, concat, is_none, not, ◌==◌, ◌&&◌, ◌||◌, if◌then◌else◌,
}
use network_operations_platf.Discovery.Contracts.{
  DiscoveryJobStatus, queued, running, failed, cancelled, is_terminal, status_eq,
  DiscoveryFailureCode, value,
}
use network_operations_platf.Discovery.ResultStates.{
  DiscoveryResultState, unreachable, reachable_no_management, auth_rejected, partial_discovery,
  discovered, unverified, was_cancelled, interrupted,
}
use network_operations_platf.Discovery.Scopes.{IpAddress, DiscoveryScope, expand}
use network_operations_platf.Persistence.Tables.{
  DiscoveryJobRecord, TargetRow, TargetSettings, single_device, RunRow, RunTotals,
  DiscoveryRunStatus, started, run_succeeded, run_failed, DeviceResult, DeviceState, of_job,
  discovering, Others, Session, commit, update_where, is_job, get,
}
use network_operations_platf.Persistence.Jobs.{
  DiscoveryPersistenceError, scope_error, integrity_error, Result, ok, err, NewJob, Ending, ended,
  create, and_then,
}

-- What becomes of an address that was not finished.
pub outcome : Bool → ℕ → Ending
outcome true now = record {
  state = failed;
  failure_code = "DISCOVERY_FAILED";
  failure_message = "Fan-out execution was interrupted before this address completed.";
  now = now;
}
outcome false now = record {
  state = cancelled;
  failure_code = "CANCELLED";
  failure_message = "Fan-out execution was cancelled before this address completed.";
  now = now;
}

-- The child job ends unless it has ended.
pub settle_child : Ending → String → ℕ → Session → Session
unfolding get update_where ended
settle_child e tenant_id child_id s = elim (get tenant_id child_id s.working) [
  | none ↦ s
  | some child ↦
      if is_terminal child.state
      then s
      else record s { working = update_where (is_job tenant_id child_id) (ended e) s.working }
]

is_open : DeviceState → Bool
is_open discovering = true
is_open (of_job s) = status_eq s queued || status_eq s running

-- A result without a verdict, or whose state is still open.
pub is_unsettled : DeviceResult → Bool
unfolding is_open
is_unsettled r = is_none r.result_state || is_open r.state

pub settled : Bool → Ending → DeviceResult → DeviceResult
settled was_interrupted e r = record r {
  state = of_job e.state;
  result_state = some (if was_interrupted then interrupted else was_cancelled);
  failure_code = some e.failure_code;
  failure_message = some e.failure_message;
  completed_at = some e.now;
}

settle_row : Bool → Ending → ℕ → DeviceResult → DeviceResult
unfolding is_unsettled settled
settle_row was_interrupted e child_id r =
    if r.child_job_id == child_id && is_unsettled r then settled was_interrupted e r else r

pub settle_result : Bool → Ending → ℕ → List DeviceResult → List DeviceResult
unfolding settle_row
settle_result was_interrupted e child_id = map (settle_row was_interrupted e child_id)

belongs : String → ℕ → DeviceResult → Bool
belongs tenant_id parent_id r = str_eq r.tenant_id tenant_id && r.discovery_job_id == parent_id

-- `{result.address: result for result in results}.get(address)`: the last one counts.
pub by_address : String → List DeviceResult → Option DeviceResult
by_address address [] = none
by_address address (r ∷ rs) = elim (by_address address rs) [
  | some found ↦ some found
  | none ↦ if str_eq r.address address then some r else none
]

settle : Bool → Ending → String → ℕ → Session → Session
unfolding settle_child settle_result
settle was_interrupted e tenant_id child_id s =
    with_others (λ o. record o { results = settle_result was_interrupted e child_id o.results })
      (settle_child e tenant_id child_id s)

-- The body of the loop over the expected addresses; `known` are the results that were read before it.
reconcile_address :
    ℕ
    → Fresh
    → String
    → DiscoveryJobRecord
    → TargetRow
    → Bool
    → List DeviceResult
    → String
    → Session
    → Session × Result Unit
unfolding by_address create_child settle outcome and_then
reconcile_address now fresh tenant_id parent target was_interrupted known address s =
    elim (by_address address known) [
      | some r ↦
          (settle was_interrupted (outcome was_interrupted now) tenant_id r.child_job_id s, ok tt)
      | none ↦ and_then (create_child now fresh tenant_id parent target address s) (λ r made. (
        settle was_interrupted (outcome was_interrupted now) tenant_id r.child_job_id made,
        ok tt,
      ))
    ]

pub reconcile_addresses :
    ℕ
    → (ℕ → Fresh)
    → String
    → DiscoveryJobRecord
    → TargetRow
    → Bool
    → List DeviceResult
    → List String
    → ℕ
    → Session
    → Session × Result Unit
unfolding reconcile_address and_then
reconcile_addresses now fresh tenant_id parent target was_interrupted known [] n s = (s, ok tt)
reconcile_addresses now fresh tenant_id parent target was_interrupted known (address ∷ rest) n s =
    and_then
      (reconcile_address now (fresh n) tenant_id parent target was_interrupted known address s)
      (λ done next.
        reconcile_addresses now fresh tenant_id parent target was_interrupted known rest (suc n)
          next)

abbrev pub result_state_eq : DiscoveryResultState → DiscoveryResultState → Bool
result_state_eq unreachable unreachable = true
result_state_eq reachable_no_management reachable_no_management = true
result_state_eq auth_rejected auth_rejected = true
result_state_eq partial_discovery partial_discovery = true
result_state_eq discovered discovered = true
result_state_eq unverified unverified = true
result_state_eq was_cancelled was_cancelled = true
result_state_eq interrupted interrupted = true
result_state_eq _ _ = false

abbrev pub has_verdict : DiscoveryResultState → DeviceResult → Bool
has_verdict x r = elim r.result_state [ none ↦ false | some y ↦ result_state_eq y x ]

-- How many of the results have a verdict.
pub count_of : DiscoveryResultState → List DeviceResult → ℕ
count_of x rs = length (keep (λ r. has_verdict x r) rs)

pub totals_of : ℕ → List DeviceResult → RunTotals
unfolding count_of
totals_of expected_count rs = record {
  total_scanned = expected_count;
  total_discovered = count_of discovered rs;
  total_unreachable = count_of unreachable rs;
  total_reachable_no_management = count_of reachable_no_management rs;
  total_authentication_failed = count_of auth_rejected rs;
  total_partial_discovery = count_of partial_discovery rs;
  total_unverified = count_of unverified rs;
  total_cancelled = count_of was_cancelled rs;
  total_interrupted = count_of interrupted rs;
}

pub status_of_run : RunTotals → DiscoveryRunStatus
status_of_run t =
    if ltb 0 t.total_discovered && (t.total_cancelled == 0 && t.total_interrupted == 0)
    then run_succeeded
    else run_failed

pub finalized : ℕ → ℕ → List DeviceResult → RunRow → RunRow
unfolding totals_of status_of_run
finalized now expected_count rs run = record run {
  totals = some (totals_of expected_count rs);
  status = status_of_run (totals_of expected_count rs);
  finished_at = some now;
}

-- An UPDATE of the run with the identifier.
on_run : ℕ → (RunRow → RunRow) → Session → Session
on_run id f = with_others (λ o. record o { runs = map (λ r. if r.id == id then f r else r) o.runs })

pub run_addresses : Option RunRow → List String
run_addresses none = []
run_addresses (some run) = elim run.expected_addresses [ none ↦ [] | some xs ↦ xs ]

pub scope_of : TargetRow → DiscoveryScope
scope_of t = record {
  scope_type = t.scope_type;
  address = t.address;
  scope_end = t.scope_end;
  scope_cidr = t.scope_cidr;
}

-- The part of `reconcile_parent_job` from the expected addresses on.
reconcile_expected :
    ℕ
    → (ℕ → Fresh)
    → String
    → DiscoveryJobRecord
    → TargetRow
    → Bool
    → List String
    → Session
    → Session × Result (List DeviceResult)
unfolding reconcile_addresses belongs on_run finalized commit and_then
reconcile_expected now fresh tenant_id parent target was_interrupted [] s = (s, ok [])
reconcile_expected now fresh tenant_id parent target was_interrupted (a ∷ rest) s =
    let known = keep (belongs tenant_id parent.id) s.others.results in
    and_then
      (reconcile_addresses now fresh tenant_id parent target was_interrupted known (a ∷ rest) 0 s)
      (λ done next.
        let results = keep (belongs tenant_id parent.id) next.others.results in
        (
          commit (on_run parent.run_id (finalized now (length (a ∷ rest)) results) next),
          ok results,
        ))

module _ (ip : IpAddress) where
  -- `parent` and its target have been found.
  reconcile_target :
      ℕ
      → (ℕ → Fresh)
      → String
      → DiscoveryJobRecord
      → Bool
      → ℕ
      → TargetRow
      → Session
      → Session × Result (List DeviceResult)
  unfolding run_addresses scope_of on_run reconcile_expected
  reconcile_target now fresh tenant_id parent was_interrupted max_targets target s =
      elim (run_addresses (first (λ r. r.id == parent.run_id) s.others.runs)) [
        | a ∷ rest ↦
            reconcile_expected now fresh tenant_id parent target was_interrupted (a ∷ rest) s
        | [] ↦ elim (expand ip max_targets (scope_of target)) [
          | none ↦ (s, err scope_error)
          | some found ↦
              reconcile_expected now fresh tenant_id parent target was_interrupted found
                (on_run parent.run_id (λ r. record r { expected_addresses = some found }) s)
        ]
      ]

  unfoldable pub reconcile_parent_job :
      ℕ → (ℕ → Fresh) → String → ℕ → Bool → ℕ → Session → Session × Result (List DeviceResult)
  unfolding reconcile_target get
  reconcile_parent_job now fresh tenant_id parent_job_id was_interrupted max_targets s =
      elim (get tenant_id parent_job_id s.working) [
        | none ↦ (s, ok [])
        | some parent ↦ elim (first (λ t. t.id == parent.target_id) s.others.targets) [
          | none ↦ (s, ok [])
          | some target ↦
              reconcile_target now fresh tenant_id parent was_interrupted max_targets target s
        ]
      ]
