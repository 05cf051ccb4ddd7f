-- ===== src/Persistence/Evidence.antt =====
-- `DiscoveryTransportAttemptRepository` and `DiscoveryEvidenceRepository` of backend/app/persistence/
-- discovery_repositories.py: the history of attempts, and the evidence that is only ever appended to.
-- Instants are numbers of microseconds.
pub mod Relations
mod Examples
use network_operations_platf.Common.{
  ℕ, ◌-◌, ◌/◌, Bool, true, false, String, Option, none, some, List, [], ◌∷◌, ◌++◌, any, keep, first,
  map, str_eq, opt_eq, not, ◌==◌, ◌&&◌, ◌||◌, leb, if◌then◌else◌,
}
use network_operations_platf.Persistence.Tables.{
  DiscoveryJobRecord, TargetRow, RunRow, TransportAttempt, EvidenceRow, Others, Session,
}
use network_operations_platf.Persistence.Jobs.{
  resource_not_found, evidence_mismatch, Result, ok, err, target_found, run_found,
}

abbrev pub on_others : (Others → Others) → Session → Session
on_others f s = record s { others = f s.others }

-- `DiscoveryTransportAttemptRepository.start`
unfoldable pub start_attempt : ℕ → ℕ → String → ℕ → String → ℕ → Option String → Session → Session
start_attempt now id tenant_id child_job_id transport attempt_order correlation_id = on_others (λ o.
    record o {
      attempts =
          o.attempts
          ++ record {
            id = id;
            tenant_id = tenant_id;
            child_job_id = child_job_id;
            transport = transport;
            attempt_order = attempt_order;
            result = "running";
            failure_code = none;
            failure_message = none;
            started_at = now;
            completed_at = none;
            duration_ms = none;
            correlation_id = correlation_id;
          }
            ∷ [];
    })

-- The columns that `finish` writes; a clock that has gone back gives a duration of 0.
unfoldable pub finished :
    ℕ → String → Option String → Option String → TransportAttempt → TransportAttempt
finished now result failure_code failure_message a = record a {
  result = result;
  failure_code = failure_code;
  failure_message = failure_message;
  completed_at = some now;
  duration_ms = some ((now - a.started_at) / 1000);
}

-- `finish`: an attempt whose row was rolled back is in no table any more.
unfoldable pub finish_attempt : ℕ → ℕ → String → Option String → Option String → Session → Session
unfolding finished
finish_attempt now id result failure_code failure_message = on_others (λ o. record o {
  attempts =
      map (λ a. if a.id == id then finished now result failure_code failure_message a else a)
        o.attempts;
})

-- What is stored as evidence: the identifiers say what it is traced to.
pub record DiscoveryEvidence : Type 0 where
  pub id : ℕ
  pub tenant_id : String
  pub job_id : ℕ
  pub target_id : ℕ
  pub run_id : ℕ
  pub evidence_type : String
  pub collector_name : String
  pub captured_at : ℕ
  pub payload : String
  pub content_hash : String
  pub command_or_probe : String
  pub sequence : ℕ

unfoldable pub job_found : String → Option DiscoveryJobRecord → Bool
job_found tenant_id none = false
job_found tenant_id (some j) = str_eq j.tenant_id tenant_id

-- The evidence is of the job's own target and run.
unfoldable pub is_related : DiscoveryEvidence → Option DiscoveryJobRecord → Bool
is_related e none = false
is_related e (some j) = j.target_id == e.target_id && j.run_id == e.run_id

unfoldable pub evidence_row : DiscoveryEvidence → String → EvidenceRow
evidence_row e payload_hash = record {
  id = e.id;
  tenant_id = e.tenant_id;
  job_id = e.job_id;
  target_id = e.target_id;
  run_id = e.run_id;
  evidence_type = e.evidence_type;
  source = e.collector_name;
  observed_at = e.captured_at;
  payload = e.payload;
  payload_hash = payload_hash;
  command_or_probe = e.command_or_probe;
  sequence = e.sequence;
}

-- `DiscoveryEvidenceRepository.create`; `hash` is the hash of a payload.
unfoldable pub create_evidence :
    (String → String) → DiscoveryEvidence → Session → Session × Result EvidenceRow
unfolding job_found target_found run_found is_related evidence_row
create_evidence hash e s =
    let job = first (λ j. j.id == e.job_id) s.working in
    let row = evidence_row e (hash e.payload) in
    if not (job_found e.tenant_id job)
    then (s, err resource_not_found)
    else if not (target_found e.tenant_id (first (λ t. t.id == e.target_id) s.others.targets))
    then (s, err resource_not_found)
    else if not (run_found e.tenant_id (first (λ r. r.id == e.run_id) s.others.runs))
    then (s, err resource_not_found)
    else if not (is_related e job)
    then (s, err evidence_mismatch)
    else if not (str_eq (hash e.payload) e.content_hash)
    then (s, err evidence_mismatch)
    else (on_others (λ o. record o { evidence = o.evidence ++ row ∷ [] }) s, ok row)

unfoldable pub get_evidence : String → ℕ → Session → Option EvidenceRow
get_evidence tenant_id evidence_id s =
    first (λ e. e.id == evidence_id && str_eq e.tenant_id tenant_id) s.others.evidence

-- A row in front of the first that comes after it.
by_sequence : EvidenceRow → List EvidenceRow → List EvidenceRow
by_sequence e [] = e ∷ []
by_sequence e (f ∷ fs) =
    let rest = by_sequence e fs in if leb e.sequence f.sequence then e ∷ f ∷ fs else f ∷ rest

sorted : List EvidenceRow → List EvidenceRow
unfolding by_sequence
sorted [] = []
sorted (e ∷ es) = by_sequence e (sorted es)

-- The evidence is of the job or of one of its children.
unfoldable pub is_evidence_of : String → ℕ → List DiscoveryJobRecord → EvidenceRow → Bool
is_evidence_of tenant_id job_id jobs e =
    any
      (λ j.
        j.id == e.job_id
        && (str_eq e.tenant_id tenant_id && (e.job_id == job_id || opt_eq j.parent_job_id job_id)))
      jobs

unfoldable pub list_for_job : String → ℕ → Session → List EvidenceRow
unfolding is_evidence_of sorted
list_for_job tenant_id job_id s =
    sorted (keep (is_evidence_of tenant_id job_id s.working) s.others.evidence)
