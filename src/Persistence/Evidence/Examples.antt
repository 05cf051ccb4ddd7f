-- ===== src/Persistence/Evidence/Examples.antt =====
-- A piece of evidence, and the theorem about it (backend/app/persistence/discovery_repositories.py).
use network_operations_platf.Common.{◌≡◌, refl, true, List, [], ◌∷◌, ◌++◌, all}
use network_operations_platf.Persistence.Tables.{EvidenceRow}
use network_operations_platf.Persistence.Samples.{taken_job, holding}
use network_operations_platf.Persistence.Evidence.{
  DiscoveryEvidence, create_evidence, list_for_job, evidence_row,
}
use network_operations_platf.Persistence.Evidence.Relations.{is_traced, create_evidence-is_traced}

abbrev show_version : DiscoveryEvidence
show_version = record {
  id = 81;
  tenant_id = "acme";
  job_id = 11;
  target_id = 7;
  run_id = 3;
  evidence_type = "raw_discovery";
  collector_name = "cisco";
  captured_at = 120;
  payload = "IOS 15";
  content_hash = "IOS 15";
  command_or_probe = "collector.collect";
  sequence = 0;
}

stored :
    list_for_job "acme" 11 (create_evidence (λ t. t) show_version (holding (taken_job ∷ []))).0
    ≡ evidence_row show_version "IOS 15" ∷ []
unfolding list_for_job create_evidence
stored = refl

-- Evidence for another target is refused.
foreign :
    list_for_job "acme" 11
      (create_evidence
        (λ t. t)
        (record show_version { target_id = 8 })
        (holding (taken_job ∷ []))).0
    ≡ []
unfolding list_for_job create_evidence
foreign = refl

create_evidence-is_traced_example :
    let s' = (create_evidence (λ t. t) show_version (holding (taken_job ∷ []))).0 in
    (all (is_traced (λ t. t) s'.working) s'.others.evidence ≡ true)
    × ((added : List EvidenceRow) × (s'.others.evidence ≡ [] ++ added))
create_evidence-is_traced_example =
    create_evidence-is_traced (λ t. t) show_version (holding (taken_job ∷ [])) refl
