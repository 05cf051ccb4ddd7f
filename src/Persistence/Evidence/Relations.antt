-- ===== src/Persistence/Evidence/Relations.antt =====
-- Evidence stays with its job, target, run and tenant (backend/app/persistence/
-- discovery_repositories.py, `DiscoveryEvidenceRepository`).
use network_operations_platf.Common.{
  ◌≡◌, refl, sym, subst, ap, append-nil, Bool, true, false, String, none, some, List, [], ◌∷◌, ◌++◌,
  all, first, str_eq, str_eq_refl, ◌==◌, ◌&&◌, arith, Bool-cases, Option-cases, inl, inr,
}
use network_operations_platf.Persistence.Tables.{DiscoveryJobRecord, EvidenceRow, Session}
use network_operations_platf.Persistence.Jobs.{ok, target_found, run_found}
use network_operations_platf.Persistence.Evidence.{
  DiscoveryEvidence, job_found, is_related, evidence_row, create_evidence,
}

-- The row of the job, with the tenant, target and run of the evidence, and the hash of its payload.
pub is_traced : (String → String) → List DiscoveryJobRecord → EvidenceRow → Bool
is_traced hash jobs e =
    elim (first (λ j. j.id == e.job_id) jobs) [
      | none ↦ false
      | some j ↦
          str_eq j.tenant_id e.tenant_id && (j.target_id == e.target_id && j.run_id == e.run_id)
    ]
    && str_eq (hash e.payload) e.payload_hash

all-append :
    (p : EvidenceRow → Bool) (xs : List EvidenceRow) (y : EvidenceRow)
    → all p xs ≡ true
    → p y ≡ true
    → all p (xs ++ y ∷ []) ≡ true
all-append p [] y a b = ground (arith, b)
all-append p (x ∷ xs) y a b =
    let rest : all p xs ≡ true = ground (arith, a) in ground (arith, a, all-append p xs y rest b)

-- The checks that are made before the row is added.
abbrev is_accepted : (String → String) → DiscoveryEvidence → Session → Bool
is_accepted hash e s =
    job_found e.tenant_id (first (λ j. j.id == e.job_id) s.working)
    && (target_found e.tenant_id (first (λ t. t.id == e.target_id) s.others.targets)
        && (run_found e.tenant_id (first (λ r. r.id == e.run_id) s.others.runs)
            && (is_related e (first (λ j. j.id == e.job_id) s.working)
                && str_eq (hash e.payload) e.content_hash)))

accepted-is_traced :
    (hash : String → String) (e : DiscoveryEvidence) (s : Session)
    → is_accepted hash e s ≡ true
    → is_traced hash s.working (evidence_row e (hash e.payload)) ≡ true
unfolding is_traced evidence_row job_found is_related
accepted-is_traced hash e s h = elim (Option-cases (first (λ j. j.id == e.job_id) s.working)) [
  | inl n ↦ ground (arith, n, h)
  | inr (j, n) ↦ ground (arith, n, h, str_eq_refl (hash e.payload))
]

refused_lem :
    (hash : String → String) (e : DiscoveryEvidence) (s : Session)
    → is_accepted hash e s ≡ false
    → (create_evidence hash e s).0 ≡ s
unfolding create_evidence
refused_lem hash e s h = ground (arith, h)

accepted_lem :
    (hash : String → String) (e : DiscoveryEvidence) (s : Session)
    → is_accepted hash e s ≡ true
    → (create_evidence hash e s) ≡ (
      record s {
        others = record s.others {
          evidence = s.others.evidence ++ evidence_row e (hash e.payload) ∷ [];
        };
      },
      ok (evidence_row e (hash e.payload)),
    )
unfolding create_evidence
accepted_lem hash e s h = ground (arith, h)

-- If every stored piece of evidence has the tenant, the target and the run of its job and the hash
-- of its payload, this is so after another one is offered, whether it is stored or refused; and what
-- was stored before is still stored, in its order.
pub create_evidence-is_traced :
    (hash : String → String) (e : DiscoveryEvidence) (s : Session)
    → all (is_traced hash s.working) s.others.evidence ≡ true
    → let s' = (create_evidence hash e s).0 in
      (all (is_traced hash s'.working) s'.others.evidence ≡ true)
      × ((added : List EvidenceRow) × (s'.others.evidence ≡ s.others.evidence ++ added))
create_evidence-is_traced hash e s before =
    let P : Session → Type 0 = λ q.
      (all (is_traced hash q.working) q.others.evidence ≡ true)
      × ((added : List EvidenceRow) × (q.others.evidence ≡ s.others.evidence ++ added)) in
    elim (Bool-cases (is_accepted hash e s)) [
      | inl y ↦
          let row = evidence_row e (hash e.payload) in
          subst P (sym (ap (λ q. q.0) (accepted_lem hash e s y))) (
            all-append (is_traced hash s.working) s.others.evidence row before
                (accepted-is_traced hash e s y),
            (row ∷ [], refl),
          )
      | inr n ↦
          subst P (sym (refused_lem hash e s n)) (before, ([], sym (append-nil s.others.evidence)))
    ]
