-- ===== src/Evaluation/Engine.antt =====
-- The aggregation of backend/app/evaluation/engine.py: from the results of single rules to the
-- status, the metrics and the results per policy. Evidence, recommendations and time stamps are left
-- out.
mod Groups
pub mod Verdicts
mod Examples
use network_operations_platf.Common.{
  ℕ, ◌+◌, Bool, true, false, String, Option, none, some, List, [], ◌∷◌, ◌++◌, any, all, keep, first,
  map, length, max, str_eq, ◌==◌, if◌then◌else◌,
}
use network_operations_platf.Evaluation.Scoring.{compliance_score}

pub data EvaluationStatus : Type 0 where
  compliant non_compliant waived not_applicable error : EvaluationStatus

abbrev pub evaluation_eq : EvaluationStatus → EvaluationStatus → Bool
evaluation_eq compliant compliant = true
evaluation_eq non_compliant non_compliant = true
evaluation_eq waived waived = true
evaluation_eq not_applicable not_applicable = true
evaluation_eq error error = true
evaluation_eq _ _ = false

pub record RuleEvaluationResult : Type 0 where
  pub rule_id : ℕ
  pub rule_key : String
  pub status : EvaluationStatus
  pub risk_score : ℕ

pub record Policy : Type 0 where
  pub id : ℕ
  pub name : String

pub record PolicyEvaluationResult : Type 0 where
  pub policy_id : ℕ
  pub policy_key : String
  pub version : String
  pub status : EvaluationStatus
  pub risk_score : ℕ
  pub compliance_score : ℕ
  pub rule_results : List RuleEvaluationResult

pub record EvaluationMetrics : Type 0 where
  pub total_rules : ℕ
  pub evaluated_rules : ℕ
  pub compliant_count : ℕ
  pub non_compliant_count : ℕ
  pub waived_count : ℕ
  pub not_applicable_count : ℕ
  pub errors : ℕ
  pub risk_score : ℕ
  pub compliance_score : ℕ

abbrev pub has_status : EvaluationStatus → RuleEvaluationResult → Bool
has_status s r = evaluation_eq r.status s

unfoldable pub status_of : List RuleEvaluationResult → EvaluationStatus
status_of [] = not_applicable
status_of (r ∷ rs) =
    if any (has_status non_compliant) (r ∷ rs)
    then non_compliant
    else if all (has_status waived) (r ∷ rs)
    then waived
    else compliant

pub metrics : ℕ → List RuleEvaluationResult → ℕ → ℕ → EvaluationMetrics
metrics total_rules rule_results risk_score score = record {
  total_rules = total_rules;
  evaluated_rules = length rule_results;
  compliant_count = length (keep (has_status compliant) rule_results);
  non_compliant_count = length (keep (has_status non_compliant) rule_results);
  waived_count = length (keep (has_status waived) rule_results);
  not_applicable_count = length (keep (has_status not_applicable) rule_results);
  errors = length (keep (has_status error) rule_results);
  risk_score = risk_score;
  compliance_score = score;
}

-- `max(scores, default=0)`.
abbrev pub highest : List ℕ → ℕ
highest [] = 0
highest (x ∷ xs) = max x (highest xs)

-- `policy_for_rule.get(rule_key)`.
pub policy_of : List (String × Policy) → String → Option Policy
policy_of policy_for_rule key = elim (first (λ x. str_eq x.0 key) policy_for_rule) [
  | none ↦ none
  | some x ↦ some x.1
]

-- The result joins the group of its policy, or starts a new group at the end.
join :
    Policy
    → RuleEvaluationResult
    → List (Policy × List RuleEvaluationResult)
    → List (Policy × List RuleEvaluationResult)
join p r [] = (p, r ∷ []) ∷ []
join p r ((q, results) ∷ groups) =
    let rest = join p r groups in
    if q.id == p.id then (p, results ++ r ∷ []) ∷ groups else (q, results) ∷ rest

pub groups_of :
    List (String × Policy)
    → List RuleEvaluationResult
    → List (Policy × List RuleEvaluationResult)
    → List (Policy × List RuleEvaluationResult)
unfolding policy_of join
groups_of policy_for_rule [] groups = groups
groups_of policy_for_rule (r ∷ rs) groups = elim (policy_of policy_for_rule r.rule_key) [
  | none ↦ groups_of policy_for_rule rs groups
  | some p ↦ groups_of policy_for_rule rs (join p r groups)
]

-- `version` gives the package version of a policy, or "unknown".
policy_result : (ℕ → String) → Policy × List RuleEvaluationResult → PolicyEvaluationResult
unfolding status_of
policy_result version (p, results) = record {
  policy_id = p.id;
  policy_key = p.name;
  version = version p.id;
  status = status_of results;
  risk_score = highest (map (λ r. r.risk_score) results);
  compliance_score = compliance_score (map (λ r. r.risk_score) results);
  rule_results = results;
}

pub policy_results :
    List (String × Policy) → (ℕ → String) → List RuleEvaluationResult → List PolicyEvaluationResult
unfolding groups_of policy_result
policy_results policy_for_rule version rule_results =
    map (policy_result version) (groups_of policy_for_rule rule_results [])
