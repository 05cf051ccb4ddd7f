-- ===== src/Decision/Engine/Examples.antt =====
-- Decisions of backend/app/decision/engine.py at concrete inputs.
use network_operations_platf.Common.{◌≡◌, refl, String, List, [], ◌∷◌}
use network_operations_platf.Evaluation.Engine.{
  RuleEvaluationResult, Policy, PolicyEvaluationResult, error, compliant, policy_results,
}
use network_operations_platf.Decision.Engine.{warning, determine_status, decide}
use network_operations_platf.Decision.Engine.Verdicts.{AllExplained, decide_lem}

abbrev ntp : RuleEvaluationResult
ntp = record { rule_id = 1; rule_key = "ntp"; status = error; risk_score = 0 }

abbrev baseline : List (String × Policy)
baseline = ("ntp", record { id = 7; name = "baseline" }) ∷ []

abbrev judged : PolicyEvaluationResult
judged = record {
  policy_id = 7;
  policy_key = "baseline";
  version = "1";
  status = compliant;
  risk_score = 0;
  compliance_score = 100;
  rule_results = ntp ∷ [];
}

warning_test : determine_status judged ≡ warning
unfolding determine_status
warning_test = refl

decide_lem_example :
    AllExplained
      (policy_results baseline (λ n. "1") (ntp ∷ []))
      (decide (policy_results baseline (λ n. "1") (ntp ∷ [])))
decide_lem_example = decide_lem baseline (λ n. "1") (ntp ∷ [])
