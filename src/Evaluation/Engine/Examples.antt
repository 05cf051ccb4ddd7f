-- ===== src/Evaluation/Engine/Examples.antt =====
-- Evaluations of backend/app/evaluation/engine.py at concrete inputs.
use network_operations_platf.Common.{ℕ, ◌==◌, ◌≡◌, String, List, [], ◌∷◌, any, All}
use network_operations_platf.Evaluation.Engine.{
  RuleEvaluationResult, Policy, non_compliant, error, policy_results,
}
use network_operations_platf.Evaluation.Engine.Groups.{is_of}
use network_operations_platf.Evaluation.Engine.Verdicts.{
  OnePerPolicy, IsSummary, policy_results_lem,
}

abbrev ntp : RuleEvaluationResult
ntp = record { rule_id = 1; rule_key = "ntp"; status = error; risk_score = 0 }

abbrev dns : RuleEvaluationResult
dns = record { rule_id = 2; rule_key = "dns"; status = non_compliant; risk_score = 80 }

abbrev baseline : List (String × Policy)
baseline = ("ntp", record { id = 7; name = "baseline" }) ∷ []

policy_results_lem_example :
    OnePerPolicy (policy_results baseline (λ n. "unknown") (ntp ∷ dns ∷ ntp ∷ []))
    × ((id : ℕ)
        → any
            (λ p. p.policy_id == id)
            (policy_results baseline (λ n. "unknown") (ntp ∷ dns ∷ ntp ∷ []))
          ≡ any (is_of baseline id) (ntp ∷ dns ∷ ntp ∷ []))
    × All
        (IsSummary baseline (ntp ∷ dns ∷ ntp ∷ []))
        (policy_results baseline (λ n. "unknown") (ntp ∷ dns ∷ ntp ∷ []))
policy_results_lem_example = policy_results_lem baseline (λ n. "unknown") (ntp ∷ dns ∷ ntp ∷ [])
