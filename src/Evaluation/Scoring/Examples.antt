-- ===== src/Evaluation/Scoring/Examples.antt =====
-- Scores of backend/app/evaluation/scoring.py at concrete inputs.
use network_operations_platf.Common.{◌≡◌, refl, [], ◌∷◌}
use network_operations_platf.Evaluation.Scoring.{
  severity_for_score, high, clamp, compliance_score, round_div,
}

severity_test : severity_for_score 85 ≡ (high, 85)
unfolding severity_for_score clamp
severity_test = refl

-- The average risk is 42.5, and 57.5 goes to the even neighbour.
compliance_score_test : compliance_score (85 ∷ 0 ∷ []) ≡ 58
unfolding compliance_score round_div
compliance_score_test = refl
