-- ===== src/Evaluation/Scoring.antt =====
-- backend/app/evaluation/scoring.py: severities and compliance scores. Risk scores are numbers; the
-- average is a fraction, and `round` takes the nearest integer, the even one of two.
mod Examples
use network_operations_platf.Common.{
  ℕ, ◌+◌, ◌-◌, ◌*◌, ◌/◌, ◌%◌, ◌≤◌, ◌<◌, ◌≡◌, refl, Bool, true, false, List, [], ◌∷◌, length, ltb,
  leb, ◌==◌, min, max, if◌then◌else◌, arith, All, zero, suc,
}

pub data SeverityLevel : Type 0 where
  info low medium high critical : SeverityLevel

pub clamp : ℕ → ℕ
clamp value = max 0 (min 100 value)

-- `severity_for_score`, its level and its score.
pub severity_for_score : ℕ → SeverityLevel × ℕ
unfolding clamp
severity_for_score score =
    if leb 90 (clamp score)
    then (critical, clamp score)
    else if leb 70 (clamp score)
    then (high, clamp score)
    else if leb 40 (clamp score)
    then (medium, clamp score)
    else if ltb 0 (clamp score)
    then (low, clamp score)
    else (info, 0)

abbrev pub sum : List ℕ → ℕ
sum [] = 0
sum (x ∷ xs) = x + sum xs

-- `round(a / n)` for a positive `n`.
pub round_div : ℕ → ℕ → ℕ
round_div a n =
    let q = a / n in
    let r = a % n in
    if ltb (2 * r) n then q else if ltb n (2 * r) then suc q else if (q % 2) == 0 then q else suc q

-- `ComplianceScoreCalculator.score`: 100 less the average risk, which is at most 100.
pub compliance_score : List ℕ → ℕ
unfolding round_div
compliance_score [] = 100
compliance_score (x ∷ xs) =
    let n = length (x ∷ xs) in max 0 (min 100 (round_div (n * 100 - sum (x ∷ xs)) n))

abbrev pub rank : SeverityLevel → ℕ
rank info = 0
rank low = 1
rank medium = 2
rank high = 3
rank critical = 4

-- A higher risk never has a lower severity, and the severity's score is the clamped risk.
severity_grows :
    (a b : ℕ)
    → a ≤ b
    → (rank (severity_for_score a).0 ≤ rank (severity_for_score b).0)
      × ((severity_for_score b).1 ≡ min 100 b)
unfolding severity_for_score clamp
severity_grows a b h = (ground arith, ground arith)
