-- ===== src/Evaluation/Engine/Verdicts.antt =====
-- What the aggregation of backend/app/evaluation/engine.py promises.
use network_operations_platf.Common.{
  ℕ, ◌+◌, ◌≤◌, ◌≡◌, ◌≢◌, ◌↔◌, refl, sym, ap, ◌∙◌, subst, Bool, true, false, String, List, [], ◌∷◌,
  any, keep, map, ◌==◌, arith, All, ◌&&◌,
}
use network_operations_platf.Evaluation.Engine.{
  RuleEvaluationResult, Policy, PolicyEvaluationResult, non_compliant, highest, has_status,
  status_of, metrics, groups_of, policy_result, policy_results,
}
use network_operations_platf.Evaluation.Engine.Groups.{
  is_of, Distinct, Lists, IsGrouped, groups-IsGrouped, FilledGroups, groups-FilledGroups,
}

-- Every result is counted under exactly one status.
pub metrics_add_up :
    (total risk score : ℕ) (rs : List RuleEvaluationResult)
    → let m = metrics total rs risk score in
      m.evaluated_rules
      ≡ m.compliant_count + m.non_compliant_count + m.waived_count + m.not_applicable_count
        + m.errors
unfolding metrics
metrics_add_up total risk score [] = refl
metrics_add_up total risk score (r ∷ rs) = ground (arith, metrics_add_up total risk score rs)

-- No policy has two results.
abbrev pub OnePerPolicy : List PolicyEvaluationResult → Type 0
OnePerPolicy [] = Unit
OnePerPolicy (p ∷ ps) = (any (λ q. q.policy_id == p.policy_id) ps ≡ false) × OnePerPolicy ps

-- What the result of a policy says of the rule results `rs`: it lists those that belong to the
-- policy, in their order, it is non-compliant exactly if one of them is, and its risk is no less than
-- that of any of them.
pub record IsSummary (m : List (String × Policy)) (rs : List RuleEvaluationResult)
    (p : PolicyEvaluationResult) : Type 0 where
  pub listed : p.rule_results ≡ keep (is_of m p.policy_id) rs
  pub verdict :
      (p.status ≡ non_compliant)
      ↔ (any (λ r. is_of m p.policy_id r && has_status non_compliant r) rs ≡ true)
  pub risk : All (λ r. r.risk_score ≤ p.risk_score) (keep (is_of m p.policy_id) rs)

any-keep :
    (p q : RuleEvaluationResult → Bool) (rs : List RuleEvaluationResult)
    → any q (keep p rs) ≡ any (λ r. p r && q r) rs
any-keep p q [] = refl
any-keep p q (r ∷ rs) = ground (arith, any-keep p q rs)

status_of-non_compliant :
    (rs : List RuleEvaluationResult)
    → (status_of rs ≡ non_compliant) ↔ (any (has_status non_compliant) rs ≡ true)
unfolding status_of
status_of-non_compliant [] = (λ h. ground (arith, h), λ h. ground (arith, h))
status_of-non_compliant (r ∷ rs) = (λ h. ground (arith, h), λ h. ground (arith, h))

below_highest :
    (rs : List RuleEvaluationResult) (n : ℕ)
    → highest (map (λ r. r.risk_score) rs) ≤ n
    → All (λ r. r.risk_score ≤ n) rs
below_highest [] n h = tt
below_highest (r ∷ rs) n h = (omega arith, below_highest rs n (omega arith))

summaries :
    (m : List (String × Policy)) (version : ℕ → String) (rs : List RuleEvaluationResult)
    (gs : List (Policy × List RuleEvaluationResult))
    → Lists m rs gs
    → All (IsSummary m rs) (map (policy_result version) gs)
unfolding policy_result
summaries m version rs [] a = tt
summaries m version rs ((p, own) ∷ gs) a =
    let statuses = status_of-non_compliant own in
    let same =
      ap (any (has_status non_compliant)) a.0
      ∙ any-keep (is_of m p.id) (has_status non_compliant) rs in
    (
      record {
        listed = a.0;
        verdict = (λ h. sym same ∙ statuses.0 h, λ h. statuses.1 (same ∙ h));
        risk =
            subst (All (λ r. r.risk_score ≤ highest (map (λ r. r.risk_score) own))) a.0
              (below_highest own _ (omega arith));
      },
      summaries m version rs gs a.1,
    )

results-any :
    (version : ℕ → String) (id : ℕ) (gs : List (Policy × List RuleEvaluationResult))
    → any (λ p. p.policy_id == id) (map (policy_result version) gs) ≡ any (λ g. g.0.id == id) gs
unfolding policy_result
results-any version id [] = refl
results-any version id (g ∷ gs) = ground (arith, results-any version id gs)

results-OnePerPolicy :
    (version : ℕ → String) (gs : List (Policy × List RuleEvaluationResult))
    → Distinct gs
    → OnePerPolicy (map (policy_result version) gs)
results-OnePerPolicy version [] d = tt
results-OnePerPolicy version (g ∷ gs) d = (
  unfold policy_result in results-any version g.0.id gs ∙ d.0,
  results-OnePerPolicy version gs d.1,
)

-- What a policy result says agrees with the results it lists, and it lists some.
abbrev pub IsFounded : PolicyEvaluationResult → Type 0
IsFounded p = (p.rule_results ≢ []) × (p.status ≡ status_of p.rule_results)

founded :
    (version : ℕ → String) (gs : List (Policy × List RuleEvaluationResult))
    → FilledGroups gs
    → All IsFounded (map (policy_result version) gs)
unfolding policy_result
founded version [] a = tt
founded version ((p, rs) ∷ gs) a = ((a.0, refl), founded version gs a.1)

-- The results of policies that an evaluation produces are founded.
pub policy_results-IsFounded :
    (m : List (String × Policy)) (version : ℕ → String) (rs : List RuleEvaluationResult)
    → All IsFounded (policy_results m version rs)
unfolding policy_results
policy_results-IsFounded m version rs =
    founded version (groups_of m rs []) (groups-FilledGroups m rs [] tt)

-- Grouping by policy: no policy has two results, a policy has one exactly if some rule result
-- belongs to it, and it lists the rule results that belong to its policy, all of them, no others, and
-- in their order. The policy is non-compliant exactly if one of these is, and its risk is no less than
-- that of any of them.
pub policy_results_lem :
    (m : List (String × Policy)) (version : ℕ → String) (rs : List RuleEvaluationResult)
    → OnePerPolicy (policy_results m version rs)
      × ((id : ℕ)
          → any (λ p. p.policy_id == id) (policy_results m version rs) ≡ any (is_of m id) rs)
      × All (IsSummary m rs) (policy_results m version rs)
unfolding policy_results
policy_results_lem m version rs =
    let start : IsGrouped m [] [] = record { distinct = tt; lists = tt; covers = λ id. refl } in
    let k = groups-IsGrouped m [] rs [] start in
    let gs = groups_of m rs [] in
    (
      results-OnePerPolicy version gs k.distinct,
      λ id. results-any version id gs ∙ k.covers id,
      summaries m version rs gs k.lists,
    )
