-- ===== src/Decision/Engine/Verdicts.antt =====
-- What the decisions of backend/app/decision/engine.py say of an evaluation.
use network_operations_platf.Common.{
  ℕ, ◌≡◌, refl, sym, ap, subst, Bool, true, String, List, [], ◌∷◌, ◌++◌, any, map, arith,
  if◌then◌else◌, All, Bool-cases, inl, inr, str_eq_refl, ◌||◌,
}
use network_operations_platf.Evaluation.Engine.{
  non_compliant, error, RuleEvaluationResult, Policy, PolicyEvaluationResult, has_status, status_of,
  policy_results,
}
use network_operations_platf.Evaluation.Engine.Verdicts.{IsFounded, policy_results-IsFounded}
use network_operations_platf.Decision.Engine.{
  DecisionStatus, pass, fail, warning, DecisionResult, DecisionRuleDefinition, determine_status,
  build_decision, decide, has_code, load, summarize_rule,
}

-- The decision that the results of the rules call for.
pub called_for : List RuleEvaluationResult → DecisionStatus
called_for rs =
    if any (has_status non_compliant) rs
    then fail
    else if any (has_status error) rs
    then warning
    else pass

founded-determine_status :
    (p : PolicyEvaluationResult) → IsFounded p → determine_status p ≡ called_for p.rule_results
unfolding determine_status called_for status_of
founded-determine_status p f = ground (arith, f.1)

-- What a decision says, and how it is made up of the rules.
pub record Explains (p : PolicyEvaluationResult) (d : DecisionResult) : Type 0 where
  pub verdict : d.decision_status ≡ called_for p.rule_results
  pub keys : d.triggered_rules ≡ map (λ r. r.rule_key) p.rule_results
  pub traced : map (λ r. r.rule_key) d.rules ≡ d.triggered_rules

keys-summarize_rule :
    (rs : List RuleEvaluationResult)
    → map (λ r. r.rule_key) (map summarize_rule rs) ≡ map (λ r. r.rule_key) rs
unfolding summarize_rule
keys-summarize_rule [] = refl
keys-summarize_rule (r ∷ rs) = ap (λ ks. r.rule_key ∷ ks) (keys-summarize_rule rs)

-- Of each policy result of an evaluation and its decision.
abbrev pub AllExplained : List PolicyEvaluationResult → List DecisionResult → Type 0
AllExplained [] [] = Unit
AllExplained [] (d ∷ ds) = ⊥
AllExplained (p ∷ ps) [] = ⊥
AllExplained (p ∷ ps) (d ∷ ds) = Explains p d × AllExplained ps ds

explained : (ps : List PolicyEvaluationResult) → All IsFounded ps → AllExplained ps (decide ps)
unfolding decide build_decision
explained [] f = tt
explained (p ∷ ps) f = (
  record {
    verdict = founded-determine_status p f.0;
    keys = refl;
    traced = keys-summarize_rule p.rule_results;
  },
  explained ps f.1,
)

-- Deciding on the policy results that an evaluation produced: one decision per policy, in order,
-- which fails if a rule of the policy is non-compliant, else warns if one is an error, and passes
-- otherwise, so it is never unknown or not applicable; it names the keys of the policy's rules, and
-- its trace has one rule for each.
pub decide_lem :
    (m : List (String × Policy)) (version : ℕ → String) (rs : List RuleEvaluationResult)
    → AllExplained (policy_results m version rs) (decide (policy_results m version rs))
decide_lem m version rs =
    explained (policy_results m version rs) (policy_results-IsFounded m version rs)

any-append :
    (p : DecisionRuleDefinition → Bool) (rules : List DecisionRuleDefinition)
    (d : DecisionRuleDefinition)
    → any p (rules ++ d ∷ []) ≡ (any p rules || p d)
any-append p [] d = ground arith
any-append p (r ∷ rules) d = ground (arith, any-append p rules d)

any-load :
    (code : String) (ds rules : List DecisionRuleDefinition)
    → any (has_code code) rules ≡ true
    → any (has_code code) (load ds rules) ≡ true
unfolding load
any-load code [] rules h = h
any-load code (d ∷ ds) rules h =
    let grown = any-append (has_code code) rules d in
    let old = any-load code ds rules h in
    let new = any-load code ds (rules ++ d ∷ []) (ground (arith, h, grown)) in
    elim (Bool-cases (any (has_code d.code) rules)) [ inl y ↦ rw y old | inr n ↦ rw n new ]

load-All :
    (ds rules : List DecisionRuleDefinition)
    → All (λ d. any (has_code d.code) (load ds rules) ≡ true) ds
unfolding load
load-All [] rules = tt
load-All (d ∷ ds) rules =
    let grown = any-append (has_code d.code) rules d in
    let new = any-load d.code ds (rules ++ d ∷ []) (ground (arith, grown, str_eq_refl d.code)) in
    let rest_old = load-All ds rules in
    let rest_new = load-All ds (rules ++ d ∷ []) in
    elim (Bool-cases (any (has_code d.code) rules)) [
      | inl y ↦
          let e : load (d ∷ ds) rules ≡ load ds rules = rw y refl in
          subst (λ q. All (λ x. any (has_code x.code) q ≡ true) (d ∷ ds)) (sym e)
            (any-load d.code ds rules y, rest_old)
      | inr n ↦
          let e : load (d ∷ ds) rules ≡ load ds (rules ++ d ∷ []) = rw n refl in
          subst (λ q. All (λ x. any (has_code x.code) q ≡ true) (d ∷ ds)) (sym e) (new, rest_new)
    ]

load_idle :
    (ds rules : List DecisionRuleDefinition)
    → All (λ d. any (has_code d.code) rules ≡ true) ds
    → load ds rules ≡ rules
unfolding load
load_idle [] rules a = refl
load_idle (d ∷ ds) rules a = rw a.0 (load_idle ds rules a.1)

-- Whatever the registry held, loading definitions leaves each of their codes registered, and loading
-- them once more changes nothing.
pub load_lem :
    (ds rules : List DecisionRuleDefinition)
    → All (λ d. any (has_code d.code) (load ds rules) ≡ true) ds
      × (load ds (load ds rules) ≡ load ds rules)
load_lem ds rules = (load-All ds rules, load_idle ds (load ds rules) (load-All ds rules))
