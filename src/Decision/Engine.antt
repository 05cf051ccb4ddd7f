-- ===== src/Decision/Engine.antt =====
-- backend/app/decision/engine.py and registry.py. The texts of reasons are their constructors'
-- arguments; a count in a text stands beside the text that follows it.
pub mod Verdicts
mod Examples
use network_operations_platf.Common.{
  ℕ, Bool, true, false, String, Option, none, some, List, [], ◌∷◌, ◌++◌, any, keep, first, map,
  length, str_eq, is_none, if◌then◌else◌,
}
use network_operations_platf.Evaluation.Engine.{
  EvaluationStatus, evaluation_eq, compliant, non_compliant, waived, not_applicable, error,
  RuleEvaluationResult, PolicyEvaluationResult, has_status,
}

pub data DecisionStatus : Type 0 where
  pass fail warning unknown inapplicable : DecisionStatus

pub data Detail : Type 0 where
  plain : String → Detail
  counted : ℕ → String → Detail
  with_status : String → EvaluationStatus → Detail

pub record DecisionReason : Type 0 where
  pub code : String
  pub message : String
  pub details : Detail

pub record DecisionRule : Type 0 where
  pub rule_id : ℕ
  pub rule_key : String
  pub status : EvaluationStatus
  pub risk_score : ℕ
  pub confidence : ℕ
  pub reason : String

pub record DecisionResult : Type 0 where
  pub policy_id : ℕ
  pub policy_version : String
  pub decision_status : DecisionStatus
  pub confidence : ℕ
  pub reasoning : String
  pub triggered_rules : List String
  pub reasons : List DecisionReason
  pub rules : List DecisionRule

pub determine_status : PolicyEvaluationResult → DecisionStatus
determine_status p = elim p.rule_results [
  | [] ↦ inapplicable
  | r ∷ rs ↦
      if any (has_status non_compliant) (r ∷ rs)
      then fail
      else if any (has_status error) (r ∷ rs)
      then warning
      else if any (evaluation_eq p.status) (compliant ∷ waived ∷ [])
      then pass
      else unknown
]

pub policy_reason : PolicyEvaluationResult → DecisionStatus → DecisionReason
policy_reason p inapplicable = record {
  code = "policy_not_applicable";
  message = "No policy rules were applicable during evaluation.";
  details = plain "The policy did not apply to the evaluated inventory.";
}
policy_reason p fail = record {
  code = "policy_failure";
  message = "One or more evaluated rules are non-compliant.";
  details =
      counted (length (keep (has_status non_compliant) p.rule_results))
        " rule(s) failed compliance.";
}
policy_reason p warning = record {
  code = "policy_warning";
  message = "The evaluation encountered errors that prevent a fully passing decision.";
  details = counted (length (keep (has_status error) p.rule_results)) " rule(s) returned errors.";
}
policy_reason p pass = record {
  code = "policy_pass";
  message = "The evaluation result is compliant or waived.";
  details = plain "All evaluated rules support a passing decision.";
}
policy_reason p unknown = record {
  code = "policy_unknown";
  message = "The decision engine could not determine a stable decision from evaluation results.";
  details = with_status "Policy evaluation status: " p.status;
}

rule_reason : EvaluationStatus → String
rule_reason non_compliant = "Rule evaluated as non-compliant."
rule_reason error = "Rule evaluation produced an error."
rule_reason waived = "Rule evaluation was waived."
rule_reason compliant = "Rule evaluated as compliant."
rule_reason not_applicable = "Rule was not applicable."

-- `_confidence` of a decision and of an evaluation.
decision_confidence : DecisionStatus → ℕ
decision_confidence inapplicable = 0
decision_confidence fail = 100
decision_confidence warning = 50
decision_confidence pass = 100
decision_confidence unknown = 25

rule_confidence : EvaluationStatus → ℕ
rule_confidence not_applicable = 0
rule_confidence non_compliant = 100
rule_confidence error = 50
rule_confidence compliant = 100
rule_confidence waived = 100

pub summarize_rule : RuleEvaluationResult → DecisionRule
unfolding rule_confidence rule_reason
summarize_rule r = record {
  rule_id = r.rule_id;
  rule_key = r.rule_key;
  status = r.status;
  risk_score = r.risk_score;
  confidence = rule_confidence r.status;
  reason = rule_reason r.status;
}

pub build_decision : PolicyEvaluationResult → DecisionResult
unfolding determine_status policy_reason summarize_rule decision_confidence
build_decision p =
    let status = determine_status p in
    let reason = policy_reason p status in
    record {
      policy_id = p.policy_id;
      policy_version = p.version;
      decision_status = status;
      confidence = decision_confidence status;
      reasoning = reason.message;
      triggered_rules = map (λ r. r.rule_key) p.rule_results;
      reasons = reason ∷ [];
      rules = map summarize_rule p.rule_results;
    }

pub decide : List PolicyEvaluationResult → List DecisionResult
unfolding build_decision
decide policy_results = map build_decision policy_results

pub record DecisionRuleDefinition : Type 0 where
  pub code : String
  pub status : DecisionStatus
  pub confidence : ℕ
  pub match_policy_statuses : List EvaluationStatus
  pub priority : ℕ

pub default_rule_definitions : List DecisionRuleDefinition
default_rule_definitions =
    record {
      code = "policy_not_applicable";
      status = inapplicable;
      confidence = 0;
      match_policy_statuses = not_applicable ∷ [];
      priority = 100;
    }
    ∷ record {
      code = "policy_non_compliant";
      status = fail;
      confidence = 100;
      match_policy_statuses = non_compliant ∷ [];
      priority = 90;
    }
    ∷ record {
      code = "policy_error";
      status = warning;
      confidence = 50;
      match_policy_statuses = error ∷ [];
      priority = 80;
    }
    ∷ record {
      code = "policy_pass";
      status = pass;
      confidence = 100;
      match_policy_statuses = compliant ∷ waived ∷ [];
      priority = 70;
    }
    ∷ record {
      code = "policy_unknown";
      status = unknown;
      confidence = 25;
      match_policy_statuses = [];
      priority = 0;
    }
    ∷ []

abbrev pub has_code : String → DecisionRuleDefinition → Bool
has_code code d = str_eq d.code code

-- `DecisionRegistry.register`, `none` if the code is taken.
pub register :
    DecisionRuleDefinition → List DecisionRuleDefinition → Option (List DecisionRuleDefinition)
register rule rules = if any (has_code rule.code) rules then none else some (rules ++ rule ∷ [])

-- `_load_defaults`: definitions whose code is taken are passed over.
pub load : List DecisionRuleDefinition → List DecisionRuleDefinition → List DecisionRuleDefinition
load [] rules = rules
load (d ∷ ds) rules =
    if any (has_code d.code) rules then load ds rules else load ds (rules ++ d ∷ [])
