-- ===== src/Risk/Engine.antt =====
-- src/broker_ai/risk/engine.py: every rule is run, an exception counts as a refusal, and every
-- assessment is logged.
use broker_ai.Base.{ℕ, Bool, true, false, ◌==◌, List, [], ◌∷◌, ◌++◌, any_of, all_of}
use broker_ai.Base.Result.{Result, Error, ok, err, raise_if, ◌>>◌, Action, check}
use broker_ai.Domain.Order.{Order}
use broker_ai.Domain.Portfolio.{Portfolio}
use broker_ai.Domain.Time.{Datetime, require_aware}
use broker_ai.Risk.Models.{RiskCode, RiskContext, RiskOutcome, RiskPolicy, RiskAssessment}
use broker_ai.Risk.Rules.{
  RiskRule, kill_switch_rule, max_order_value_rule, max_position_value_rule, max_concentration_rule,
  cash_reserve_rule, daily_loss_rule,
}

pub record RiskEngine : Type 0 where
  pub policy : RiskPolicy
  pub kill_switch : Bool
  pub extra_rules : List RiskRule
  pub audit_log : List RiskAssessment

unfoldable pub new_engine : RiskPolicy → List RiskRule → RiskEngine
new_engine policy extra_rules = record {
  policy = policy;
  kill_switch = false;
  extra_rules = extra_rules;
  audit_log = [];
}

-- `KillSwitchRule.activate` and `deactivate`
unfoldable pub activate : RiskEngine → RiskEngine
activate engine = record engine { kill_switch = true }

unfoldable pub deactivate : RiskEngine → RiskEngine
deactivate engine = record engine { kill_switch = false }

-- `self._rules`
unfoldable pub rules : RiskEngine → List RiskRule
rules engine =
    kill_switch_rule engine.kill_switch
    ∷ max_order_value_rule engine.policy
    ∷ max_position_value_rule engine.policy
    ∷ max_concentration_rule engine.policy
    ∷ cash_reserve_rule engine.policy
    ∷ daily_loss_rule engine.policy
    ∷ engine.extra_rules

-- The `except` of the loop: a rule that raises is a refusal.
abbrev pub caught : Result RiskOutcome → RiskOutcome
caught (ok outcome) = outcome
caught (err _) = record { code = RiskCode.rule_error; approved = false }

-- The loop over the rules.
unfoldable pub evaluate_all : List RiskRule → Order → RiskContext → Portfolio → List RiskOutcome
evaluate_all [] order context p = []
evaluate_all (rule ∷ rest) order context p =
    caught (rule order context p) ∷ evaluate_all rest order context p

-- `_validate_metadata`
unfoldable pub validate_metadata : List RiskAssessment → ℕ → Datetime → Result (Unit {0})
validate_metadata log assessment_id evaluated_at = do
  raise_if (any_of (λ a. a.assessment_id == assessment_id) log) Error.duplicate_assessment
  require_aware evaluated_at
  ok tt

-- The assessment of an order; it is built after the metadata are validated.
unfoldable pub assessment_of :
    RiskEngine → ℕ → Datetime → Order → RiskContext → Portfolio → RiskAssessment
assessment_of engine assessment_id evaluated_at order context p =
    let outcomes = evaluate_all (rules engine) order context p in
    record {
      assessment_id = assessment_id;
      order_id = order.order_id;
      approved = all_of (λ o. o.approved) outcomes;
      outcomes = outcomes;
      evaluated_at = evaluated_at;
    }

-- `RiskEngine.assess`, given what the ID factory and the clock return, and the state of the
-- context's portfolio
unfoldable pub assess :
    ℕ → Datetime → Order → RiskContext → Portfolio → Action RiskEngine RiskAssessment
assess assessment_id evaluated_at order context p engine =
    check (validate_metadata engine.audit_log assessment_id evaluated_at)
      (λ _ e.
        let assessment = assessment_of e assessment_id evaluated_at order context p in
        (ok assessment, record e { audit_log = e.audit_log ++ (assessment ∷ []) }))
      engine
