-- ===== src/Risk/Limits.antt =====
-- What an approval of the risk engine means.
use broker_ai.Base.{ℕ, true, false, ◌≡◌, ◌↔◌, refl, List, [], ◌∷◌, arith, All, all_of}
use broker_ai.Base.Int.{◌≤ℤ◌, ◌<ℤ◌}
use broker_ai.Base.Result.{Result, ok, err}
use broker_ai.Decimal.{mul, div, negate}
use broker_ai.Domain.Order.{Order, OrderSide, total_value}
use broker_ai.Domain.Portfolio.{Portfolio}
use broker_ai.Domain.Time.{Datetime}
use broker_ai.Risk.Models.{RiskContext, RiskOutcome, RiskPolicy}
use broker_ai.Risk.Rules.{
  RiskRule, kill_switch_rule, max_order_value_rule, max_position_value_rule, max_concentration_rule,
  cash_reserve_rule, daily_loss_rule, projected_value, projected_cash, day_result,
}
use broker_ai.Risk.Engine.{RiskEngine, rules, caught, evaluate_all, assessment_of}

module _ (order : Order) (context : RiskContext) (p : Portfolio) where
  -- A rule approves if it returns an outcome that says so; a rule that raises does not.
  abbrev pub Approves : RiskRule → Type 0
  Approves rule = (o : RiskOutcome) × (rule order context p ≡ ok o) × (o.approved ≡ true)

  -- The limits of a policy on a buy.
  pub record WithinLimits (policy : RiskPolicy) : Type 0 where
    pub order_value : total_value order ≤ℤ policy.max_order_value
    pub position_value : projected_value order context p ≤ℤ policy.max_position_value
    pub concentration :
        div (projected_value order context p) context.current_equity ≤ℤ policy.max_concentration
    pub reserve :
        mul context.current_equity policy.min_cash_reserve ≤ℤ projected_cash order context p
    pub daily_loss : negate policy.max_daily_loss <ℤ day_result context

  caught-Approves :
      (rule : RiskRule) → ((caught (rule order context p)).approved ≡ true) ↔ Approves rule
  caught-Approves rule = go (rule order context p) refl
    where
      go :
          (r : Result RiskOutcome)
          → rule order context p ≡ r
          → ((caught r).approved ≡ true) ↔ Approves rule
      go (ok o) e = (λ h. (o, e, h), λ a. ground arith)
      go (err x) e = (λ h. cc, λ a. ground arith)

  -- All outcomes are approvals exactly when every rule approves.
  pub evaluate_all_iff :
      (rs : List RiskRule)
      → (all_of (λ o. o.approved) (evaluate_all rs order context p) ≡ true) ↔ All Approves rs
  unfolding evaluate_all
  evaluate_all_iff [] = (λ _. tt, λ _. refl)
  evaluate_all_iff (rule ∷ rs) = ground (arith, caught-Approves rule, evaluate_all_iff rs)

  -- The engine approves an order exactly when the kill switch is off, a buy keeps every limit of the
  -- policy, and every extra rule approves.
  pub assessment_approved_iff :
      (engine : RiskEngine) (id : ℕ) (at : Datetime)
      → ((assessment_of engine id at order context p).approved ≡ true)
        ↔ (engine.kill_switch ≡ false)
          × (order.side ≡ OrderSide.buy → WithinLimits engine.policy)
          × All Approves engine.extra_rules
  unfolding assessment_of rules evaluate_all kill_switch_rule max_order_value_rule
      max_position_value_rule max_concentration_rule cash_reserve_rule daily_loss_rule
  assessment_approved_iff engine id at = ground (arith, evaluate_all_iff engine.extra_rules)
