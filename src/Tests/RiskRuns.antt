-- ===== src/Tests/RiskRuns.antt =====
-- Runs of the risk engine and the gateway, and their theorems at fixed inputs.
use broker_ai.Base.{◌≡◌, ◌↔◌, refl, true, false, All}
use broker_ai.Base.Int.{◌+ℤ◌, ◌-ℤ◌, neg_ℤ}
use broker_ai.Base.Result.{Result, Error, ok, err}
use broker_ai.Decimal.{
  nought, one, add, sub, mul, mul_int, div, div_int, negate, round, round_ratio, ulp, ulp_from,
  half_even, coefficient_bound, unit,
}
use broker_ai.Domain.Text.{strip, lstrip, rstrip, upper}
use broker_ai.Domain.Order.{OrderSide, total_value}
use broker_ai.Domain.Portfolio.{Portfolio, get_position, withdraw, record_purchase}
use broker_ai.Domain.Position.{new_position}
use broker_ai.Domain.Transaction.{new_transaction}
use broker_ai.Brokers.Simulated
use broker_ai.Brokers.Simulated.{
  SimulatedBroker, Execution, ExecutionStatus, transaction_of, precheck,
  validate_transaction_metadata, execute_buy,
}
use broker_ai.Risk.Models.{price_for}
use broker_ai.Risk.Rules.{
  kill_switch_rule, max_order_value_rule, max_position_value_rule, max_concentration_rule,
  cash_reserve_rule, daily_loss_rule, projected_value, projected_cash, day_result,
}
use broker_ai.Risk.Engine.{
  RiskEngine, rules, evaluate_all, validate_metadata, assessment_of, assess, activate,
}
use broker_ai.Risk.Limits.{WithinLimits, Approves, assessment_approved_iff}
use broker_ai.Risk.Gateway.{ExecutionBroker, execute, guarded}
use broker_ai.Risk.Audit.{HasDistinctIds, assess-HasDistinctIds}
use broker_ai.Risk.Gateway.Guard.{Guards, guarded-Guards, kill_switch_blocks, execute-WithinLimits}
use broker_ai.Tests.Samples.{buy_ten, start, broker, noon, engine, context}

-- The simulated broker as the gateway sees it, with fixed IDs and a fixed clock.
abbrev simulated : ExecutionBroker
simulated = record { State = SimulatedBroker; execute = Simulated.execute 1 noon }

-- Ten shares at 100.00 pass every limit; thirty do not, by the order value alone.
assessed :
    ((assessment_of engine 1 noon buy_ten context start).approved ≡ true)
    × ((assessment_of engine 1 noon (record buy_ten { quantity = 30 }) context start).approved
        ≡ false)
unfolding assessment_of rules evaluate_all kill_switch_rule max_order_value_rule
    max_position_value_rule max_concentration_rule cash_reserve_rule daily_loss_rule projected_value
    projected_cash day_result price_for get_position total_value negate add sub mul div mul_int
    round round_ratio ulp ulp_from half_even coefficient_bound unit one ◌+ℤ◌ ◌-ℤ◌ neg_ℤ strip lstrip
    rstrip upper
assessed = (refl, refl)

assessment_approved_iff_example :
    ((assessment_of engine 1 noon buy_ten context start).approved ≡ true)
    ↔ (engine.kill_switch ≡ false)
      × (buy_ten.side ≡ OrderSide.buy → WithinLimits buy_ten context start engine.policy)
      × All (Approves buy_ten context start) engine.extra_rules
assessment_approved_iff_example = assessment_approved_iff buy_ten context start engine 1 noon

guarded-Guards_example :
    Guards
      (Simulated.execute 1 noon buy_ten)
      1
      noon
      buy_ten
      context
      start
      (engine, (broker, start))
      (guarded
        (Simulated.execute 1 noon buy_ten)
        1
        noon
        buy_ten
        context
        start
        (engine, (broker, start)))
guarded-Guards_example =
    guarded-Guards (Simulated.execute 1 noon buy_ten) 1 noon buy_ten context start engine
      (broker, start)

kill_switch_blocks_example :
    let (r, (_, w')) =
      execute simulated 7 1 noon buy_ten context (activate engine, (broker, start)) in
    (w' ≡ (broker, start)) × ((x : Error) × (r ≡ err x))
kill_switch_blocks_example =
    kill_switch_blocks simulated 7 1 noon buy_ten context engine (broker, start)

-- The buy through the gateway, and the execution that it returns.
through : Result Execution × (RiskEngine × (SimulatedBroker × Portfolio))
through = execute simulated 7 1 noon buy_ten context (engine, (broker, start))

returned : Result Execution → Execution
returned (ok e) = e
returned (err x) = record {
  order = buy_ten;
  status = ExecutionStatus.filled;
  transaction = transaction_of broker buy_ten 1 noon nought start start;
}

through-returns : through.0 ≡ ok (returned through.0)
unfolding through returned execute guarded assess validate_metadata assessment_of rules evaluate_all
    kill_switch_rule max_order_value_rule max_position_value_rule max_concentration_rule
    cash_reserve_rule daily_loss_rule projected_value projected_cash day_result price_for
    get_position total_value negate add sub mul div mul_int div_int round round_ratio ulp ulp_from
    half_even coefficient_bound unit one ◌+ℤ◌ ◌-ℤ◌ neg_ℤ strip lstrip rstrip upper Simulated.execute
    precheck validate_transaction_metadata execute_buy withdraw record_purchase new_position
    new_transaction
through-returns = refl

execute-WithinLimits_example :
    (context.portfolio ≡ 7)
    × (engine.kill_switch ≡ false)
    × (buy_ten.side ≡ OrderSide.buy → WithinLimits buy_ten context start engine.policy)
    × All (Approves buy_ten context start) engine.extra_rules
unfolding through
execute-WithinLimits_example =
    execute-WithinLimits simulated 7 1 noon buy_ten context engine broker start through-returns

assess-HasDistinctIds_example : HasDistinctIds (assess 1 noon buy_ten context start engine).1
assess-HasDistinctIds_example = assess-HasDistinctIds 1 noon buy_ten context start engine tt
