-- ===== src/Tests/BacktestRuns.antt =====
-- A backtest of three days, and what the theorems say of it.
use broker_ai.Base.{
  ℕ, ◌+◌, ◌*◌, ◌≤◌, ◌≡◌, refl, false, ◌↔◌, ◌^◌, if◌then◌else◌, none, List, [], ◌∷◌, ◌++◌, length,
  text_eq, arith,
}
use broker_ai.Base.Int.{pos, negsuc, ◌+ℤ◌, ◌-ℤ◌, neg_ℤ}
use broker_ai.Base.Result.{Result, ok, err, Returns}
use broker_ai.Decimal.{
  add, sub, mul, mul_int, div, div_int, round, round_ratio, ulp, ulp_from, half_even,
  coefficient_bound, unit, cents, one, nought, negate, sum_from,
}
use broker_ai.Domain.Order.{OrderSide}
use broker_ai.Data.{HistoricalBar, new_dataset, dates_of}
use broker_ai.Data.Order.{IsIncreasing, new_dataset_iff}
use broker_ai.Strategies.{Signal, Strategy, MovingAverageStrategy, decide_moving_average}
use broker_ai.Strategies.Window.{decide_last}
use broker_ai.Domain.Text.{strip, lstrip, rstrip, upper}
use broker_ai.Domain.Order.{new_order, total_value}
use broker_ai.Domain.Position.{new_position, market_value, validate_trade_values}
use broker_ai.Domain.Portfolio.{
  new_portfolio, validate_amount, validate_positive_amount, get_position, withdraw, record_purchase,
}
use broker_ai.Domain.Portfolio.Invariant.{IsValid}
use broker_ai.Domain.Market.{new_market_price}
use broker_ai.Domain.Transaction.{new_transaction}
use broker_ai.Domain.Valuation.{value, value_positions, sorted_positions, insert_sorted}
use broker_ai.Brokers.Simulated.{
  new_simulated_broker, precheck, validate_transaction_metadata, execute_buy,
  execute as execute_simulated,
}
use broker_ai.Risk.Models.{
  default_policy, new_context, normalize_prices, calculate_equity, price_for,
}
use broker_ai.Risk.Rules.{
  kill_switch_rule, max_order_value_rule, max_position_value_rule, max_concentration_rule,
  cash_reserve_rule, daily_loss_rule, projected_value, projected_cash, day_result,
}
use broker_ai.Risk.Engine.{
  new_engine, assess, validate_metadata, assessment_of, rules, evaluate_all,
}
use broker_ai.Risk.Gateway.{guarded, execute as execute_guarded}
use broker_ai.Backtesting.Causality.{Continues, run_causal}
use broker_ai.Backtesting.Solvency.{run-IsValid}
use broker_ai.Backtesting.{
  Ids, BacktestConfig, BacktestState, run, run_bars, run_day, execute_signal, prepared,
  initial_state, affordable, benchmark_quantity,
}
use broker_ai.Tests.Samples.{asml, asml-IsNormal, holding}

abbrev bar_at : ℕ → ℕ → ℕ → HistoricalBar
bar_at day open_cents close_cents = record {
  trading_date = day;
  open_price = cents open_cents;
  high = cents (open_cents + close_cents);
  low = cents 100;
  close = cents close_cents;
  volume = 10;
}

abbrev pub first_days : List HistoricalBar
first_days = bar_at 1 10000 11000 ∷ bar_at 2 10000 12000 ∷ []

abbrev pub later_days : List HistoricalBar
later_days = bar_at 3 13000 9000 ∷ []

-- 10000.00 in cash, 1.00 for each order, 0.1% slippage.
abbrev pub config : BacktestConfig
config = record {
  initial_cash = cents 1000000;
  fee_per_order = cents 100;
  slippage_rate = pos (10 ^ 57);
  risk_policy = default_policy;
}

-- With 0.1% slippage on 100.00 and at most a quarter of the equity in one order, 24 units are bought.
buys_24 :
    affordable config (cents 10000) none (record {
      cash_balance = cents 1000000;
      currency = asml.currency;
      positions = [];
      realized_profit = nought;
    })
    ≡ pos 24
unfolding affordable add sub mul mul_int div round round_ratio ulp ulp_from half_even
    coefficient_bound unit one ◌+ℤ◌ ◌-ℤ◌ neg_ℤ
buys_24 = refl

-- A benchmark whose fee exceeds its capital buys a negative quantity.
short_benchmark :
    benchmark_quantity
      (record config {
        initial_cash = cents 500;
        fee_per_order = cents 1000;
        slippage_rate = nought;
      })
      (cents 100)
    ≡ negsuc 4
unfolding benchmark_quantity add sub mul mul_int div round round_ratio ulp ulp_from half_even
    coefficient_bound unit one ◌+ℤ◌ ◌-ℤ◌ neg_ℤ
short_benchmark = refl

new_dataset_iff_example :
    Returns (new_dataset asml (first_days ++ later_days))
    ↔ (2 ≤ length (first_days ++ later_days)) × IsIncreasing (dates_of (first_days ++ later_days))
new_dataset_iff_example = new_dataset_iff asml (first_days ++ later_days)

abbrev one_two : MovingAverageStrategy
one_two = record { short_window = 1; long_window = 2 }

decide_last_example :
    decide_moving_average one_two (later_days ++ first_days) false
    ≡ decide_moving_average one_two first_days false
decide_last_example =
    decide_last one_two later_days first_days false
      (record { short_pos = omega arith; short_lt_long = omega arith }) (omega arith)

-- A strategy that buys as soon as it can and then holds.
abbrev buyer : Strategy
buyer = record { decide = λ history has_position. if has_position then Signal.hold else Signal.buy }

abbrev side_number : OrderSide → ℕ
side_number OrderSide.buy = 0
side_number OrderSide.sell = 1

abbrev sample_ids : Ids
sample_ids = record {
  assessment = λ n. n;
  order = λ day side. 2 * day + side_number side;
  transaction = λ day side. 2 * day + side_number side;
}

three_days : Result BacktestState
three_days = run sample_ids asml buyer config (first_days ++ later_days)

ended : Result BacktestState → BacktestState
ended (ok t) = t
ended (err x) = initial_state sample_ids asml buyer config holding

-- The run returns: it buys on the second opening, and ends with that position and one execution.
three_days-returns :
    (run sample_ids asml buyer config (first_days ++ later_days) ≡ ok (ended three_days))
    × (length (ended three_days).executions ≡ 1)
unfolding three_days ended run run_bars run_day execute_signal prepared affordable value
    value_positions sorted_positions insert_sorted market_value new_portfolio validate_amount
    new_order new_simulated_broker new_context normalize_prices calculate_equity new_market_price
    new_engine execute_guarded guarded assess validate_metadata assessment_of rules evaluate_all
    kill_switch_rule max_order_value_rule max_position_value_rule max_concentration_rule
    cash_reserve_rule daily_loss_rule projected_value projected_cash day_result price_for
    execute_simulated precheck validate_transaction_metadata get_position execute_buy total_value
    withdraw validate_positive_amount record_purchase validate_trade_values new_position
    new_transaction negate add sub mul mul_int div div_int round round_ratio ulp ulp_from half_even
    coefficient_bound unit one sum_from ◌+ℤ◌ ◌-ℤ◌ neg_ℤ strip lstrip rstrip upper
three_days-returns = (refl, refl)

run-IsValid_example : IsValid (ended three_days).portfolio
run-IsValid_example =
    run-IsValid sample_ids asml buyer config asml-IsNormal (first_days ++ later_days)
      three_days-returns.0

run_causal_example :
    (s : BacktestState) × (run sample_ids asml buyer config first_days ≡ ok s)
    × Continues sample_ids asml buyer config 1 (ended three_days) s
run_causal_example =
    run_causal sample_ids asml buyer config first_days later_days three_days-returns.0
