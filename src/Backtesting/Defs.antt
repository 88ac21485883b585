-- ===== src/Backtesting/Defs.antt =====
-- `BacktestConfig`, the sizing of orders and the loop of `BacktestEngine.run`. `uuid5` gives the
-- name-based UUIDs, and the dataset, the strategy and the configuration do not change during a run.
use broker_ai.Base.{
  ℕ, suc, ◌+◌, ◌*◌, ◌/◌, Bool, true, false, if◌then◌else◌, Option, none, some, List, [], ◌∷◌, ◌++◌,
  map, Text, text_eq,
}
use broker_ai.Base.Int.{ℤ, pos, negsuc, neg_ℤ, leb_ℤ}
use broker_ai.Base.Result.{Result, Error, ok, err, raise_if, ◌>>◌, ◌>>=◌, Action}
use broker_ai.Base.Dict.{Dict, insert}
use broker_ai.Decimal.{
  Amount, Decimal, finite, nought, one, unit, add, sub, mul, mul_int, div, require_positive,
  require_non_negative,
}
use broker_ai.Domain.Instrument.{Instrument, Currency}
use broker_ai.Domain.Order.{Order, OrderSide, new_order}
use broker_ai.Domain.Position.{Position}
use broker_ai.Domain.Portfolio.{Portfolio, new_portfolio, get_position}
use broker_ai.Domain.Market.{MarketPrice, new_market_price}
use broker_ai.Domain.Time.{Datetime, aware}
use broker_ai.Domain.Valuation.{value}
use broker_ai.Brokers.Simulated.{SimulatedBroker, Execution, new_simulated_broker}
use broker_ai.Brokers.Simulated.{execute as execute_simulated}
use broker_ai.Risk.Models.{RiskPolicy, RiskContext, new_context}
use broker_ai.Risk.Engine.{RiskEngine, new_engine}
use broker_ai.Risk.Gateway.{ExecutionBroker}
use broker_ai.Risk.Gateway.{execute as execute_guarded}
use broker_ai.Data.{HistoricalBar}
use broker_ai.Strategies.{Signal, Strategy}

pub record BacktestConfig : Type 0 where
  pub initial_cash : Amount
  pub fee_per_order : Amount
  pub slippage_rate : Amount
  pub risk_policy : RiskPolicy

-- `BacktestConfig.__post_init__`
unfoldable pub new_config : Decimal → Decimal → Decimal → RiskPolicy → Result BacktestConfig
new_config initial_cash fee slippage policy = do
  cash ← require_positive initial_cash
  costs ← require_non_negative fee
  rate ← require_non_negative slippage
  raise_if (leb_ℤ one rate) Error.slippage_too_high
  ok (record {
    initial_cash = cash;
    fee_per_order = costs;
    slippage_rate = rate;
    risk_policy = policy;
  })

pub record EquityPoint : Type 0 where
  pub trading_date : ℕ
  pub equity : Amount

-- `datetime.combine(trading_date, time(...), timezone.utc)`, in minutes
abbrev pub combine : ℕ → ℕ → Datetime
combine trading_date minutes = aware (trading_date * 1440 + minutes)

-- `int(d.to_integral_value(rounding=ROUND_DOWN))`
abbrev pub truncate : Amount → ℤ
truncate (pos n) = pos (n / unit)
truncate (negsuc n) = neg_ℤ (pos (suc n / unit))

abbrev pub min : Amount → Amount → Amount
min a b = if leb_ℤ a b then a else b

-- `position.quantity * price if position else Decimal("0")`
abbrev pub held_value : Option Position → Amount → Amount
held_value none price = nought
held_value (some position) price = mul_int price position.quantity

abbrev pub held_quantity : Option Position → ℕ
held_quantity none = 0
held_quantity (some position) = position.quantity

-- The quantity of a purchase that the limits leave room for.
unfoldable pub affordable : BacktestConfig → Amount → Option Position → Portfolio → ℤ
affordable config opening_price position p =
    let fill_price = mul opening_price (add one config.slippage_rate) in
    let current_value = mul_int opening_price (held_quantity position) in
    let current_equity = add p.cash_balance current_value in
    let reserve = mul current_equity config.risk_policy.min_cash_reserve in
    let allowed =
      min
        (min
          (min config.risk_policy.max_order_value
            (sub config.risk_policy.max_position_value current_value))
          (sub (mul current_equity config.risk_policy.max_concentration) current_value))
        (sub (sub p.cash_balance config.fee_per_order) reserve) in
    truncate (div allowed fill_price)

-- What a signal asks for: a side, a quantity and a price, or nothing.
abbrev pub planned :
    Signal
    → BacktestConfig
    → Amount
    → Option Position
    → Portfolio
    → Option (OrderSide × (ℤ × Amount))
planned Signal.buy config opening_price position p =
    let quantity = affordable config opening_price position p in
    if leb_ℤ quantity (pos 0)
    then none
    else some (OrderSide.buy, (quantity, mul opening_price (add one config.slippage_rate)))
planned Signal.sell config opening_price none p = none
planned Signal.sell config opening_price (some position) p =
    some (OrderSide.sell, (pos position.quantity, mul opening_price (sub one config.slippage_rate)))
planned Signal.hold config opening_price position p = none

-- The name-based UUIDs: of an assessment by its number, of an order and a transaction by day and side.
pub record Ids : Type 0 where
  pub assessment : ℕ → ℕ
  pub order : ℕ → OrderSide → ℕ
  pub transaction : ℕ → OrderSide → ℕ

pub record BacktestState : Type 0 where
  pub portfolio : Portfolio
  pub risk_engine : RiskEngine
  pub assessments : ℕ
  pub pending_signal : Signal
  pub executions : List Execution
  pub equity_curve : List EquityPoint

module _ (ids : Ids) (instrument : Instrument) (strategy : Strategy) (config : BacktestConfig) where
  -- `dated_broker`, behind the interface of the risk gateway
  abbrev pub dated_broker : ℕ → OrderSide → ExecutionBroker
  dated_broker trading_date side = record {
    State = SimulatedBroker;
    execute = execute_simulated (ids.transaction trading_date side) (combine trading_date 540);
  }

  -- The broker, the order and the risk context, in this order.
  unfoldable pub prepared :
      OrderSide
      → ℤ
      → Amount
      → Amount
      → ℕ
      → Portfolio
      → Result (SimulatedBroker × (Order × RiskContext))
  prepared side quantity fill_price opening_price trading_date p = do
    broker ← new_simulated_broker (finite config.fee_per_order)
    order ← new_order instrument side quantity (finite fill_price) (ids.order trading_date side)
    let current_equity =
        add p.cash_balance (held_value (get_position instrument.symbol p) opening_price)
    context ←
        new_context 0 p (finite current_equity) (finite current_equity)
          ((instrument.symbol, finite opening_price) ∷ []) (finite config.fee_per_order)
    ok (broker, (order, context))

  -- The call of the risk-managed broker; the portfolio object has the identity 0.
  abbrev pub placed :
      ℕ
      → OrderSide
      → ℕ
      → Result (SimulatedBroker × (Order × RiskContext))
      → Action (RiskEngine × Portfolio) Execution
  placed trading_date side number (err x) s = (err x, s)
  placed trading_date side number (ok (broker, (order, context))) (engine, p) =
      let (r, (engine', (_, p'))) =
        execute_guarded (dated_broker trading_date side) 0 (ids.assessment number)
          (combine trading_date 539) order context (engine, (broker, p)) in
      (r, (engine', p'))

  -- The state after an execution; an exception ends the run.
  abbrev pub traded :
      BacktestState → Result Execution × (RiskEngine × Portfolio) → Result BacktestState
  traded s (err x, _) = err x
  traded s (ok execution, (engine, p)) = ok (record s {
    portfolio = p;
    risk_engine = engine;
    assessments = suc s.assessments;
    executions = s.executions ++ (execution ∷ []);
  })

  abbrev pub follow :
      HistoricalBar → BacktestState → Option (OrderSide × (ℤ × Amount)) → Result BacktestState
  follow bar s none = ok s
  follow bar s (some (side, (quantity, fill_price))) = traded s (
      placed bar.trading_date side (suc s.assessments)
        (prepared side quantity fill_price bar.open_price bar.trading_date s.portfolio)
        (s.risk_engine, s.portfolio))

  -- `_execute_signal`, on the opening of a day
  unfoldable pub execute_signal : HistoricalBar → BacktestState → Result BacktestState
  execute_signal bar s = follow bar s (
      planned s.pending_signal config bar.open_price (get_position instrument.symbol s.portfolio)
        s.portfolio)

  -- The quotes of the close, if any position is open.
  abbrev pub quotes : HistoricalBar → Dict Text Position → Result (Dict Text MarketPrice)
  quotes bar [] = ok []
  quotes bar (_ ∷ _) = do
    quote ← new_market_price instrument (finite bar.close) (combine bar.trading_date 960)
    ok (insert instrument.symbol quote [])

  abbrev pub is_held : Option Position → Bool
  is_held none = false
  is_held (some _) = true

  -- The body of the loop, on the bars before `bar`.
  unfoldable pub run_day : List HistoricalBar → HistoricalBar → BacktestState → Result BacktestState
  run_day past bar s = do
    t ← execute_signal bar s
    prices ← quotes bar t.portfolio.positions
    valuation ← value prices t.portfolio
    ok (record t {
      equity_curve =
          t.equity_curve
          ++ (record { trading_date = bar.trading_date; equity = valuation.total_equity } ∷ []);
      pending_signal =
          strategy.decide (past ++ (bar ∷ []))
            (is_held (get_position instrument.symbol t.portfolio));
    })

  -- The loop, on the bars before and the bars to come.
  unfoldable pub run_bars :
      List HistoricalBar → List HistoricalBar → BacktestState → Result BacktestState
  run_bars past [] s = ok s
  run_bars past (bar ∷ bars) s = do t ← run_day past bar s; run_bars (past ++ (bar ∷ [])) bars t

  abbrev pub initial_state : Portfolio → BacktestState
  initial_state p = record {
    portfolio = p;
    risk_engine = new_engine config.risk_policy [];
    assessments = 0;
    pending_signal = Signal.hold;
    executions = [];
    equity_curve = [];
  }

  -- `BacktestEngine.run`, up to the statistics of its result
  unfoldable pub run : List HistoricalBar → Result BacktestState
  run bars = do
    p ← new_portfolio (finite config.initial_cash) Currency.eur
    run_bars [] bars (initial_state p)

-- `a * k` at a Python int of either sign
abbrev pub mul_signed : Amount → ℤ → Amount
mul_signed a (pos k) = mul_int a k
mul_signed a (negsuc k) = neg_ℤ (mul_int a (suc k))

-- The units that the benchmark buys on the first opening.
unfoldable pub benchmark_quantity : BacktestConfig → Amount → ℤ
benchmark_quantity config first_open = truncate (
    div (sub config.initial_cash config.fee_per_order)
      (mul first_open (add one config.slippage_rate)))

unfoldable pub benchmark_cash : BacktestConfig → Amount → ℤ → Amount
benchmark_cash config first_open quantity =
    let cash =
      sub config.initial_cash
        (mul_signed (mul first_open (add one config.slippage_rate)) quantity) in
    if leb_ℤ quantity (pos 0) then cash else sub cash config.fee_per_order

-- `_build_benchmark_curve`, on the opening of the first bar
unfoldable pub build_benchmark_curve :
    BacktestConfig → Amount → List HistoricalBar → List EquityPoint
build_benchmark_curve config first_open bars =
    let quantity = benchmark_quantity config first_open in
    let cash = benchmark_cash config first_open quantity in
    map
      (λ (bar : HistoricalBar). record {
        trading_date = bar.trading_date;
        equity = add cash (mul_signed bar.close quantity);
      })
      bars
