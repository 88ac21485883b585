-- ===== src/Backtesting/Report.antt =====
-- The end of `BacktestEngine.run`: its result, with the statistics. The name of the strategy is text
-- that is only shown.
use broker_ai.Base.{ℕ, List, [], ◌∷◌}
use broker_ai.Base.Result.{Result, ok, ◌>>=◌}
use broker_ai.Decimal.{Amount}
use broker_ai.Domain.Instrument.{Instrument}
use broker_ai.Domain.Portfolio.{get_position}
use broker_ai.Brokers.Simulated.{Execution}
use broker_ai.Risk.Models.{RiskAssessment}
use broker_ai.Data.{HistoricalBar, HistoricalDataset}
use broker_ai.Strategies.{Strategy}
use broker_ai.Backtesting.Defs.{
  BacktestConfig, EquityPoint, BacktestState, Ids, run, build_benchmark_curve, held_quantity,
}
use broker_ai.Backtesting.Metrics.{PerformanceMetrics, Floats, calculate_metrics}

pub record BacktestResult : Type 0 where
  pub config : BacktestConfig
  pub equity_curve : List EquityPoint
  pub executions : List Execution
  pub risk_assessments : List RiskAssessment
  pub metrics : PerformanceMetrics
  pub benchmark_metrics : PerformanceMetrics
  pub final_cash : Amount
  pub final_quantity : ℕ

module _ {F : Type 0} (ids : Ids) (strategy : Strategy) (config : BacktestConfig)
    (floats : Floats F) where
  abbrev pub benchmark : List HistoricalBar → List EquityPoint
  benchmark [] = []
  benchmark (bar ∷ bars) = build_benchmark_curve config bar.open_price (bar ∷ bars)

  abbrev pub report : Instrument → List HistoricalBar → BacktestState → Result BacktestResult
  report instrument bars s = do
    metrics ← calculate_metrics floats s.equity_curve config.initial_cash
    benchmark_metrics ← calculate_metrics floats (benchmark bars) config.initial_cash
    ok (record {
      config = config;
      equity_curve = s.equity_curve;
      executions = s.executions;
      risk_assessments = s.risk_engine.audit_log;
      metrics = metrics;
      benchmark_metrics = benchmark_metrics;
      final_cash = s.portfolio.cash_balance;
      final_quantity = held_quantity (get_position instrument.symbol s.portfolio);
    })

  -- `BacktestEngine.run`
  unfoldable pub run_report : HistoricalDataset → Result BacktestResult
  run_report dataset =
      run ids dataset.instrument strategy config dataset.bars
      >>= report dataset.instrument dataset.bars
