-- ===== src/Backtesting/Totality.antt =====
-- `calculate_metrics` on a curve above zero.
use broker_ai.Base.{
  ◌≡◌, refl, sym, ap, ◌∙◌, arith, false, Option, List, [], ◌∷◌, ◌++◌, map, All, append_nil,
  append_step,
}
use broker_ai.Base.Int.{eqb_ℤ, ◌<ℤ◌}
use broker_ai.Base.Result.{Result, ok, err, ◌>>=◌, Gives}
use broker_ai.Decimal.{Amount, Decimal, nought}
use broker_ai.Backtesting.Defs.{EquityPoint, min}
use broker_ai.Backtesting.Metrics.{
  PerformanceMetrics, max, change, last_equity, Loop, step, scan, Floats, statistics,
  calculate_metrics,
}
use broker_ai.Backtesting.Scan.{fall}
use broker_ai.Backtesting.Statistics.{IsStatistics, statistics-IsStatistics}
use broker_ai.Backtesting.Drawdown.{IsWorstFall, opening, scan-IsWorstFall}

abbrev pub IsPositive : EquityPoint → Type 0
IsPositive p = nought <ℤ p.equity

change_returns : (a b : Amount) → nought <ℤ b → change a b ≡ ok (fall b a)
change_returns a b h = rw (not_nought b h) refl
  where
    not_nought : (b : Amount) → nought <ℤ b → eqb_ℤ b nought ≡ false
    not_nought b h = ground arith

max_positive : (a b : Amount) → nought <ℤ a → nought <ℤ max a b
max_positive a b h = ground arith

-- The loop as it is after a day.
abbrev stepped : EquityPoint → Loop → Loop
stepped p s = record {
  peak = max s.peak p.equity;
  maximum_drawdown = min s.maximum_drawdown (fall (max s.peak p.equity) p.equity);
  returns = s.returns ++ (fall s.previous p.equity ∷ []);
  previous = p.equity;
}

step_returns :
    (p : EquityPoint) (s : Loop)
    → nought <ℤ s.peak
    → nought <ℤ s.previous
    → step p s ≡ ok (stepped p s)
step_returns p s peak previous =
    rw
      (
        change_returns p.equity (max s.peak p.equity) (max_positive s.peak p.equity peak),
        change_returns p.equity s.previous previous,
      )
      refl

-- The change of each day, as a rate from the day before.
abbrev pub daily_returns : Amount → List EquityPoint → List Amount
daily_returns previous [] = []
daily_returns previous (p ∷ curve) = fall previous p.equity ∷ daily_returns p.equity curve

scan-daily :
    (curve : List EquityPoint) (s : Loop)
    → All IsPositive curve
    → nought <ℤ s.peak
    → nought <ℤ s.previous
    → (t : Loop) × (scan curve s ≡ ok t) × (t.returns ≡ s.returns ++ daily_returns s.previous curve)
unfolding scan
scan-daily [] s positive peak previous = (s, refl, sym (append_nil s.returns))
scan-daily (p ∷ curve) s (here, positive) peak previous =
    let (t, done, returns) =
      scan-daily curve (stepped p s) positive (max_positive s.peak p.equity peak) here in
    (
      t,
      ap (λ (r : Result Loop). r >>= scan curve) (step_returns p s peak previous) ∙ done,
      returns ∙ append_step s.returns (fall s.previous p.equity) (daily_returns p.equity curve),
    )

module _ {F : Type 0} (floats : Floats F) where
  -- What is returned with a maximum drawdown, once the statistics in floats are computed.
  abbrev pub metrics_with :
      Amount
      → List EquityPoint
      → Amount
      → EquityPoint
      → Result (Decimal × Option Decimal)
      → Result PerformanceMetrics
  metrics_with initial_cash curve worst first (err e) = err e
  metrics_with initial_cash curve worst first (ok (volatility, sharpe)) = ok (record {
    total_return = fall initial_cash (last_equity first.equity curve);
    annualized_volatility = volatility;
    maximum_drawdown = worst;
    sharpe_ratio = sharpe;
  })

  -- For a curve of at least one day, all of whose equities are above zero, and a capital above zero,
  -- the metrics are computed whenever the statistics in floats of the daily returns are, and the
  -- only exception is one of these statistics: the daily returns are the rates from the capital to
  -- the first equity and from each equity to the next, the total return is the rate from the capital
  -- to the last equity, and the maximum drawdown is the lowest of zero and the falls of the days,
  -- each as a rate from the highest equity up to that day. The annualized volatility is the root of
  -- the mean squared distance of the returns from their mean, times the root of 252; the Sharpe ratio
  -- is the mean by the volatility times the root of 252, and is there just when the volatility is
  -- above zero.
  pub calculate_metrics_lem :
      (first : EquityPoint) (curve : List EquityPoint) (initial_cash : Amount)
      → All IsPositive (first ∷ curve)
      → nought <ℤ initial_cash
      → (worst : Amount) × IsWorstFall first curve worst
        × (calculate_metrics floats (first ∷ curve) initial_cash
            ≡ metrics_with initial_cash curve worst first
                (statistics floats (daily_returns initial_cash (first ∷ curve))))
        × Gives
            (IsStatistics floats (map floats.float_of (daily_returns initial_cash (first ∷ curve))))
            (statistics floats (daily_returns initial_cash (first ∷ curve)))
  unfolding calculate_metrics
  calculate_metrics_lem first curve initial_cash (here, positive) capital =
      let (s, scanned, returns) =
        scan-daily (first ∷ curve) (opening first initial_cash) (here, positive) here capital in
      (
        s.maximum_drawdown,
        scan-IsWorstFall first curve initial_cash s scanned,
        rw (change_returns (last_equity first.equity curve) initial_cash capital, scanned, returns)
            (ended s.maximum_drawdown
              (statistics floats (daily_returns initial_cash (first ∷ curve)))),
        statistics-IsStatistics floats (daily_returns initial_cash (first ∷ curve)),
      )
    where
      ended :
          (worst : Amount) (r : Result (Decimal × Option Decimal))
          → (r >>= λ x. ok (record {
            total_return = fall initial_cash (last_equity first.equity curve);
            annualized_volatility = x.0;
            maximum_drawdown = worst;
            sharpe_ratio = x.1;
          }))
            ≡ metrics_with initial_cash curve worst first r
      ended worst (err e) = refl
      ended worst (ok x) = refl
