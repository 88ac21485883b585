-- ===== src/Backtesting/Drawdown.antt =====
-- The maximum drawdown that the loop of `calculate_metrics` finds.
use broker_ai.Base.{◌≡◌, ◌⊎◌, subst, List, [], ◌∷◌, ◌++◌}
use broker_ai.Base.Int.{◌≤ℤ◌}
use broker_ai.Base.Result.{ok, Gives}
use broker_ai.Decimal.{Amount, nought}
use broker_ai.Backtesting.Defs.{EquityPoint}
use broker_ai.Backtesting.Metrics.{Loop, scan}
use broker_ai.Backtesting.Scan.{fall, highest, Scanned, scan-Scanned}

-- The lowest of zero and the falls of the days, each from the highest equity up to that day.
pub record IsWorstFall (first : EquityPoint) (curve : List EquityPoint) (worst : Amount)
    : Type 0 where
  pub at_most_zero : worst ≤ℤ nought
  pub at_most_falls :
      (before after : List EquityPoint) (p : EquityPoint)
      → (first ∷ curve) ≡ before ++ (p ∷ after)
      → worst ≤ℤ fall (highest first.equity (before ++ (p ∷ []))) p.equity
  pub attained :
      (worst ≡ nought)
      ⊎ ((before : List EquityPoint) × (after : List EquityPoint) × (p : EquityPoint) × ((first
              ∷ curve)
            ≡ before ++ (p ∷ after))
          × (worst ≡ fall (highest first.equity (before ++ (p ∷ []))) p.equity))

-- The loop as it begins.
abbrev pub opening : EquityPoint → Amount → Loop
opening first initial_cash = record {
  peak = first.equity;
  maximum_drawdown = nought;
  returns = [];
  previous = initial_cash;
}

-- The loop over a curve ends with the worst fall.
pub scan-IsWorstFall :
    (first : EquityPoint) (curve : List EquityPoint) (initial_cash : Amount) (s : Loop)
    → scan (first ∷ curve) (opening first initial_cash) ≡ ok s
    → IsWorstFall first curve s.maximum_drawdown
scan-IsWorstFall first curve initial_cash s done = told (
    subst (Gives (Scanned (first ∷ curve) (opening first initial_cash))) done
      (scan-Scanned (first ∷ curve) (opening first initial_cash)))
  where
    told :
        Scanned (first ∷ curve) (opening first initial_cash) s
        → IsWorstFall first curve s.maximum_drawdown
    told (low, below, attained) = record {
      at_most_zero = low;
      at_most_falls = below;
      attained = attained;
    }
