-- ===== src/Backtesting/Metrics.antt =====
-- `calculate_metrics`. The operations of the binary floating point, with the exceptions that they
-- raise, are a parameter; the volatility and the Sharpe ratio are computed with them as the code does.
use broker_ai.Base.{ℕ, Bool, if◌then◌else◌, Option, none, some, List, [], ◌∷◌, ◌++◌, map, length}
use broker_ai.Base.Int.{leb_ℤ, eqb_ℤ}
use broker_ai.Base.Result.{Result, Error, ok, err, ◌>>=◌}
use broker_ai.Decimal.{Amount, Decimal, nought, one, sub, div}
use broker_ai.Backtesting.Defs.{EquityPoint, min}

pub record PerformanceMetrics : Type 0 where
  pub total_return : Amount
  pub annualized_volatility : Decimal
  pub maximum_drawdown : Amount
  pub sharpe_ratio : Option Decimal

-- Python's floats: `float(d)`, `float(n)`, `sum`, `-`, `*`, `/`, `x ** 2`, `sqrt`, `x > 0` and
-- `Decimal(str(x))`. A quotient by zero, a square that is too large and the root of a number below
-- zero are exceptions.
pub record Floats (F : Type 0) : Type 0 where
  pub float_of : Amount → F
  pub of_int : ℕ → F
  pub sum : List F → F
  pub minus : F → F → F
  pub times : F → F → F
  pub over : F → F → Result F
  pub squared : F → Result F
  pub sqrt : F → Result F
  pub is_positive : F → Bool
  pub to_decimal : F → Decimal

abbrev pub max : Amount → Amount → Amount
max a b = if leb_ℤ b a then a else b

-- `a / b - Decimal("1")`
abbrev pub change : Amount → Amount → Result Amount
change a b = if eqb_ℤ b nought then err Error.division_by_zero else ok (sub (div a b) one)

-- The last equity of a curve that begins with `first`.
abbrev pub last_equity : Amount → List EquityPoint → Amount
last_equity first [] = first
last_equity first (p ∷ curve) = last_equity p.equity curve

-- The variables of the loop.
pub record Loop : Type 0 where
  pub peak : Amount
  pub maximum_drawdown : Amount
  pub returns : List Amount
  pub previous : Amount

abbrev pub step : EquityPoint → Loop → Result Loop
step point s = do
  let peak = max s.peak point.equity
  drawdown ← change point.equity peak
  daily ← change point.equity s.previous
  ok (record {
    peak = peak;
    maximum_drawdown = min s.maximum_drawdown drawdown;
    returns = s.returns ++ (daily ∷ []);
    previous = point.equity;
  })

-- The loop over the curve.
unfoldable pub scan : List EquityPoint → Loop → Result Loop
scan [] s = ok s
scan (point ∷ curve) s = do t ← step point s; scan curve t

module _ {F : Type 0} (floats : Floats F) where
  -- `[(item - average) ** 2 for item in returns]`
  abbrev pub squares : F → List F → Result (List F)
  squares average [] = ok []
  squares average (item ∷ items) = do
    square ← floats.squared (floats.minus item average)
    rest ← squares average items
    ok (square ∷ rest)

  -- The Sharpe ratio, where the volatility is above zero.
  abbrev pub sharpe_of : F → F → Result (Option Decimal)
  sharpe_of average daily_volatility =
      if floats.is_positive daily_volatility
      then (floats.over average daily_volatility >>= λ ratio.
          floats.sqrt (floats.of_int 252) >>= λ root.
          ok (some (floats.to_decimal (floats.times ratio root))))
      else ok none

  -- The annualized volatility and the Sharpe ratio of the daily returns.
  unfoldable pub statistics : List Amount → Result (Decimal × Option Decimal)
  statistics daily = do
    let returns = map floats.float_of daily
    average ← floats.over (floats.sum returns) (floats.of_int (length returns))
    deviations ← squares average returns
    variance ← floats.over (floats.sum deviations) (floats.of_int (length returns))
    daily_volatility ← floats.sqrt variance
    root ← floats.sqrt (floats.of_int 252)
    sharpe ← sharpe_of average daily_volatility
    ok (floats.to_decimal (floats.times daily_volatility root), sharpe)

  -- `calculate_metrics`
  unfoldable pub calculate_metrics : List EquityPoint → Amount → Result PerformanceMetrics
  calculate_metrics [] initial_cash = err Error.empty_curve
  calculate_metrics (point ∷ curve) initial_cash = do
    total_return ← change (last_equity point.equity curve) initial_cash
    s ← scan (point ∷ curve) (record {
      peak = point.equity;
      maximum_drawdown = nought;
      returns = [];
      previous = initial_cash;
    })
    (volatility, sharpe) ← statistics s.returns
    ok (record {
      total_return = total_return;
      annualized_volatility = volatility;
      maximum_drawdown = s.maximum_drawdown;
      sharpe_ratio = sharpe;
    })
