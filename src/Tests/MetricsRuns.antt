-- ===== src/Tests/MetricsRuns.antt =====
-- The statistics of a curve, a file of bars, the settings and the start of the server.
use broker_ai.Base.{
  ℕ, ◌*◌, ◌≡◌, refl, arith, true, false, if◌then◌else◌, none, some, List, [], ◌∷◌, map, Text,
}
use broker_ai.Base.Int.{pos, eqb_ℤ, leb_ℤ, ltb_ℤ, ◌+ℤ◌, ◌-ℤ◌, neg_ℤ}
use broker_ai.Base.Result.{Error, ok, err, Gives}
use broker_ai.Decimal.{
  Amount, finite, cents, nought, one, add, sub, mul, mul_int, div, round, round_ratio, ulp,
  ulp_from, half_even, coefficient_bound, unit,
}
use broker_ai.Domain.Text.{strip, lstrip, rstrip, lower, upper}
use broker_ai.Data.{new_bar, new_dataset}
use broker_ai.Data.Csv.{
  Readers, load_csv, bars_of, required_columns, date_column, open_column, high_column, low_column,
  close_column, volume_column,
}
use broker_ai.Backtesting.{EquityPoint}
use broker_ai.Backtesting.Metrics.{Floats, scan, statistics, calculate_metrics}
use broker_ai.Backtesting.Statistics.{IsStatistics}
use broker_ai.Backtesting.Drawdown.{IsWorstFall}
use broker_ai.Backtesting.Totality.{daily_returns, metrics_with, calculate_metrics_lem}
use broker_ai.Settings.{AppMode, LogLevel, from_environment}
use broker_ai.Server.Api.Startup.{environment_bool}
use broker_ai.Tests.Samples.{asml}

-- A stand-in for the floats, in which a square above the hundredfold overflows.
abbrev coarse : Floats Amount
coarse = record {
  float_of = λ a. a;
  of_int = λ n. mul_int one n;
  sum = total;
  minus = sub;
  times = mul;
  over = λ a b. if eqb_ℤ b nought then err Error.division_by_zero else ok (div a b);
  squared = λ a. if leb_ℤ (mul_int one 100) a then err Error.overflow else ok (mul a a);
  sqrt = λ a. if ltb_ℤ a nought then err Error.value_error else ok a;
  is_positive = λ a. ltb_ℤ nought a;
  to_decimal = finite;
}
  where
    total : List Amount → Amount
    total [] = nought
    total (a ∷ rest) = add a (total rest)

abbrev at : ℕ → ℕ → EquityPoint
at day euros = record { trading_date = day; equity = cents (100 * euros) }

-- A fall from 200 to 100 after a rise.
calculate_metrics_lem_example :
    (worst : Amount) × IsWorstFall (at 1 100) (at 2 200 ∷ at 3 100 ∷ []) worst
    × (calculate_metrics coarse (at 1 100 ∷ at 2 200 ∷ at 3 100 ∷ []) (cents 10000)
        ≡ metrics_with coarse
            (cents 10000)
            (at 2 200 ∷ at 3 100 ∷ [])
            worst
            (at 1 100)
            (statistics coarse (daily_returns (cents 10000) (at 1 100 ∷ at 2 200 ∷ at 3 100 ∷ []))))
    × Gives
        (IsStatistics coarse
          (map coarse.float_of (daily_returns (cents 10000) (at 1 100 ∷ at 2 200 ∷ at 3 100 ∷ []))))
        (statistics coarse (daily_returns (cents 10000) (at 1 100 ∷ at 2 200 ∷ at 3 100 ∷ [])))
calculate_metrics_lem_example =
    calculate_metrics_lem coarse (at 1 100) (at 2 200 ∷ at 3 100 ∷ []) (cents 10000)
      (omega arith, (omega arith, (omega arith, tt))) (omega arith)

-- A daily return of ten thousand percent and more overflows.
square_overflows :
    calculate_metrics coarse (at 1 100 ∷ at 2 90000 ∷ []) (cents 10000) ≡ err Error.overflow
unfolding calculate_metrics statistics scan add sub mul div mul_int round round_ratio ulp ulp_from
    half_even coefficient_bound unit one ◌+ℤ◌ ◌-ℤ◌ neg_ℤ
square_overflows = refl

abbrev readers : Readers
readers = record {
  date_of = λ t. some 1;
  decimal_of = λ t. some (finite (cents 100));
  int_of = λ t. some (pos 7);
}

abbrev one_cell : Text
one_cell = b'1' ∷ []

-- A file of one line has too few bars.
one_line :
    load_csv readers
      (some (record {
        fieldnames = some required_columns;
        rows =
            ((date_column, one_cell)
              ∷ (open_column, one_cell)
              ∷ (high_column, one_cell)
              ∷ (low_column, one_cell)
              ∷ (close_column, one_cell)
              ∷ (volume_column, one_cell)
              ∷ [])
            ∷ [];
      }))
      asml
    ≡ err Error.too_few_bars
unfolding load_csv bars_of new_bar new_dataset
one_line = refl

-- The settings of an empty environment, and a mode that is not known.
default_settings :
    (from_environment none none
      ≡ ok (record { mode = AppMode.simulation; log_level = LogLevel.info }))
    × (from_environment (some (b'l' ∷ b'i' ∷ b'v' ∷ b'e' ∷ [])) none ≡ err Error.unknown_mode)
unfolding from_environment strip lstrip rstrip lower upper
default_settings = (refl, refl)

yes_is_on : environment_bool (some (b' ' ∷ b'Y' ∷ b'E' ∷ b'S' ∷ [])) false ≡ ok true
unfolding environment_bool strip lstrip rstrip lower
yes_is_on = refl
