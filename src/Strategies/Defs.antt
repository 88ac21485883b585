-- ===== src/Strategies/Defs.antt =====
-- base.py and moving_average.py.
use broker_ai.Base.{ℕ, ◌-◌, Bool, not, ltb, ◌&&◌, ◌||◌, if◌then◌else◌, List, map, length, drop}
use broker_ai.Base.Int.{ℤ, pos, pos_part, leb_ℤ, ltb_ℤ}
use broker_ai.Base.Result.{Result, Error, ok, raise_if, ◌>>◌}
use broker_ai.Decimal.{Amount, nought, sum_from, div_int}
use broker_ai.Data.{HistoricalBar}

pub data Signal : Type 0 where
  buy sell hold : Signal

-- `Strategy.decide`, on the bars up to the decision and whether a position is held
pub record Strategy : Type 0 where
  pub decide : List HistoricalBar → Bool → Signal

pub record MovingAverageStrategy : Type 0 where
  pub short_window : ℕ
  pub long_window : ℕ

unfoldable pub new_moving_average : ℤ → ℤ → Result MovingAverageStrategy
new_moving_average short long = do
  raise_if (leb_ℤ short (pos 0) || leb_ℤ long (pos 0)) Error.window_not_positive
  raise_if (leb_ℤ long short) Error.window_order
  ok (record { short_window = pos_part short; long_window = pos_part long })

-- `history[-n:]`, for a positive n
abbrev pub last : ℕ → List HistoricalBar → List HistoricalBar
last n history = drop (length history - n) history

-- `_average`
unfoldable pub average : List HistoricalBar → Amount
average bars = div_int (sum_from nought (map (λ (b : HistoricalBar). b.close) bars)) (length bars)

-- `MovingAverageStrategy.decide`
unfoldable pub decide_moving_average : MovingAverageStrategy → List HistoricalBar → Bool → Signal
decide_moving_average strategy history has_position =
    if ltb (length history) strategy.long_window
    then Signal.hold
    else (let short_average = average (last strategy.short_window history) in
        let long_average = average (last strategy.long_window history) in
        if ltb_ℤ long_average short_average && not has_position
        then Signal.buy
        else if ltb_ℤ short_average long_average && has_position
        then Signal.sell
        else Signal.hold)
