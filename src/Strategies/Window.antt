-- ===== src/Strategies/Window.antt =====
-- What the moving-average strategy looks at, and which signals it gives.
use broker_ai.Base.{
  ℕ, suc, ◌+◌, ◌-◌, ◌≤◌, ◌<◌, ◌≡◌, ◌≢◌, ap, ◌∙◌, arith, Bool, true, false, List, [], ◌∷◌, ◌++◌,
  length, drop, length-append,
}
use broker_ai.Base.Result.{ok}
use broker_ai.Base.Int.{ℤ}
use broker_ai.Data.{HistoricalBar}
use broker_ai.Strategies.{
  Signal, MovingAverageStrategy, new_moving_average, decide_moving_average, last,
}

-- What the constructor guarantees.
pub record IsValidStrategy (s : MovingAverageStrategy) : Type 0 where
  pub short_pos : 0 < s.short_window
  pub short_lt_long : s.short_window < s.long_window

pub new_moving_average-IsValidStrategy :
    (short long : ℤ) {s : MovingAverageStrategy}
    → new_moving_average short long ≡ ok s
    → IsValidStrategy s
unfolding new_moving_average
new_moving_average-IsValidStrategy short long e = ground arith

drop-append : {A : Type 0} (n : ℕ) (xs ys : List A) → drop (length xs + n) (xs ++ ys) ≡ drop n ys
drop-append n [] ys = let none_before : 0 + n ≡ n = omega arith in ap (λ k. drop k ys) none_before
drop-append n (x ∷ xs) ys =
    let shift : suc (length xs) + n ≡ suc (length xs + n) = omega arith in
    ap (λ k. drop k (x ∷ (xs ++ ys))) shift ∙ drop-append n xs ys

-- The last bars of a history are those of its end, if the end is long enough.
last-append :
    (n : ℕ) (old recent : List HistoricalBar)
    → n ≤ length recent
    → last n (old ++ recent) ≡ last n recent
last-append n old recent h =
    let same : length (old ++ recent) - n ≡ length old + (length recent - n) =
      omega (arith, length-append old recent) in
    ap (λ k. drop k (old ++ recent)) same ∙ drop-append (length recent - n) old recent

-- The signal of a strategy with valid windows rests on the last `long_window` bars alone: if there
-- are that many, bars before them do not change it.
pub decide_last :
    (s : MovingAverageStrategy) (old recent : List HistoricalBar) (has_position : Bool)
    → IsValidStrategy s
    → s.long_window ≤ length recent
    → decide_moving_average s (old ++ recent) has_position
      ≡ decide_moving_average s recent has_position
unfolding decide_moving_average
decide_last s old recent has_position v h =
    rw
      (
        last-append s.short_window old recent (omega (arith, v.short_lt_long, h)),
        last-append s.long_window old recent h,
      )
      (ground (arith, length-append old recent))

-- The strategy never says buy while a position is held, and never says sell while none is.
decide_fits :
    (s : MovingAverageStrategy) (history : List HistoricalBar)
    → (decide_moving_average s history true ≢ Signal.buy)
      × (decide_moving_average s history false ≢ Signal.sell)
unfolding decide_moving_average
decide_fits s history = ground arith
