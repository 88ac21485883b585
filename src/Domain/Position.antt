-- ===== src/Domain/Position.antt =====
-- src/broker_ai/domain/portfolio.py, class Position: units of one instrument at a weighted average
-- price. A method returns its result, or the exception, and the position after the call.
use broker_ai.Base.{ℕ, ◌+◌, ◌-◌, ◌<◌, ◌≡◌, ltb, if◌then◌else◌, arith}
use broker_ai.Base.Int.{ℤ, pos, pos_part, leb_ℤ, ◌<ℤ◌}
use broker_ai.Base.Result.{Result, Error, ok, err, ◌>>=◌, Action, check}
use broker_ai.Decimal.{Amount, Decimal, nought, require_positive, add, sub, mul_int, div_int}
use broker_ai.Decimal.Signs.{average_pos}
use broker_ai.Domain.Instrument.{Instrument}

pub record Position : Type 0 where
  pub instrument : Instrument
  pub quantity : ℕ
  pub average_price : Amount

-- `Position._validate_price`
abbrev pub validate_price : Decimal → Result Amount
validate_price = require_positive

-- The tests on a Python int that must be positive.
abbrev pub validate_quantity : ℤ → Result ℕ
validate_quantity q = if leb_ℤ q (pos 0) then err Error.quantity_not_positive else ok (pos_part q)

-- `Position._validate_trade_values`
unfoldable pub validate_trade_values : ℤ → Decimal → Result (ℕ × Amount)
validate_trade_values quantity price = do
  q ← validate_quantity quantity
  p ← validate_price price
  ok (q, p)

-- The constructor.
unfoldable pub new_position : Instrument → ℤ → Decimal → Result Position
unfolding validate_trade_values
new_position instrument quantity average_price = do
  values ← validate_trade_values quantity average_price
  ok (record { instrument = instrument; quantity = values.0; average_price = values.1 })

-- `add_purchase`, once its values are validated.
abbrev pub bought : ℕ → Amount → Position → Position
bought quantity price p =
    let existing_value = mul_int p.average_price p.quantity in
    let purchase_value = mul_int price quantity in
    let new_quantity = p.quantity + quantity in
    record p {
      average_price = div_int (add existing_value purchase_value) new_quantity;
      quantity = new_quantity;
    }

unfoldable pub add_purchase : ℤ → Decimal → Action Position (Unit {0})
unfolding validate_trade_values
add_purchase quantity price =
    check (validate_trade_values quantity price) λ values p. (ok tt, bought values.0 values.1 p)

-- The test that the units are held keeps the difference at zero or above, where the subtraction is that
-- of Python's int.
unfoldable pub remove_sale : ℤ → Action Position Amount
remove_sale quantity = check (validate_quantity quantity) λ q p.
    if ltb p.quantity q
    then (err Error.insufficient_shares, p)
    else (ok (mul_int p.average_price q), record p { quantity = p.quantity - q })

unfoldable pub market_value : Position → Decimal → Result Amount
market_value p current_price = do
  price ← validate_price current_price
  ok (mul_int price p.quantity)

unfoldable pub unrealized_profit : Position → Decimal → Result Amount
unrealized_profit p current_price = do
  price ← validate_price current_price
  ok (mul_int (sub price p.average_price) p.quantity)

-- What the constructor guarantees, and every method keeps until the last unit is sold.
pub record IsValidPosition (p : Position) : Type 0 where
  pub quantity_pos : 0 < p.quantity
  pub average_pos : nought <ℤ p.average_price

pub new_position-IsValidPosition :
    (i : Instrument) (q : ℤ) (a : Decimal) {p : Position}
    → new_position i q a ≡ ok p
    → IsValidPosition p
unfolding new_position
new_position-IsValidPosition i q a e = ground arith

pub new_position-instrument :
    (i : Instrument) (q : ℤ) (a : Decimal) {p : Position}
    → new_position i q a ≡ ok p
    → p.instrument.symbol ≡ i.symbol
unfolding new_position
new_position-instrument i q a e = ground arith

-- Rounding never turns a weighted average of positive prices into zero.
pub bought-IsValidPosition :
    (q : ℕ) (price : Amount) (p : Position)
    → IsValidPosition p
    → 0 < q
    → nought <ℤ price
    → IsValidPosition (bought q price p)
bought-IsValidPosition q price p v hq hp = record {
  quantity_pos = omega arith;
  average_pos = average_pos p.average_price price p.quantity q v.average_pos hp v.quantity_pos hq;
}
