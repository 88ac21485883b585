-- ===== src/Domain/Portfolio/Defs.antt =====
-- The fields and the mutating methods of `Portfolio`. Every method is an action on the portfolio: it
-- gives the result or the exception, and the portfolio as the call leaves it.
use broker_ai.Base.{ℕ, ◌==◌, if◌then◌else◌, not, Option, none, some, [], Text, text_eq}
use broker_ai.Base.Int.{ℤ, pos, ltb_ℤ, eqb_ℤ}
use broker_ai.Base.Result.{Result, Error, ok, err, raise_if, ◌>>◌, ◌>>=◌, Action, check}
use broker_ai.Base.Dict.{Dict, lookup, insert, erase}
use broker_ai.Decimal.{Amount, Decimal, nought, require_finite, add, sub, mul_int}
use broker_ai.Domain.Text.{strip, upper}
use broker_ai.Domain.Instrument.{Instrument, Currency, instrument_beq}
use broker_ai.Domain.Position.{
  Position, new_position, add_purchase, remove_sale, validate_trade_values,
}

pub record Portfolio : Type 0 where
  pub cash_balance : Amount
  pub currency : Currency
  pub positions : Dict Text Position
  pub realized_profit : Amount

-- `_validate_amount`
unfoldable pub validate_amount : Decimal → Result Amount
validate_amount amount = do
  a ← require_finite amount
  raise_if (ltb_ℤ a nought) Error.negative_amount
  ok a

-- `_validate_positive_amount`
unfoldable pub validate_positive_amount : Decimal → Result Amount
unfolding validate_amount
validate_positive_amount amount = do
  a ← validate_amount amount
  raise_if (eqb_ℤ a nought) Error.not_positive
  ok a

-- The constructor.
unfoldable pub new_portfolio : Decimal → Currency → Result Portfolio
unfolding validate_amount
new_portfolio cash currency = do
  a ← validate_amount cash
  ok (record { cash_balance = a; currency = currency; positions = []; realized_profit = nought })

unfoldable pub deposit : Decimal → Action Portfolio (Unit {0})
unfolding validate_positive_amount
deposit amount =
    check (validate_positive_amount amount)
      λ a p. (ok tt, record p { cash_balance = add p.cash_balance a })

unfoldable pub withdraw : Decimal → Action Portfolio (Unit {0})
unfolding validate_positive_amount
withdraw amount = check (validate_positive_amount amount) λ a p.
    if ltb_ℤ p.cash_balance a
    then (err Error.insufficient_cash, p)
    else (ok tt, record p { cash_balance = sub p.cash_balance a })

-- What a method of the position stored under a symbol does to the portfolio: the position is
-- changed in place.
abbrev pub put_position : Text → Position → Portfolio → Portfolio
put_position symbol position p = record p { positions = insert symbol position p.positions }

abbrev pub store_new : Text → Result Position → Portfolio → Result (Unit {0}) × Portfolio
store_new symbol (ok position) p = (ok tt, put_position symbol position p)
store_new symbol (err e) p = (err e, p)

abbrev pub purchase_into :
    Instrument → ℤ → Decimal → Option Position → Portfolio → Result (Unit {0}) × Portfolio
purchase_into instrument quantity price none p =
    store_new instrument.symbol (new_position instrument quantity price) p
purchase_into instrument quantity price (some position) p =
    if not (instrument_beq position.instrument instrument)
    then (err Error.other_instrument, p)
    else (let (r, changed) = add_purchase quantity price position in
        (r, put_position instrument.symbol changed p))

unfoldable pub record_purchase : Instrument → ℤ → Decimal → Action Portfolio (Unit {0})
unfolding validate_trade_values
record_purchase instrument quantity price =
    check (validate_trade_values quantity price)
      λ _ p. purchase_into instrument quantity price (lookup instrument.symbol p.positions) p

-- The end of `record_sale`: book the profit, and drop a position that is sold out.
abbrev pub book_sale :
    Text → ℕ → Amount → Result Amount × Position → Portfolio → Result (Unit {0}) × Portfolio
book_sale symbol quantity sale_price (err e, position) p = (err e, put_position symbol position p)
book_sale symbol quantity sale_price (ok cost_basis, position) p =
    let sale_value = mul_int sale_price quantity in
    let booked = record p { realized_profit = add p.realized_profit (sub sale_value cost_basis) } in
    (
      ok tt,
      if position.quantity == 0
          then record booked { positions = erase symbol p.positions }
          else put_position symbol position booked,
    )

abbrev pub sale_from :
    Instrument → ℕ → Amount → Option Position → Portfolio → Result (Unit {0}) × Portfolio
sale_from instrument quantity sale_price none p = (err Error.no_position, p)
sale_from instrument quantity sale_price (some position) p =
    if not (instrument_beq position.instrument instrument)
    then (err Error.other_instrument, p)
    else book_sale instrument.symbol quantity sale_price (remove_sale (pos quantity) position) p

unfoldable pub record_sale : Instrument → ℤ → Decimal → Action Portfolio (Unit {0})
unfolding validate_trade_values
record_sale instrument quantity sale_price =
    check (validate_trade_values quantity sale_price)
      λ values p. sale_from instrument values.0 values.1 (lookup instrument.symbol p.positions) p

unfoldable pub get_position : Text → Portfolio → Option Position
get_position symbol p = lookup (upper (strip symbol)) p.positions
