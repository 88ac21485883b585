-- ===== src/Brokers/Alpaca/Answers.antt =====
-- What the adapter makes of an answer: the numbers and times in it, and the record of an order.
use broker_ai.Base.{
  ℕ, ◌/◌, ◌%◌, ◌==◌, not, ◌||◌, if◌then◌else◌, Option, none, some, [], ◌∷◌, Text, text_beq,
}
use broker_ai.Base.Int.{pos_part, leb_ℤ}
use broker_ai.Base.Result.{Result, Error, ok, err, raise_if, ◌>>◌, ◌>>=◌}
use broker_ai.Decimal.{Amount, Decimal, finite, non_finite, nought, unit, mul_int, negate}
use broker_ai.Domain.Time.{Datetime, aware, naive}
use broker_ai.Domain.Order.{Order, OrderSide}
use broker_ai.Domain.Transaction.{Transaction, new_transaction}
use broker_ai.Brokers.Simulated.{Execution, ExecutionStatus}
use broker_ai.Brokers.Models.{BrokerOrder, BrokerOrderStatus, new_broker_order}
use broker_ai.Brokers.Alpaca.Json.{Json, subscript, get, truth, str, with_offset}
use broker_ai.Brokers.Alpaca.Keys.{
  key_id, key_status, key_submitted_at, key_updated_at, key_filled_at, key_filled_qty,
  key_filled_avg_price,
}

-- The constructors of values from texts, which are not the adapter's own, and `str` of a list or an
-- object. `none` is an exception.
pub record Parsers : Type 0 where
  pub decimal_of : Text → Option Decimal
  pub uuid_of : Text → Option ℕ
  pub datetime_of : Text → Option Datetime
  pub compound : Json → Text

-- "filled", "canceled" and so on
abbrev pub filled_text : Text
filled_text = b'f' ∷ b'i' ∷ b'l' ∷ b'l' ∷ b'e' ∷ b'd' ∷ []

abbrev pub canceled_text : Text
canceled_text = b'c' ∷ b'a' ∷ b'n' ∷ b'c' ∷ b'e' ∷ b'l' ∷ b'e' ∷ b'd' ∷ []

abbrev pub expired_text : Text
expired_text = b'e' ∷ b'x' ∷ b'p' ∷ b'i' ∷ b'r' ∷ b'e' ∷ b'd' ∷ []

abbrev pub replaced_text : Text
replaced_text = b'r' ∷ b'e' ∷ b'p' ∷ b'l' ∷ b'a' ∷ b'c' ∷ b'e' ∷ b'd' ∷ []

abbrev pub rejected_text : Text
rejected_text = b'r' ∷ b'e' ∷ b'j' ∷ b'e' ∷ b'c' ∷ b't' ∷ b'e' ∷ b'd' ∷ []

abbrev pub suspended_text : Text
suspended_text = b's' ∷ b'u' ∷ b's' ∷ b'p' ∷ b'e' ∷ b'n' ∷ b'd' ∷ b'e' ∷ b'd' ∷ []

-- `_map_status`
unfoldable pub map_status : Text → BrokerOrderStatus
map_status value =
    if text_beq value filled_text
    then BrokerOrderStatus.filled
    else if text_beq value canceled_text
        || text_beq value expired_text
        || text_beq value replaced_text
    then BrokerOrderStatus.cancelled
    else if text_beq value rejected_text || text_beq value suspended_text
    then BrokerOrderStatus.rejected
    else BrokerOrderStatus.submitted

-- `except (KeyError, TypeError, ValueError)`, each turned into a broker's error
abbrev pub translated : {A : Type 0} → Result A → Result A
translated (err Error.key_error) = err Error.broker_failed
translated (err Error.type_error) = err Error.broker_failed
translated (err Error.value_error) = err Error.broker_failed
translated r = r

abbrev pub finite_only : Option Decimal → Result Amount
finite_only none = err Error.broker_failed
finite_only (some non_finite) = err Error.broker_failed
finite_only (some (finite a)) = ok a

-- The test of `_whole_number`, and `int(number)`
abbrev pub whole : Amount → Result ℕ
whole a =
    if not ((pos_part a % unit) == 0) || leb_ℤ a nought
    then err Error.broker_failed
    else ok (pos_part a / unit)

abbrev pub zoned : Option Datetime → Result Datetime
zoned none = err Error.value_error
zoned (some (naive _)) = err Error.value_error
zoned (some (aware t)) = ok (aware t)

-- `payload.get(key) or payload[other]`
abbrev pub get_or : Text → Text → Json → Result Json
get_or key other payload =
    get key Json.null payload >>= λ j. (if truth j then ok j else subscript other payload)

pub record Header : Type 0 where
  pub broker_id : ℕ
  pub status : BrokerOrderStatus
  pub submitted_at : Datetime
  pub updated_at : Datetime

abbrev pub cash_change : OrderSide → Amount → Amount
cash_change OrderSide.buy gross = negate gross
cash_change OrderSide.sell gross = gross

abbrev pub fill_of : ℕ → Order → ℕ → Amount → Datetime → Transaction
fill_of broker_id order quantity price executed_at = record {
  transaction_id = broker_id;
  order_id = order.order_id;
  instrument = order.instrument;
  side = order.side;
  quantity = quantity;
  price = price;
  gross_value = mul_int price quantity;
  fee = nought;
  cash_change = cash_change order.side (mul_int price quantity);
  realized_profit = nought;
  executed_at = executed_at;
}

-- The execution of a filled order, whose quantity, price and time are read in this order.
abbrev pub fill : ℕ → Order → Result ℕ → Result Amount → Result Datetime → Result Execution
fill broker_id order quantity price time = do
  filled_quantity ← quantity
  raise_if (not (filled_quantity == order.quantity)) Error.broker_failed
  fill_price ← price
  executed_at ← time
  transaction ← new_transaction (fill_of broker_id order filled_quantity fill_price executed_at)
  ok (record { order = order; status = ExecutionStatus.filled; transaction = transaction })

abbrev pub with_execution : Order → Header → Option Execution → Result BrokerOrder
with_execution order h execution = new_broker_order (record {
  broker_order_id = h.broker_id;
  order = order;
  status = h.status;
  submitted_at = h.submitted_at;
  updated_at = h.updated_at;
  execution = execution;
})

module _ (parsers : Parsers) where
  abbrev pub text_of : Json → Text
  text_of = str parsers.compound

  -- `UUID(str(value))`
  abbrev pub uuid : Json → Result ℕ
  uuid value = elim (parsers.uuid_of (text_of value)) [
    | none ↦ err Error.value_error
    | some id ↦ ok id
  ]

  -- `_decimal`
  abbrev pub decimal : Json → Result Amount
  decimal value = finite_only (parsers.decimal_of (text_of value))

  -- `_optional_decimal`
  abbrev pub optional_decimal : Json → Result (Option Amount)
  optional_decimal Json.null = ok none
  optional_decimal value = decimal value >>= λ a. ok (some a)

  -- `_whole_number`
  abbrev pub whole_number : Json → Result ℕ
  whole_number value = decimal value >>= whole

  -- `_parse_time`
  abbrev pub parse_time : Json → Result Datetime
  parse_time (Json.text t) = zoned (parsers.datetime_of (with_offset t))
  parse_time _ = err Error.value_error

  -- The `try` of `_to_broker_order`
  abbrev pub header_of : Json → Result Header
  header_of payload = translated (do
    id ← subscript key_id payload >>= uuid
    status ← subscript key_status payload
    submitted_at ← subscript key_submitted_at payload >>= parse_time
    updated_at ← get_or key_updated_at key_submitted_at payload >>= parse_time
    ok (record {
      broker_id = id;
      status = map_status (text_of status);
      submitted_at = submitted_at;
      updated_at = updated_at;
    }))

  -- The execution of a filled order.
  abbrev pub filled_execution : ℕ → Json → Order → Result Execution
  filled_execution broker_id payload order =
      fill broker_id order (get key_filled_qty Json.null payload >>= whole_number)
        (get key_filled_avg_price Json.null payload >>= decimal)
        (get_or key_filled_at key_updated_at payload >>= parse_time)

  abbrev pub execution_of : BrokerOrderStatus → ℕ → Json → Order → Result (Option Execution)
  execution_of BrokerOrderStatus.filled broker_id payload order =
      filled_execution broker_id payload order >>= λ e. ok (some e)
  execution_of _ broker_id payload order = ok none

  abbrev pub with_header : Json → Order → Header → Result BrokerOrder
  with_header payload order h =
      execution_of h.status h.broker_id payload order >>= with_execution order h

  -- `_to_broker_order`
  unfoldable pub to_broker_order : Json → Order → Result BrokerOrder
  to_broker_order payload order = header_of payload >>= with_header payload order
