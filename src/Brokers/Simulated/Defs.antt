-- ===== src/Brokers/Simulated/Defs.antt =====
-- `SimulatedBroker` with its transaction log. `execute` changes the broker and the portfolio, so it
-- is an action on both; what the clock and the ID factory return is given to it.
use broker_ai.Base.{
  ℕ, ltb, ◌==◌, if◌then◌else◌, Bool, false, not, Option, none, some, List, [], ◌∷◌, ◌++◌, any_of,
}
use broker_ai.Base.Int.{pos, leb_ℤ, ltb_ℤ}
use broker_ai.Base.Result.{Result, Error, ok, err, raise_if, ◌>>◌, ◌>>=◌, Action, seq, give}
use broker_ai.Decimal.{
  Amount, Decimal, finite, nought, add, sub, div_int, negate, require_non_negative,
}
use broker_ai.Domain.Instrument.{Instrument, currency_beq, instrument_beq}
use broker_ai.Domain.Order.{Order, OrderSide, total_value}
use broker_ai.Domain.Position.{Position}
use broker_ai.Domain.Portfolio.{
  Portfolio, deposit, withdraw, record_purchase, record_sale, get_position,
}
use broker_ai.Domain.Time.{Datetime, require_aware}
use broker_ai.Domain.Transaction.{Transaction, new_transaction}

pub data ExecutionStatus : Type 0 where
  filled : ExecutionStatus

pub record Execution : Type 0 where
  pub order : Order
  pub status : ExecutionStatus
  pub transaction : Transaction

-- `Execution.executed_value`, `fee` and `cash_change`
abbrev pub executed_value : Execution → Amount
executed_value e = e.transaction.gross_value

pub record SimulatedBroker : Type 0 where
  pub fee_per_order : Amount
  pub transactions : List Transaction

unfoldable pub new_simulated_broker : Decimal → Result SimulatedBroker
new_simulated_broker fee_per_order = do
  fee ← require_non_negative fee_per_order
  ok (record { fee_per_order = fee; transactions = [] })

-- `_validate_transaction_metadata`
unfoldable pub validate_transaction_metadata : List Transaction → ℕ → Datetime → Result (Unit {0})
validate_transaction_metadata log transaction_id executed_at = do
  raise_if (any_of (λ t. t.transaction_id == transaction_id) log) Error.duplicate_transaction
  require_aware executed_at
  ok tt

-- `_execute_buy`
unfoldable pub execute_buy : Amount → Order → Action Portfolio Amount
execute_buy fee order p =
    let total_debit = add (total_value order) fee in
    let effective_unit_cost = div_int total_debit order.quantity in
    if ltb_ℤ p.cash_balance total_debit
    then (err Error.insufficient_cash, p)
    else seq (withdraw (finite total_debit))
        (λ _.
          seq (record_purchase order.instrument (pos order.quantity) (finite effective_unit_cost))
            (λ _. give (negate total_debit)))
        p

-- `_execute_sell`, on the position that `execute` found
unfoldable pub execute_sell : Amount → Order → Option Position → Action Portfolio Amount
execute_sell fee order none p = (err Error.no_position, p)
execute_sell fee order (some position) p =
    let net_proceeds = sub (total_value order) fee in
    if ltb position.quantity order.quantity
    then (err Error.insufficient_shares, p)
    else (if leb_ℤ net_proceeds nought
        then (err Error.proceeds_not_positive, p)
        else seq
            (record_sale order.instrument (pos order.quantity)
              (finite (div_int net_proceeds order.quantity)))
            (λ _. seq (deposit (finite net_proceeds)) (λ _. give net_proceeds)) p)

abbrev pub by_side : OrderSide → Amount → Order → Option Position → Action Portfolio Amount
by_side OrderSide.buy fee order existing = execute_buy fee order
by_side OrderSide.sell fee order existing = execute_sell fee order existing

-- `existing_position and existing_position.instrument != order.instrument`
abbrev pub is_foreign : Option Position → Instrument → Bool
is_foreign none i = false
is_foreign (some position) i = not (instrument_beq position.instrument i)

-- The checks of `execute` that come before any change.
unfoldable pub precheck :
    SimulatedBroker → Order → ℕ → Datetime → Portfolio → Result (Option Position)
precheck broker order transaction_id executed_at p = do
  validate_transaction_metadata broker.transactions transaction_id executed_at
  raise_if (not (currency_beq order.instrument.currency p.currency)) Error.currency_mismatch
  let existing = get_position order.instrument.symbol p
  raise_if (is_foreign existing order.instrument) Error.other_instrument
  ok existing

-- The record of an executed order; the profit is what the portfolio booked meanwhile.
abbrev pub transaction_of :
    SimulatedBroker → Order → ℕ → Datetime → Amount → Portfolio → Portfolio → Transaction
transaction_of broker order transaction_id executed_at cash_change before after = record {
  transaction_id = transaction_id;
  order_id = order.order_id;
  instrument = order.instrument;
  side = order.side;
  quantity = order.quantity;
  price = order.price;
  gross_value = total_value order;
  fee = broker.fee_per_order;
  cash_change = cash_change;
  realized_profit = sub after.realized_profit before.realized_profit;
  executed_at = executed_at;
}

-- The log is extended after the transaction has been constructed.
abbrev pub log_transaction :
    Order
    → SimulatedBroker
    → Portfolio
    → Result Transaction
    → Result Execution × (SimulatedBroker × Portfolio)
log_transaction order broker p (err e) = (err e, (broker, p))
log_transaction order broker p (ok t) = (
  ok (record { order = order; status = ExecutionStatus.filled; transaction = t }),
  (record broker { transactions = broker.transactions ++ (t ∷ []) }, p),
)

abbrev pub settle :
    Order
    → ℕ
    → Datetime
    → SimulatedBroker
    → Portfolio
    → Result Amount × Portfolio
    → Result Execution × (SimulatedBroker × Portfolio)
settle order transaction_id executed_at broker before (err e, after) = (err e, (broker, after))
settle order transaction_id executed_at broker before (ok cash_change, after) =
    log_transaction order broker after (
      new_transaction
        (transaction_of broker order transaction_id executed_at cash_change before after))

abbrev pub run_checked :
    Order → ℕ → Datetime → Result (Option Position) → Action (SimulatedBroker × Portfolio) Execution
run_checked order transaction_id executed_at (err e) s = (err e, s)
run_checked order transaction_id executed_at (ok existing) (broker, p) =
    settle order transaction_id executed_at broker p
      (by_side order.side broker.fee_per_order order existing p)

-- `SimulatedBroker.execute`
unfoldable pub execute : ℕ → Datetime → Order → Action (SimulatedBroker × Portfolio) Execution
execute transaction_id executed_at order (broker, p) =
    run_checked order transaction_id executed_at
      (precheck broker order transaction_id executed_at p) (broker, p)
