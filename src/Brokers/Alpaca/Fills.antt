-- ===== src/Brokers/Alpaca/Fills.antt =====
-- The records that `_to_broker_order` makes.
use broker_ai.Base.{ℕ, ◌≡◌, refl, sym, subst, Option, none, some}
use broker_ai.Base.Result.{Result, ok, err, ◌>>=◌, Gives, bind-Gives}
use broker_ai.Domain.Order.{Order}
use broker_ai.Brokers.Simulated.{Execution}
use broker_ai.Brokers.Models.{BrokerOrder, BrokerOrderStatus}
use broker_ai.Brokers.Local.Idempotence.{new_broker_order_same}
use broker_ai.Brokers.Alpaca.Json.{Json, subscript, get}
use broker_ai.Brokers.Alpaca.Keys.{
  key_id, key_status, key_submitted_at, key_updated_at, key_filled_at, key_filled_qty,
  key_filled_avg_price,
}
use broker_ai.Brokers.Alpaca.Answers.{
  Parsers, to_broker_order, header_of, Header, execution_of, filled_execution, with_execution,
  with_header, get_or, parse_time, whole_number, decimal, uuid, map_status, text_of,
}
use broker_ai.Brokers.Alpaca.Readings.{
  HasAmount, HasId, units_of, decimal-HasAmount, whole_number-HasAmount, uuid-HasId,
  translated-Gives,
}
use broker_ai.Brokers.Alpaca.Whole.{IsWhole, Fills, fill-Fills}

module _ (parsers : Parsers) where
  -- The execution of a whole order as an answer tells it: named by the ID of the answer, of the
  -- quantity, at the price and at the time of the answer.
  pub record IsTold (payload : Json) (order : Order) (id : ℕ) (e : Execution) : Type 0 where
    pub whole_order : IsWhole order e
    pub named : e.transaction.transaction_id ≡ id
    pub counted : HasAmount parsers key_filled_qty payload (units_of order.quantity)
    pub priced : HasAmount parsers key_filled_avg_price payload e.transaction.price
    pub timed :
        (get_or key_filled_at key_updated_at payload >>= parse_time parsers)
        ≡ ok e.transaction.executed_at

  -- An order is filled just when there is an execution, which is that of the answer then.
  abbrev pub Records : Json → Order → ℕ → BrokerOrderStatus → Option Execution → Type 0
  Records payload order id BrokerOrderStatus.filled none = ⊥
  Records payload order id BrokerOrderStatus.filled (some e) = IsTold payload order id e
  Records payload order id _ none = Unit {0}
  Records payload order id _ (some e) = ⊥

  -- The status is the one that the text of the answer stands for.
  abbrev pub HasStatus : Json → BrokerOrderStatus → Type 0
  HasStatus payload status =
      (j : Json) × (subscript key_status payload ≡ ok j) × (status ≡ map_status (text_of parsers j))

  -- What the adapter returns of an order: its own content, with the ID, the status and the
  -- execution of the answer.
  pub record IsFaithful (payload : Json) (order : Order) (b : BrokerOrder) : Type 0 where
    pub of_order : b.order ≡ order
    pub named : HasId parsers key_id payload b.broker_order_id
    pub has_status : HasStatus payload b.status
    pub recorded : Records payload order b.broker_order_id b.status b.execution

  abbrev IsHead : Json → Header → Type 0
  IsHead payload h = HasId parsers key_id payload h.broker_id × HasStatus payload h.status

  header_of-IsHead : (payload : Json) → Gives (IsHead payload) (header_of parsers payload)
  header_of-IsHead payload = translated-Gives (IsHead payload) _ (
      bind-Gives (IsHead payload) (subscript key_id payload >>= uuid parsers) _ λ id named.
        bind-Gives (IsHead payload) (subscript key_status payload) _ λ j found.
          bind-Gives (IsHead payload) (subscript key_submitted_at payload >>= parse_time parsers) _
            λ submitted_at _.
              bind-Gives (IsHead payload)
                (get_or key_updated_at key_submitted_at payload >>= parse_time parsers) _
                λ updated_at _. (uuid-HasId parsers key_id payload named, (j, found, refl)))

  execution_of-Records :
      (status : BrokerOrderStatus) (id : ℕ) (payload : Json) (order : Order)
      → Gives (Records payload order id status) (execution_of parsers status id payload order)
  execution_of-Records BrokerOrderStatus.filled id payload order =
      go (filled_execution parsers id payload order) (fill-Fills id order _ _ _)
    where
      told :
          (e : Execution)
          → Fills id order
              (get key_filled_qty Json.null payload >>= whole_number parsers)
              (get key_filled_avg_price Json.null payload >>= decimal parsers)
              (get_or key_filled_at key_updated_at payload >>= parse_time parsers)
              e
          → IsTold payload order id e
      told e (all_of, named, quantity, price, time) = record {
        whole_order = all_of;
        named = named;
        counted = whole_number-HasAmount parsers key_filled_qty payload quantity;
        priced = decimal-HasAmount parsers key_filled_avg_price payload price;
        timed = time;
      }

      go :
          (r : Result Execution)
          → Gives
              (Fills id order
                (get key_filled_qty Json.null payload >>= whole_number parsers)
                (get key_filled_avg_price Json.null payload >>= decimal parsers)
                (get_or key_filled_at key_updated_at payload >>= parse_time parsers))
              r
          → Gives (Records payload order id BrokerOrderStatus.filled) (r >>= λ e. ok (some e))
      go (err e) h = tt
      go (ok e) h = told e h
  execution_of-Records BrokerOrderStatus.submitted id payload order = tt
  execution_of-Records BrokerOrderStatus.cancelled id payload order = tt
  execution_of-Records BrokerOrderStatus.rejected id payload order = tt

  with_execution-IsFaithful :
      (payload : Json) (order : Order) (h : Header) (execution : Option Execution)
      → IsHead payload h
      → Records payload order h.broker_id h.status execution
      → Gives (IsFaithful payload order) (with_execution order h execution)
  with_execution-IsFaithful payload order h execution (named, has_status) records =
      go (with_execution order h execution) refl
    where
      go :
          (r : Result BrokerOrder)
          → with_execution order h execution ≡ r
          → Gives (IsFaithful payload order) r
      go (err e) made = tt
      go (ok b) made =
          subst (IsFaithful payload order) (sym (new_broker_order_same _ made))
            (record { of_order = refl; named = named; has_status = has_status; recorded = records })

  to_broker_order_all :
      (payload : Json) (order : Order)
      → Gives (IsFaithful payload order) (to_broker_order parsers payload order)
  unfolding to_broker_order
  to_broker_order_all payload order = go (header_of parsers payload) (header_of-IsHead payload)
    where
      finish :
          (h : Header)
          → IsHead payload h
          → (r : Result (Option Execution)) → Gives (Records payload order h.broker_id h.status) r
          → Gives (IsFaithful payload order) (r >>= with_execution order h)
      finish h head (err e) k = tt
      finish h head (ok execution) k = with_execution-IsFaithful payload order h execution head k

      go :
          (r : Result Header)
          → Gives (IsHead payload) r
          → Gives (IsFaithful payload order) (r >>= with_header parsers payload order)
      go (err e) head = tt
      go (ok h) head =
          finish h head (execution_of parsers h.status h.broker_id payload order)
            (execution_of-Records h.status h.broker_id payload order)

  -- If the adapter makes a record of an answer, it is one of the order that was asked for, with the
  -- ID and the status that the answer tells; it has an execution just when the status is filled,
  -- and that is of the order's whole quantity, which is the amount of the answer in whole units, at
  -- the price and the time of the answer, worth this price times the quantity, without a fee, paid
  -- for a purchase and received for a sale.
  pub to_broker_order-IsFaithful :
      (payload : Json) (order : Order) (b : BrokerOrder)
      → to_broker_order parsers payload order ≡ ok b
      → IsFaithful payload order b
  to_broker_order-IsFaithful payload order b done =
      subst (Gives (IsFaithful payload order)) done (to_broker_order_all payload order)
