-- ===== src/Brokers/Local/Defs.antt =====
-- The state and the methods of both adapters. `uuid5` stands for the name-based UUID of a mode and a
-- client order ID; what the clock and `uuid4` return is given to a call. The methods are coroutines
-- that never wait, so each runs in one step.
use broker_ai.Base.{
  ℕ, Bool, not, if◌then◌else◌, Option, none, some, List, [], ◌∷◌, map, Text, text_eq, nat_eq,
}
use broker_ai.Base.Result.{Result, Error, ok, err, Action, seq, give, then_do}
use broker_ai.Base.Dict.{Dict, lookup, insert}
use broker_ai.Domain.Instrument.{Instrument, instrument_beq}
use broker_ai.Domain.Order.{Order, order_beq}
use broker_ai.Domain.Market.{MarketPrice}
use broker_ai.Domain.Portfolio.{Portfolio}
use broker_ai.Domain.Time.{Datetime}
use broker_ai.Brokers.Simulated.{SimulatedBroker, Execution, execute}
use broker_ai.Brokers.Models.{
  BrokerMode, BrokerOrder, BrokerOrderStatus, BrokerStatus, ConnectionState, new_broker_order,
}

pub record LocalBroker : Type 0 where
  pub portfolio : Portfolio
  pub prices : Dict Text MarketPrice
  pub broker : SimulatedBroker
  pub connected : Bool
  pub orders : Dict ℕ BrokerOrder
  pub client_ids : Dict ℕ ℕ

unfoldable pub set_connected : Bool → LocalBroker → LocalBroker
set_connected connected s = record s { connected = connected }

-- `_require_connection`, before the rest of a method
abbrev pub connected_do : {A : Type 0} → Action LocalBroker A → Action LocalBroker A
connected_do m s = if s.connected then m s else (err Error.unavailable, s)

-- A look-up that raises if nothing is there.
abbrev pub or_raise : {A : Type 0} → Option A → Error → Result A
or_raise none e = err e
or_raise (some a) e = ok a

unfoldable pub get_status : BrokerMode → Datetime → LocalBroker → BrokerStatus
get_status mode now s = record {
  mode = mode;
  connection = if s.connected then ConnectionState.connected else ConnectionState.disconnected;
  checked_at = now;
}

abbrev pub own_quote : Instrument → Option MarketPrice → Result MarketPrice
own_quote i none = err Error.unavailable
own_quote i (some quote) =
    if not (instrument_beq quote.instrument i) then err Error.unavailable else ok quote

unfoldable pub get_market_price : Instrument → Action LocalBroker MarketPrice
get_market_price i = connected_do λ s. (own_quote i (lookup i.symbol s.prices), s)

unfoldable pub get_order : ℕ → Action LocalBroker BrokerOrder
get_order order_id =
    connected_do λ s. (or_raise (lookup order_id s.orders) Error.order_not_found, s)

-- Writing an order that was constructed, or passing on what the constructor raised.
abbrev pub store_order : ℕ → LocalBroker → Result BrokerOrder → Result BrokerOrder × LocalBroker
store_order broker_id s (err e) = (err e, s)
store_order broker_id s (ok o) = (ok o, record s { orders = insert broker_id o s.orders })

abbrev pub cancel_by_status :
    BrokerOrderStatus → ℕ → Datetime → BrokerOrder → Action LocalBroker BrokerOrder
cancel_by_status BrokerOrderStatus.cancelled id now existing s = (ok existing, s)
cancel_by_status BrokerOrderStatus.submitted id now existing s =
    store_order id s (
      new_broker_order (record existing { status = BrokerOrderStatus.cancelled; updated_at = now }))
cancel_by_status _ id now existing s = (err Error.order_state, s)

unfoldable pub cancel_order : ℕ → Datetime → Action LocalBroker BrokerOrder
cancel_order order_id now =
    seq (get_order order_id) λ existing. cancel_by_status existing.status order_id now existing

-- `_existing_for`
abbrev pub find_order : Option ℕ → Dict ℕ BrokerOrder → Option BrokerOrder
find_order none orders = none
find_order (some broker_id) orders = lookup broker_id orders

abbrev pub same_content : Order → Option BrokerOrder → Result (Option BrokerOrder)
same_content order none = ok none
same_content order (some existing) =
    if not (order_beq existing.order order)
    then err Error.idempotency_conflict
    else ok (some existing)

unfoldable pub existing_for : Order → LocalBroker → Result (Option BrokerOrder)
existing_for order s = same_content order (find_order (lookup order.order_id s.client_ids) s.orders)

-- `if existing := self._existing_for(order): return existing`
abbrev pub unless_existing :
    Result (Option BrokerOrder) → Action LocalBroker BrokerOrder → Action LocalBroker BrokerOrder
unless_existing (err e) m s = (err e, s)
unless_existing (ok (some existing)) m s = (ok existing, s)
unless_existing (ok none) m s = m s

-- Both maps are written once the order is constructed.
abbrev pub register :
    ℕ → Order → LocalBroker → Result BrokerOrder → Result BrokerOrder × LocalBroker
register broker_id order s (err e) = (err e, s)
register broker_id order s (ok o) = (
  ok o,
  record s {
    client_ids = insert order.order_id broker_id s.client_ids;
    orders = insert broker_id o s.orders;
  },
)

-- A call of the simulated broker on the adapter's own portfolio.
abbrev pub executed :
    LocalBroker → Result Execution × (SimulatedBroker × Portfolio) → Result Execution × LocalBroker
executed s (r, (broker, portfolio)) = (r, record s { broker = broker; portfolio = portfolio })

abbrev pub filled_order : ℕ → Order → Execution → BrokerOrder
filled_order broker_id order execution = record {
  broker_order_id = broker_id;
  order = order;
  status = BrokerOrderStatus.filled;
  submitted_at = execution.transaction.executed_at;
  updated_at = execution.transaction.executed_at;
  execution = some execution;
}

abbrev pub submitted_order : ℕ → Order → Datetime → BrokerOrder
submitted_order broker_id order now = record {
  broker_order_id = broker_id;
  order = order;
  status = BrokerOrderStatus.submitted;
  submitted_at = now;
  updated_at = now;
  execution = none;
}

-- `tuple(self._orders_by_broker_id.values())`
abbrev pub values : Dict ℕ BrokerOrder → List BrokerOrder
values = map (λ e. e.1)

-- What the clock and the ID factory return while one order is reconciled.
pub record Draw : Type 0 where
  pub transaction_id : ℕ
  pub executed_at : Datetime
  pub now : Datetime

abbrev pub refused_order : BrokerOrder → Datetime → BrokerOrder
refused_order o now = record o { status = BrokerOrderStatus.rejected; updated_at = now }

abbrev pub executed_order : BrokerOrder → Execution → BrokerOrder
executed_order o execution = record o {
  status = BrokerOrderStatus.filled;
  execution = some execution;
  updated_at = execution.transaction.executed_at;
}

-- The `try` of the loop: the execution, and the updated record that may raise in its turn.
abbrev pub try_fill : BrokerOrder → Result Execution → Result BrokerOrder
try_fill o (err e) = err e
try_fill o (ok execution) = new_broker_order (executed_order o execution)

-- The `except (TypeError, ValueError)`, which covers all that the simulated broker raises.
abbrev pub or_refuse : BrokerOrder → Datetime → Result BrokerOrder → Result BrokerOrder
or_refuse o now (ok updated) = ok updated
or_refuse o now (err e) = new_broker_order (refused_order o now)

-- The body of the loop for one order that waits.
abbrev pub fill_order : ℕ → Draw → BrokerOrder → Action LocalBroker BrokerOrder
fill_order broker_id draw o s =
    let (r, s') =
      executed s (execute draw.transaction_id draw.executed_at o.order (s.broker, s.portfolio)) in
    store_order broker_id s' (or_refuse o draw.now (try_fill o r))

abbrev pub reconcile_one :
    BrokerOrderStatus → ℕ → Draw → BrokerOrder → Action LocalBroker (Unit {0})
reconcile_one BrokerOrderStatus.submitted broker_id draw o =
    seq (fill_order broker_id draw o) λ _. give tt
reconcile_one _ broker_id draw o = give tt

-- The loop over the orders as they stood when it began.
unfoldable pub reconcile_each : (ℕ → Draw) → Dict ℕ BrokerOrder → Action LocalBroker (Unit {0})
reconcile_each draws [] = give tt
reconcile_each draws ((broker_id, o) ∷ rest) =
    seq (reconcile_one o.status broker_id (draws broker_id) o) λ _. reconcile_each draws rest

-- `_LocalBrokerAdapter.reconcile_orders`, which the simulator adapter inherits
unfoldable pub list_orders : Action LocalBroker (List BrokerOrder)
list_orders = connected_do λ s. (ok (values s.orders), s)

-- `LocalPaperBrokerAdapter.reconcile_orders`
unfoldable pub reconcile_orders : (ℕ → Draw) → Action LocalBroker (List BrokerOrder)
reconcile_orders draws =
    connected_do λ s. then_do (reconcile_each draws s.orders s) λ _ s'. (ok (values s'.orders), s')

module _ (uuid5 : BrokerMode → ℕ → ℕ) where
  -- `_new_submitted_order`
  unfoldable pub new_submitted_order :
      BrokerMode → Order → Datetime → Action LocalBroker BrokerOrder
  new_submitted_order mode order now s =
      let broker_id = uuid5 mode order.order_id in
      register broker_id order s (new_broker_order (submitted_order broker_id order now))

  -- The end of `SimulatorBrokerAdapter.submit_order`, after the execution
  abbrev pub register_filled :
      Order → Result Execution × LocalBroker → Result BrokerOrder × LocalBroker
  register_filled order (err e, s) = (err e, s)
  register_filled order (ok execution, s) =
      let broker_id = uuid5 BrokerMode.simulation order.order_id in
      register broker_id order s (new_broker_order (filled_order broker_id order execution))

  -- `SimulatorBrokerAdapter.submit_order`
  unfoldable pub submit_filled : ℕ → Datetime → Order → Action LocalBroker BrokerOrder
  submit_filled transaction_id executed_at order = connected_do λ s.
      unless_existing (existing_for order s)
        (λ s.
          register_filled order
            (executed s (execute transaction_id executed_at order (s.broker, s.portfolio))))
        s

  -- `LocalPaperBrokerAdapter.submit_order`
  unfoldable pub submit_waiting : Datetime → Order → Action LocalBroker BrokerOrder
  submit_waiting now order =
      connected_do λ s.
        unless_existing (existing_for order s) (new_submitted_order BrokerMode.paper order now) s
