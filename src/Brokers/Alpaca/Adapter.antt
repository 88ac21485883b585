-- ===== src/Brokers/Alpaca/Adapter.antt =====
-- `AlpacaPaperBrokerAdapter`: its fields and methods. An HTTP client and what is behind it stand for
-- the world; what the clock returns is given to a call.
use broker_ai.Base.{
  ℕ, Bool, true, false, not, ◌&&◌, ◌||◌, ◌==◌, if◌then◌else◌, Option, none, some, List, [], ◌∷◌,
  Text, text_beq, nat_eq,
}
use broker_ai.Base.Result.{Result, Error, ok, err, Action, then_do, ◌>>=◌, ◌>>◌, raise_if}
use broker_ai.Base.Dict.{Dict, lookup, insert}
use broker_ai.Decimal.{Decimal}
use broker_ai.Domain.Instrument.{Instrument, Currency, currency_beq}
use broker_ai.Domain.Market.{MarketPrice, new_market_price}
use broker_ai.Domain.Order.{Order, order_beq}
use broker_ai.Domain.Text.{strip, upper, is_empty}
use broker_ai.Domain.Time.{Datetime}
use broker_ai.Brokers.Models.{
  BrokerOrder, BrokerStatus, BrokerMode, ConnectionState, AccountSnapshot, PositionSnapshot,
  new_position_snapshot, new_account_snapshot,
}
use broker_ai.Brokers.Alpaca.Json.{Json, Fields, items_of, subscript, get}
use broker_ai.Brokers.Alpaca.Keys.{
  key_symbol, key_qty, key_avg_entry_price, key_cash, key_trade, key_p, key_t,
}
use broker_ai.Brokers.Alpaca.Http.{HttpClient, Headers, Method, Resource, OrderBody, decode}
use broker_ai.Brokers.Alpaca.Answers.{
  Parsers, to_broker_order, decimal, whole_number, parse_time, text_of, translated,
}

-- `PAPER_TRADING_URL`
abbrev pub paper_trading_url : Text
paper_trading_url =
    b'h' ∷ b't' ∷ b't' ∷ b'p' ∷ b's' ∷ b':' ∷ b'/' ∷ b'/' ∷ b'p' ∷ b'a' ∷ b'p' ∷ b'e' ∷ b'r' ∷ b'-'
    ∷ b'a' ∷ b'p' ∷ b'i' ∷ b'.' ∷ b'a' ∷ b'l' ∷ b'p' ∷ b'a' ∷ b'c' ∷ b'a' ∷ b'.' ∷ b'm' ∷ b'a'
    ∷ b'r' ∷ b'k' ∷ b'e' ∷ b't' ∷ b's' ∷ []

-- `MARKET_DATA_URL`
abbrev pub market_data_url : Text
market_data_url =
    b'h' ∷ b't' ∷ b't' ∷ b'p' ∷ b's' ∷ b':' ∷ b'/' ∷ b'/' ∷ b'd' ∷ b'a' ∷ b't' ∷ b'a' ∷ b'.' ∷ b'a'
    ∷ b'l' ∷ b'p' ∷ b'a' ∷ b'c' ∷ b'a' ∷ b'.' ∷ b'm' ∷ b'a' ∷ b'r' ∷ b'k' ∷ b'e' ∷ b't' ∷ b's' ∷ []

-- The adapter, and the client and the world behind it as they are.
pub record Adapter (S : Type 0) : Type 0 where
  pub headers : Headers
  pub trading_url : Text
  pub data_url : Text
  pub orders : Dict ℕ Order
  pub broker_id_by_client_id : Dict ℕ ℕ
  pub world : S

-- `url.rstrip("/")`
abbrev pub rstrip_slash : Text → Text
rstrip_slash [] = []
rstrip_slash (c ∷ t) = let r = rstrip_slash t in if (c == b'/') && is_empty r then [] else c ∷ r

-- `__init__`
unfoldable pub new_adapter : {S : Type 0} → Text → Text → Text → Text → S → Result (Adapter S)
new_adapter api_key_id api_secret_key trading_base_url data_base_url world = do
  raise_if (is_empty (strip api_key_id) || is_empty (strip api_secret_key))
      Error.credentials_missing
  raise_if (not (text_beq (rstrip_slash trading_base_url) paper_trading_url)) Error.not_paper
  ok (record {
    headers = record { api_key_id = api_key_id; api_secret_key = api_secret_key };
    trading_url = paper_trading_url;
    data_url = rstrip_slash data_base_url;
    orders = [];
    broker_id_by_client_id = [];
    world = world;
  })

-- `_require_usd`
abbrev pub require_usd : Instrument → Result (Unit {0})
require_usd i = raise_if (not (currency_beq i.currency Currency.usd)) Error.broker_failed

-- `isinstance(payload, list)`
abbrev pub list_of : Json → Result (List Json)
list_of (Json.array items) = ok (items_of items)
list_of _ = err Error.broker_failed

-- An exception of the client that `_request` lets pass, which is no broker's error.
abbrev pub is_untranslated : Error → Bool
is_untranslated Error.http_failed = true
is_untranslated _ = false

module _ {S : Type 0} (client : HttpClient S) (parsers : Parsers) where
  -- `_request`
  unfoldable pub request :
      Method → Text → Resource → Option OrderBody → Bool → Action (Adapter S) Json
  request method host resource json empty_ok s =
      let (reply, world) =
        client.request
          (record {
            method = method;
            host = host;
            resource = resource;
            headers = s.headers;
            json = json;
          })
          s.world in
      (decode empty_ok reply, record s { world = world })

  -- `GET` of the trading service
  abbrev pub fetch : Resource → Action (Adapter S) Json
  fetch resource s = request Method.get s.trading_url resource none false s

  abbrev pub seen : ConnectionState → Datetime → BrokerStatus
  seen connection now = record {
    mode = BrokerMode.paper;
    connection = connection;
    checked_at = now;
  }

  abbrev pub status_of : Datetime → Result Json × Adapter S → Result BrokerStatus × Adapter S
  status_of now (ok _, s) = (ok (seen ConnectionState.connected now), s)
  status_of now (err e, s) =
      (if is_untranslated e then err e else ok (seen ConnectionState.disconnected now), s)

  -- `get_status`
  unfoldable pub get_status : Datetime → Action (Adapter S) BrokerStatus
  get_status now s = status_of now (fetch Resource.account s)

  -- `Decimal(str(value))`, with its exceptions translated
  abbrev pub price_of : Json → Result Decimal
  price_of value = elim (parsers.decimal_of (text_of parsers value)) [
    | none ↦ err Error.broker_failed
    | some d ↦ ok d
  ]

  abbrev pub quoted : Instrument → Json → Result MarketPrice
  quoted instrument payload = do
    trade ← get key_trade (Json.object Fields.no_fields) payload
    price ← translated (subscript key_p trade) >>= price_of
    observed_at ← translated (subscript key_t trade >>= parse_time parsers)
    new_market_price instrument price observed_at

  -- `get_market_price`
  unfoldable pub get_market_price : Instrument → Action (Adapter S) MarketPrice
  get_market_price instrument s =
      then_do (require_usd instrument, s)
        λ _ s.
          then_do
            (request Method.get s.data_url (Resource.latest_trade instrument.symbol) none false s)
            λ payload s. (quoted instrument payload, s)

  abbrev pub position_of : Json → Result PositionSnapshot
  position_of item = do
    quantity ← get key_qty Json.null item >>= whole_number parsers
    symbol ← subscript key_symbol item
    price ← get key_avg_entry_price Json.null item >>= decimal parsers
    new_position_snapshot (record {
      symbol = upper (strip (text_of parsers symbol));
      quantity = quantity;
      average_price = price;
    })

  abbrev pub each : {A B : Type 0} → (A → Result B) → List A → Result (List B)
  each f [] = ok []
  each f (x ∷ xs) = f x >>= λ y. each f xs >>= λ ys. ok (y ∷ ys)

  abbrev pub account_of : Datetime → Json → Json → Result AccountSnapshot
  account_of now account positions_payload = do
    items ← list_of positions_payload
    positions ← each position_of items
    cash ← get key_cash Json.null account >>= decimal parsers
    new_account_snapshot (record {
      cash_balance = cash;
      currency = Currency.usd;
      positions = positions;
      observed_at = now;
    })

  -- `get_account`
  unfoldable pub get_account : Datetime → Action (Adapter S) AccountSnapshot
  get_account now s = then_do (fetch Resource.account s) λ account s.
      then_do (fetch Resource.positions s) λ positions s. (account_of now account positions, s)

  -- The end of `get_order`, on the order that is known here.
  abbrev pub get_known : ℕ → Option Order → Action (Adapter S) BrokerOrder
  get_known id none s = (err Error.order_not_found, s)
  get_known id (some order) s =
      then_do (fetch (Resource.order_with id) s)
        λ payload s. (to_broker_order parsers payload order, s)

  -- `get_order`
  unfoldable pub get_order : ℕ → Action (Adapter S) BrokerOrder
  get_order id s = get_known id (lookup id s.orders) s

  abbrev pub body_of : Order → OrderBody
  body_of order = record {
    symbol = order.instrument.symbol;
    qty = order.quantity;
    side = order.side;
    limit_price = order.price;
    client_order_id = order.order_id;
  }

  abbrev pub remember : Order → BrokerOrder → Action (Adapter S) BrokerOrder
  remember order result s = (
    ok result,
    record s {
      orders = insert result.broker_order_id order s.orders;
      broker_id_by_client_id =
          insert order.order_id result.broker_order_id s.broker_id_by_client_id;
    },
  )

  -- A submission of a client ID that is new here.
  abbrev pub submit_new : Order → Action (Adapter S) BrokerOrder
  submit_new order s =
      then_do (request Method.post s.trading_url Resource.orders (some (body_of order)) false s)
        λ payload s. then_do (to_broker_order parsers payload order, s) (remember order)

  -- The test of the order that stands under the broker's ID.
  abbrev pub require_same : Order → Option Order → Result (Unit {0})
  require_same order none = err Error.key_error
  require_same order (some known) =
      if not (order_beq known order) then err Error.idempotency_conflict else ok tt

  abbrev pub submit_by_id : Order → Option ℕ → Action (Adapter S) BrokerOrder
  submit_by_id order none s = submit_new order s
  submit_by_id order (some id) s =
      then_do (require_same order (lookup id s.orders), s) λ _. get_order id

  -- `submit_order`
  unfoldable pub submit_order : Order → Action (Adapter S) BrokerOrder
  submit_order order s =
      then_do (require_usd order.instrument, s)
        λ _ s. submit_by_id order (lookup order.order_id s.broker_id_by_client_id) s

  abbrev pub cancel_known : ℕ → Option Order → Action (Adapter S) BrokerOrder
  cancel_known id none s = (err Error.order_not_found, s)
  cancel_known id (some _) s =
      then_do (request Method.delete s.trading_url (Resource.order_with id) none true s)
        λ _. get_order id

  -- `cancel_order`
  unfoldable pub cancel_order : ℕ → Action (Adapter S) BrokerOrder
  cancel_order id s = cancel_known id (lookup id s.orders) s

  abbrev pub get_each : Dict ℕ Order → Action (Adapter S) (List BrokerOrder)
  get_each [] s = (ok [], s)
  get_each ((id, _) ∷ rest) s =
      then_do (get_order id s) λ b s. then_do (get_each rest s) λ bs s. (ok (b ∷ bs), s)

  -- `reconcile_orders`
  unfoldable pub reconcile_orders : Action (Adapter S) (List BrokerOrder)
  reconcile_orders s = get_each s.orders s
