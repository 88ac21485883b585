-- ===== src/Tests/AlpacaRuns.antt =====
-- A paper account that answers from a script, and the theorems of its adapter, of the
-- synchronisation, of its worker and of the first order at fixed inputs.
use broker_ai.Base.{◌≡◌, refl, false, if◌then◌else◌, none, some, List, [], ◌∷◌, nat_eq}
use broker_ai.Base.Dict.{lookup}
use broker_ai.Base.Int.{neg_ℤ}
use broker_ai.Base.Result.{Error, err}
use broker_ai.Decimal.{
  finite, cents, mul_int, negate, round, round_ratio, ulp, ulp_from, half_even, coefficient_bound,
  unit,
}
use broker_ai.Domain.Instrument.{Instrument, Exchange, Currency, AssetType}
use broker_ai.Domain.Order.{Order, OrderSide, order_beq}
use broker_ai.Domain.Transaction.{new_transaction}
use broker_ai.Domain.Text.{strip, lstrip, rstrip}
use broker_ai.Brokers.Simulated.{ExecutionStatus}
use broker_ai.Domain.Time.{aware}
use broker_ai.Brokers.Models.{BrokerOrder, BrokerOrderStatus, new_broker_order}
use broker_ai.Brokers.Alpaca.Json.{Json, Items, Fields, subscript, get}
use broker_ai.Brokers.Alpaca.Keys.{
  key_id, key_status, key_submitted_at, key_filled_qty, key_filled_avg_price, key_cash,
  key_updated_at,
}
use broker_ai.Brokers.Alpaca.Http.{HttpClient, Call, Resource, Reply, decode}
use broker_ai.Brokers.Alpaca.Answers.{Parsers, to_broker_order, filled_text, fill_of, map_status}
use broker_ai.Brokers.Alpaca.Adapter.{
  Adapter, new_adapter, paper_trading_url, market_data_url, submit_order, get_order, request,
}
use broker_ai.Brokers.Alpaca.Fills.{IsFaithful, to_broker_order-IsFaithful}
use broker_ai.Brokers.Alpaca.PaperOnly.{Command, IsPaper, run_all, run_all-paper}
use broker_ai.Brokers.Alpaca.Idempotence.{submit_order-again}

-- Texts as numbers by their length.
abbrev pub parsers : Parsers
parsers = record {
  decimal_of = λ t. some (finite (cents 500));
  uuid_of = λ t. some 9;
  datetime_of = λ t. some (aware 7);
  compound = λ j. [];
}

-- The answer to every call: a new order, and an account without positions.
abbrev answer : Json
answer = Json.object (
    Fields.field key_id (Json.text (b'9' ∷ [])) (
      Fields.field key_status (Json.text (b'n' ∷ b'e' ∷ b'w' ∷ [])) (
        Fields.field key_submitted_at (Json.text (b'7' ∷ []))
          (Fields.field key_cash (Json.text (b'5' ∷ [])) Fields.no_fields))))

-- A filled order, with and without the fields of its time.
abbrev filled_with : Fields → Json
filled_with more = Json.object (
    Fields.field key_id (Json.text (b'9' ∷ [])) (
      Fields.field key_status (Json.text filled_text) (
        Fields.field key_submitted_at (Json.text (b'7' ∷ [])) (
          Fields.field key_filled_qty (Json.text (b'5' ∷ []))
            (Fields.field key_filled_avg_price (Json.text (b'5' ∷ [])) more)))))

abbrev filled_answer : Json
filled_answer = filled_with (Fields.field key_updated_at (Json.text (b'7' ∷ [])) Fields.no_fields)

abbrev reply_to : Resource → Json
reply_to Resource.positions = Json.array Items.no_items
reply_to Resource.recent_orders = Json.array (Items.item answer Items.no_items)
reply_to _ = answer

-- A service that keeps the calls that were made to it.
abbrev service : HttpClient (List Call)
service = record {
  request = λ c log. (
    Reply.answered
        (record { status_code = 200; is_empty = false; json = some (reply_to c.resource) }),
    c ∷ log,
  );
}

-- Every call of the log only reads, or goes to the paper host.
abbrev IsPaperLog : List Call → Type 0
IsPaperLog [] = Unit
IsPaperLog (c ∷ log) = IsPaper c × IsPaperLog log

abbrev apple : Instrument
apple = record {
  symbol = b'A' ∷ [];
  name = b'A' ∷ [];
  exchange = Exchange.nasdaq;
  currency = Currency.usd;
  asset_type = AssetType.stock;
}

-- Five at 5.00
abbrev buy_five : Order
buy_five = record {
  instrument = apple;
  side = OrderSide.buy;
  quantity = 5;
  price = cents 500;
  order_id = 1;
}

abbrev pub opened : Adapter (List Call)
opened = record {
  headers = record { api_key_id = b'k' ∷ []; api_secret_key = b's' ∷ [] };
  trading_url = paper_trading_url;
  data_url = market_data_url;
  orders = [];
  broker_id_by_client_id = [];
  world = [];
}

abbrev used : Adapter (List Call)
used = (submit_order service parsers buy_five opened).1

abbrev pub first_record : BrokerOrder
first_record = record {
  broker_order_id = 9;
  order = buy_five;
  status = BrokerOrderStatus.submitted;
  submitted_at = aware 7;
  updated_at = aware 7;
  execution = none;
}

-- Five at 5.00 for 25.00.
abbrev filled_record : BrokerOrder
filled_record = record first_record {
  status = BrokerOrderStatus.filled;
  execution = some (record {
    order = buy_five;
    status = ExecutionStatus.filled;
    transaction = fill_of 9 buy_five 5 (cents 500) (aware 7);
  });
}

run_all-paper_example :
    IsPaperLog
      (run_all service parsers
        (Command.submit buy_five ∷ Command.cancel 9 ∷ Command.ask_price apple ∷ [])
        opened).world
unfolding new_adapter strip lstrip rstrip
run_all-paper_example =
    run_all-paper service parsers IsPaperLog (λ c paper log holds. (paper, holds)) (b'k' ∷ [])
      (b's' ∷ []) paper_trading_url market_data_url [] opened refl tt
      (Command.submit buy_five ∷ Command.cancel 9 ∷ Command.ask_price apple ∷ [])

submit_order-again_example :
    (lookup 9 used.orders ≡ some buy_five)
    × (submit_order service parsers buy_five used ≡ (
        if order_beq buy_five buy_five
        then get_order service parsers 9 used
        else (err Error.idempotency_conflict, used)))
unfolding submit_order request decode to_broker_order subscript get map_status new_broker_order
submit_order-again_example =
    submit_order-again service parsers buy_five buy_five opened used first_record refl refl refl

to_broker_order-IsFaithful_example : IsFaithful parsers filled_answer buy_five filled_record
unfolding to_broker_order subscript get map_status new_broker_order new_transaction mul_int round
    round_ratio ulp ulp_from half_even coefficient_bound unit negate neg_ℤ
to_broker_order-IsFaithful_example =
    to_broker_order-IsFaithful parsers filled_answer buy_five filled_record refl

-- A filled order without the time of its filling or update raises a `KeyError`, where every other
-- field that misses raises a broker's error.
time_of_filling_missing :
    to_broker_order parsers (filled_with Fields.no_fields) buy_five ≡ err Error.key_error
unfolding to_broker_order subscript get map_status unit
time_of_filling_missing = refl
