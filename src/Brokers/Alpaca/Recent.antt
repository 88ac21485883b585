-- ===== src/Brokers/Alpaca/Recent.antt =====
-- `get_recent_order_snapshots`: the orders of the account, those of earlier processes too.
use broker_ai.Base.{ℕ, Option, List, [], ◌∷◌, Text}
use broker_ai.Base.Result.{Result, ok, Action, then_do, ◌>>=◌}
use broker_ai.Decimal.{Amount}
use broker_ai.Domain.Text.{strip, upper}
use broker_ai.Domain.Time.{Datetime}
use broker_ai.Brokers.Alpaca.Json.{Json, subscript, get}
use broker_ai.Brokers.Alpaca.Keys.{
  key_id, key_symbol, key_qty, key_client_order_id, key_side, key_type, key_status, key_filled_qty,
  key_limit_price, key_filled_avg_price, key_submitted_at, key_updated_at,
}
use broker_ai.Brokers.Alpaca.Http.{HttpClient, Resource}
use broker_ai.Brokers.Alpaca.Answers.{
  Parsers, decimal, optional_decimal, parse_time, uuid, text_of, translated, get_or,
}
use broker_ai.Brokers.Alpaca.Adapter.{Adapter, fetch, list_of, each}

-- The client's ID is whatever JSON value the answer holds.
pub record AlpacaOrderSnapshot : Type 0 where
  pub broker_order_id : ℕ
  pub client_order_id : Json
  pub symbol : Text
  pub side : Text
  pub order_type : Text
  pub quantity : Amount
  pub filled_quantity : Amount
  pub limit_price : Option Amount
  pub average_fill_price : Option Amount
  pub status : Text
  pub submitted_at : Datetime
  pub updated_at : Datetime

module _ {S : Type 0} (client : HttpClient S) (parsers : Parsers) where
  abbrev pub snapshot_of : Json → Result AlpacaOrderSnapshot
  snapshot_of item = translated (do
    id ← subscript key_id item >>= uuid parsers
    client_order_id ← get key_client_order_id Json.null item
    symbol ← subscript key_symbol item
    side ← subscript key_side item
    order_type ← subscript key_type item
    quantity ← subscript key_qty item >>= decimal parsers
    filled ← get key_filled_qty (Json.text (b'0' ∷ [])) item >>= decimal parsers
    limit_price ← get key_limit_price Json.null item >>= optional_decimal parsers
    average ← get key_filled_avg_price Json.null item >>= optional_decimal parsers
    status ← subscript key_status item
    submitted_at ← subscript key_submitted_at item >>= parse_time parsers
    updated_at ← get_or key_updated_at key_submitted_at item >>= parse_time parsers
    ok (record {
      broker_order_id = id;
      client_order_id = client_order_id;
      symbol = upper (strip (text_of parsers symbol));
      side = text_of parsers side;
      order_type = text_of parsers order_type;
      quantity = quantity;
      filled_quantity = filled;
      limit_price = limit_price;
      average_fill_price = average;
      status = text_of parsers status;
      submitted_at = submitted_at;
      updated_at = updated_at;
    }))

  -- `get_recent_order_snapshots`
  unfoldable pub get_recent_order_snapshots : Action (Adapter S) (List AlpacaOrderSnapshot)
  get_recent_order_snapshots s =
      then_do (fetch client parsers Resource.recent_orders s)
        λ payload s. (list_of payload >>= each client parsers snapshot_of, s)
