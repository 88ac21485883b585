-- ===== src/Brokers/Sync/Defs.antt =====
-- `sync_alpaca_paper`. What `uuid4` and the clock return is given to a call; a text of ISO time is the
-- instant that it names.
use broker_ai.Base.{
  ℕ, Bool, true, false, ◌&&◌, ◌==◌, if◌then◌else◌, Option, none, some, List, [], ◌∷◌, ◌++◌, map,
  any_of, length, Text, text_beq,
}
use broker_ai.Base.Result.{Result, Error, ok, err, Action, then_do, ◌>>=◌}
use broker_ai.Decimal.{Amount}
use broker_ai.Domain.Instrument.{Currency}
use broker_ai.Domain.Time.{Datetime, aware, naive}
use broker_ai.Brokers.Models.{AccountSnapshot, PositionSnapshot}
use broker_ai.Brokers.Alpaca.Json.{Json}
use broker_ai.Brokers.Alpaca.Http.{HttpClient}
use broker_ai.Brokers.Alpaca.Answers.{Parsers}
use broker_ai.Brokers.Alpaca.Adapter.{Adapter, get_account}
use broker_ai.Brokers.Alpaca.Recent.{AlpacaOrderSnapshot, get_recent_order_snapshots}
use broker_ai.Server.Database.{
  Database, BrokerOrderRow, BrokerPositionRow, SyncRun, AuditEvent, AuditLog, audit,
}

-- The IDs and the times of one call.
pub record SyncDraw : Type 0 where
  pub run_id : ℕ
  pub started_at : ℕ
  pub account_at : Datetime
  pub synced_at : ℕ
  pub audit_id : ℕ
  pub audited_at : ℕ

-- "alpaca" and "paper"
abbrev pub alpaca : Text
alpaca = b'a' ∷ b'l' ∷ b'p' ∷ b'a' ∷ b'c' ∷ b'a' ∷ []

abbrev pub paper : Text
paper = b'p' ∷ b'a' ∷ b'p' ∷ b'e' ∷ b'r' ∷ []

-- "completed"
abbrev pub completed : Text
completed = b'c' ∷ b'o' ∷ b'm' ∷ b'p' ∷ b'l' ∷ b'e' ∷ b't' ∷ b'e' ∷ b'd' ∷ []

-- `isoformat()`
abbrev pub instant : Datetime → ℕ
instant (aware t) = t
instant (naive t) = t

-- What SQLite stores of a client ID in a column of texts: a list or an object is refused.
abbrev pub bind : Json → Result (Option Text)
bind Json.null = ok none
bind (Json.boolean true) = ok (some (b'1' ∷ []))
bind (Json.boolean false) = ok (some (b'0' ∷ []))
bind (Json.number t) = ok (some t)
bind (Json.text t) = ok (some t)
bind _ = err Error.binding_failed

abbrev pub row_of : ℕ → AlpacaOrderSnapshot → Option Text → BrokerOrderRow
row_of synced_at order client_order_id = record {
  broker_order_id = order.broker_order_id;
  broker = alpaca;
  environment = paper;
  client_order_id = client_order_id;
  symbol = order.symbol;
  side = order.side;
  order_type = order.order_type;
  quantity = order.quantity;
  filled_quantity = order.filled_quantity;
  limit_price = order.limit_price;
  average_fill_price = order.average_fill_price;
  status = order.status;
  submitted_at = instant order.submitted_at;
  updated_at = instant order.updated_at;
  synced_at = synced_at;
}

-- `DO UPDATE SET`
abbrev pub update_row : BrokerOrderRow → BrokerOrderRow → BrokerOrderRow
update_row excluded row = record row {
  client_order_id = excluded.client_order_id;
  filled_quantity = excluded.filled_quantity;
  average_fill_price = excluded.average_fill_price;
  status = excluded.status;
  updated_at = excluded.updated_at;
  synced_at = excluded.synced_at;
}

-- `INSERT ... ON CONFLICT(broker_order_id)`
unfoldable pub upsert : BrokerOrderRow → List BrokerOrderRow → List BrokerOrderRow
upsert row [] = row ∷ []
upsert row (r ∷ rows) =
    if r.broker_order_id == row.broker_order_id
    then update_row row r ∷ rows
    else r ∷ upsert row rows

-- The loop over the orders.
unfoldable pub upsert_all :
    ℕ → List AlpacaOrderSnapshot → List BrokerOrderRow → Result (List BrokerOrderRow)
upsert_all synced_at [] rows = ok rows
upsert_all synced_at (order ∷ orders) rows = bind order.client_order_id >>= λ client_order_id.
    upsert_all synced_at orders (upsert (row_of synced_at order client_order_id) rows)

abbrev pub is_paper : BrokerPositionRow → Bool
is_paper p = text_beq p.broker alpaca && text_beq p.environment paper

-- `DELETE FROM broker_positions`
unfoldable pub others : List BrokerPositionRow → List BrokerPositionRow
others [] = []
others (p ∷ ps) = if is_paper p then others ps else p ∷ others ps

abbrev pub position_row : ℕ → PositionSnapshot → BrokerPositionRow
position_row synced_at p = record {
  broker = alpaca;
  environment = paper;
  symbol = p.symbol;
  quantity = p.quantity;
  average_price = p.average_price;
  synced_at = synced_at;
}

abbrev pub same_key : BrokerPositionRow → BrokerPositionRow → Bool
same_key p q =
    text_beq p.broker q.broker && text_beq p.environment q.environment && text_beq p.symbol q.symbol

-- The inserts of the positions, whose key is the broker, the environment and the symbol.
unfoldable pub insert_positions :
    List BrokerPositionRow → List BrokerPositionRow → Result (List BrokerPositionRow)
insert_positions [] rows = ok rows
insert_positions (p ∷ ps) rows =
    if any_of (same_key p) rows
    then err Error.integrity_failed
    else insert_positions ps (rows ++ (p ∷ []))

unfoldable pub insert_run : SyncRun → List SyncRun → Result (List SyncRun)
insert_run run runs =
    if any_of (λ (r : SyncRun). r.id == run.id) runs
    then err Error.integrity_failed
    else ok (runs ++ (run ∷ []))

abbrev pub run_of : AccountSnapshot → List AlpacaOrderSnapshot → SyncDraw → SyncRun
run_of account orders draw = record {
  id = draw.run_id;
  broker = alpaca;
  environment = paper;
  orders_seen = length orders;
  positions_seen = length account.positions;
  started_at = draw.started_at;
  completed_at = draw.synced_at;
  status = completed;
}

-- The statements between `BEGIN` and `commit`.
unfoldable pub transaction :
    AccountSnapshot → List AlpacaOrderSnapshot → SyncDraw → Database → Result Database
transaction account orders draw db = do
  rows ← upsert_all draw.synced_at orders db.broker_orders
  positions ←
      insert_positions (map (position_row draw.synced_at) account.positions)
        (others db.broker_positions)
  runs ← insert_run (run_of account orders draw) db.broker_sync_runs
  ok (record db { broker_orders = rows; broker_positions = positions; broker_sync_runs = runs })

-- `commit`, or `rollback` and the exception
abbrev pub settle : Result Database → Action Database (Unit {0})
settle (ok after) db = (ok tt, after)
settle (err e) db = (err e, db)

pub record SyncResult : Type 0 where
  pub run_id : ℕ
  pub orders_seen : ℕ
  pub positions_seen : ℕ
  pub cash_balance : Amount
  pub currency : Currency
  pub completed_at : ℕ

abbrev pub sync_entry : AccountSnapshot → List AlpacaOrderSnapshot → SyncDraw → AuditLog
sync_entry account orders draw = record {
  id = draw.audit_id;
  event_type = AuditEvent.broker_sync_completed (length orders) (length account.positions);
  actor_id = none;
  entity_id = draw.run_id;
  created_at = draw.audited_at;
}

abbrev pub result_of : AccountSnapshot → List AlpacaOrderSnapshot → SyncDraw → SyncResult
result_of account orders draw = record {
  run_id = draw.run_id;
  orders_seen = length orders;
  positions_seen = length account.positions;
  cash_balance = account.cash_balance;
  currency = account.currency;
  completed_at = draw.synced_at;
}

-- The rest of `sync_alpaca_paper`, with what the broker has returned.
unfoldable pub store :
    AccountSnapshot → List AlpacaOrderSnapshot → SyncDraw → Action Database SyncResult
store account orders draw db = then_do (settle (transaction account orders draw db) db) λ _ db.
    then_do (audit (sync_entry account orders draw) db)
      λ _ db. (ok (result_of account orders draw), db)

-- An adapter and the tables.
pub record Synced (S : Type 0) : Type 0 where
  pub broker : Adapter S
  pub database : Database

module _ {S : Type 0} (client : HttpClient S) (parsers : Parsers) where
  -- A method of the adapter.
  abbrev pub on_broker : {A : Type 0} → Action (Adapter S) A → Action (Synced S) A
  on_broker m s = let (r, broker) = m s.broker in (r, record s { broker = broker })

  abbrev pub on_tables : {A : Type 0} → Action Database A → Action (Synced S) A
  on_tables m s = let (r, database) = m s.database in (r, record s { database = database })

  -- `sync_alpaca_paper`, with an adapter and tables that were given or made before
  unfoldable pub sync_alpaca_paper : SyncDraw → Action (Synced S) SyncResult
  sync_alpaca_paper draw s =
      then_do (on_broker (get_account client parsers draw.account_at) s) λ account s.
        then_do (on_broker (get_recent_order_snapshots client parsers) s)
          λ orders s. on_tables (store account orders draw) s
