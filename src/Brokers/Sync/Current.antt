-- ===== src/Brokers/Sync/Current.antt =====
-- The row of an order after a synchronisation, told from the answer of the broker.
use mathlib.Core.Option
use broker_ai.Base.{
  ℕ, ◌≡◌, refl, ◌∙◌, ◌==◌, if◌then◌else◌, Option, none, some, List, [], ◌∷◌, Text, Bool, true,
  false,
}
use broker_ai.Decimal.{Amount}
use broker_ai.Brokers.Alpaca.Recent.{AlpacaOrderSnapshot}
use broker_ai.Server.Database.{BrokerOrderRow}
use broker_ai.Brokers.Sync.Defs.{alpaca, paper, instant, row_of}
use broker_ai.Brokers.Sync.Orders.{column, merged, latest}

-- What an order is from its submission on, as a row keeps it.
pub record Terms : Type 0 where
  pub broker_order_id : ℕ
  pub broker : Text
  pub environment : Text
  pub symbol : Text
  pub side : Text
  pub order_type : Text
  pub quantity : Amount
  pub limit_price : Option Amount
  pub submitted_at : ℕ

-- What has become of an order.
pub record Progress : Type 0 where
  pub client_order_id : Option Text
  pub filled_quantity : Amount
  pub average_fill_price : Option Amount
  pub status : Text
  pub updated_at : ℕ
  pub synced_at : ℕ

abbrev pub terms : BrokerOrderRow → Terms
terms r = record {
  broker_order_id = r.broker_order_id;
  broker = r.broker;
  environment = r.environment;
  symbol = r.symbol;
  side = r.side;
  order_type = r.order_type;
  quantity = r.quantity;
  limit_price = r.limit_price;
  submitted_at = r.submitted_at;
}

abbrev pub progress : BrokerOrderRow → Progress
progress r = record {
  client_order_id = r.client_order_id;
  filled_quantity = r.filled_quantity;
  average_fill_price = r.average_fill_price;
  status = r.status;
  updated_at = r.updated_at;
  synced_at = r.synced_at;
}

-- The same of an order at Alpaca Paper.
abbrev pub terms_at_broker : AlpacaOrderSnapshot → Terms
terms_at_broker o = record {
  broker_order_id = o.broker_order_id;
  broker = alpaca;
  environment = paper;
  symbol = o.symbol;
  side = o.side;
  order_type = o.order_type;
  quantity = o.quantity;
  limit_price = o.limit_price;
  submitted_at = instant o.submitted_at;
}

abbrev pub progress_at_broker : ℕ → AlpacaOrderSnapshot → Progress
progress_at_broker at o = record {
  client_order_id = column o.client_order_id;
  filled_quantity = o.filled_quantity;
  average_fill_price = o.average_fill_price;
  status = o.status;
  updated_at = instant o.updated_at;
  synced_at = at;
}

-- The first and the last snapshot of an order in the answer.
abbrev pub first_of : ℕ → List AlpacaOrderSnapshot → Option AlpacaOrderSnapshot
first_of id [] = none
first_of id (o ∷ os) = if o.broker_order_id == id then some o else first_of id os

abbrev pub last_of : ℕ → List AlpacaOrderSnapshot → Option AlpacaOrderSnapshot
last_of id [] = none
last_of id (o ∷ os) = elim (last_of id os) [
  | some l ↦ some l
  | none ↦ if o.broker_order_id == id then some o else none
]

abbrev pub either : {A : Type 0} → Option A → Option A → Option A
either (some a) b = some a
either none b = b

-- The row of an order after a synchronisation: its terms are those of the row before, or else those
-- of the first snapshot of the order; its progress is that of the last snapshot, or else that of the
-- row before.
pub record IsCurrent (at id : ℕ) (orders : List AlpacaOrderSnapshot)
    (before after : Option BrokerOrderRow) : Type 0 where
  pub same_terms :
      Option.map terms after
      ≡ either (Option.map terms before) (Option.map terms_at_broker (first_of id orders))
  pub last_progress :
      Option.map progress after
      ≡ either (Option.map (progress_at_broker at) (last_of id orders)) (Option.map progress before)

-- The row before the snapshots that follow the first.
abbrev next : ℕ → ℕ → AlpacaOrderSnapshot → Option BrokerOrderRow → Option BrokerOrderRow
next at id o old =
    if o.broker_order_id == id then merged (row_of at o (column o.client_order_id)) old else old

latest-terms :
    (at id : ℕ) (orders : List AlpacaOrderSnapshot) (old : Option BrokerOrderRow)
    → Option.map terms (latest at id orders old)
      ≡ either (Option.map terms old) (Option.map terms_at_broker (first_of id orders))
latest-terms at id [] none = refl
latest-terms at id [] (some r) = refl
latest-terms at id (o ∷ os) old =
    latest-terms at id os (next at id o old) ∙ joined (o.broker_order_id == id) old
  where
    joined :
        (b : Bool) (old : Option BrokerOrderRow)
        → either
            (Option.map terms
              (if b then merged (row_of at o (column o.client_order_id)) old else old))
            (Option.map terms_at_broker (first_of id os))
          ≡ either
              (Option.map terms old)
              (Option.map terms_at_broker (if b then some o else first_of id os))
    joined true none = refl
    joined true (some r) = refl
    joined false old = refl

latest-progress :
    (at id : ℕ) (orders : List AlpacaOrderSnapshot) (old : Option BrokerOrderRow)
    → Option.map progress (latest at id orders old)
      ≡ either (Option.map (progress_at_broker at) (last_of id orders)) (Option.map progress old)
latest-progress at id [] old = refl
latest-progress at id (o ∷ os) old =
    latest-progress at id os (next at id o old)
    ∙ joined (last_of id os) (o.broker_order_id == id) old
  where
    joined :
        (l : Option AlpacaOrderSnapshot) (b : Bool) (old : Option BrokerOrderRow)
        → either (Option.map (progress_at_broker at) l) (
            Option.map progress
              (if b then merged (row_of at o (column o.client_order_id)) old else old))
          ≡ either
              (Option.map
                (progress_at_broker at)
                (elim l [ some l ↦ some l | none ↦ if b then some o else none ]))
              (Option.map progress old)
    joined (some l) b old = refl
    joined none true none = refl
    joined none true (some r) = refl
    joined none false old = refl

pub latest-IsCurrent :
    (at id : ℕ) (orders : List AlpacaOrderSnapshot) (old : Option BrokerOrderRow)
    → IsCurrent at id orders old (latest at id orders old)
latest-IsCurrent at id orders old = record {
  same_terms = latest-terms at id orders old;
  last_progress = latest-progress at id orders old;
}
