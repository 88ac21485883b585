-- ===== src/Brokers/Sync/Orders.antt =====
-- The rows of the orders, as the snapshots change them one after the other.
use broker_ai.Base.{
  ℕ, ◌≡◌, refl, sym, ap, ◌∙◌, arith, ◌==◌, ==_iff, if◌then◌else◌, Option, none, some, List, [], ◌∷◌,
  Text, true, false,
}
use broker_ai.Base.Result.{Result, ok, err, ◌>>=◌, Gives}
use broker_ai.Brokers.Alpaca.Json.{Json}
use broker_ai.Brokers.Alpaca.Recent.{AlpacaOrderSnapshot}
use broker_ai.Server.Database.{BrokerOrderRow, first_where}
use broker_ai.Brokers.Sync.Defs.{bind, row_of, update_row, upsert, upsert_all}

-- The row of an order, if there is one.
abbrev pub row_at : ℕ → List BrokerOrderRow → Option BrokerOrderRow
row_at id rows = first_where (λ (r : BrokerOrderRow). r.broker_order_id == id) rows

-- What a column of texts holds of a JSON value: a list and an object are not stored.
abbrev pub column : Json → Option Text
column (Json.text t) = some t
column (Json.number t) = some t
column (Json.boolean b) = some (if b then b'1' ∷ [] else b'0' ∷ [])
column _ = none

bind-column : (j : Json) → Gives (λ t. column j ≡ t) (bind j)
bind-column Json.null = refl
bind-column (Json.boolean true) = refl
bind-column (Json.boolean false) = refl
bind-column (Json.number t) = refl
bind-column (Json.text t) = refl
bind-column (Json.array items) = tt
bind-column (Json.object members) = tt

-- The row of an order after its snapshot.
abbrev pub merged : BrokerOrderRow → Option BrokerOrderRow → Option BrokerOrderRow
merged row none = some row
merged row (some old) = some (update_row row old)

-- The row of an order after all the snapshots, from the first to the last.
abbrev pub latest : ℕ → ℕ → List AlpacaOrderSnapshot → Option BrokerOrderRow → Option BrokerOrderRow
latest at id [] old = old
latest at id (o ∷ os) old =
    latest at id os
      (if o.broker_order_id == id then merged (row_of at o (column o.client_order_id)) old else old)

row_at-upsert :
    (id : ℕ) (row : BrokerOrderRow) (rows : List BrokerOrderRow)
    → row_at id (upsert row rows)
      ≡ (if row.broker_order_id == id then merged row (row_at id rows) else row_at id rows)
unfolding upsert
row_at-upsert id row [] = refl
row_at-upsert id row (r ∷ rows) = ground (
  arith,
  row_at-upsert id row rows,
  ==_iff r.broker_order_id row.broker_order_id,
  ==_iff r.broker_order_id id,
  ==_iff row.broker_order_id id,
)

pub upsert_all-latest :
    (at : ℕ) (orders : List AlpacaOrderSnapshot) (rows : List BrokerOrderRow)
    → Gives
        (λ after. (id : ℕ) → row_at id after ≡ latest at id orders (row_at id rows))
        (upsert_all at orders rows)
unfolding upsert_all
upsert_all-latest at [] rows = λ id. refl
upsert_all-latest at (o ∷ orders) rows =
    go (λ t. upsert_all-latest at orders (upsert (row_of at o t) rows)) (bind o.client_order_id)
      (bind-column o.client_order_id)
  where
    after_first :
        (t : Option Text)
        → column o.client_order_id ≡ t
        → (r : Result (List BrokerOrderRow))
        → Gives
            (λ after.
              (id : ℕ)
              → row_at id after ≡ latest at id orders (row_at id (upsert (row_of at o t) rows)))
            r
        → Gives (λ after. (id : ℕ) → row_at id after ≡ latest at id (o ∷ orders) (row_at id rows)) r
    after_first t is (err e) g = tt
    after_first t is (ok after) g = λ id.
        g id
        ∙ ap (latest at id orders) (
            row_at-upsert id (row_of at o t) rows
            ∙ ap
                (λ (u : Option Text).
                  if o.broker_order_id == id
                  then merged (row_of at o u) (row_at id rows)
                  else row_at id rows)
                (sym is))

    go :
        ((t : Option Text)
          → Gives
              (λ after.
                (id : ℕ)
                → row_at id after ≡ latest at id orders (row_at id (upsert (row_of at o t) rows)))
              (upsert_all at orders (upsert (row_of at o t) rows)))
        → (b : Result (Option Text)) → Gives (λ t. column o.client_order_id ≡ t) b
        → Gives
            (λ after. (id : ℕ) → row_at id after ≡ latest at id (o ∷ orders) (row_at id rows))
            (b >>= λ t. upsert_all at orders (upsert (row_of at o t) rows))
    go later (err e) is = tt
    go later (ok t) is =
        after_first t is (upsert_all at orders (upsert (row_of at o t) rows)) (later t)
