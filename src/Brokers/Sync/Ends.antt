-- ===== src/Brokers/Sync/Ends.antt =====
-- How a synchronisation ends.
use broker_ai.Base.{
  ℕ, ◌≡◌, ◌⊎◌, inl, inr, refl, Bool, true, none, ◌==◌, any_of, Bool-cases, List, [], ◌∷◌, ◌++◌,
  length,
}
use broker_ai.Base.Result.{Result, Error, ok, err, Action, then_do, Gives}
use broker_ai.Brokers.Models.{AccountSnapshot}
use broker_ai.Brokers.Alpaca.Http.{HttpClient}
use broker_ai.Brokers.Alpaca.Answers.{Parsers}
use broker_ai.Brokers.Alpaca.Adapter.{Adapter, get_account}
use broker_ai.Brokers.Alpaca.Recent.{AlpacaOrderSnapshot, get_recent_order_snapshots}
use broker_ai.Server.Database.{Database, AuditLog, AuditEvent, audit}
use broker_ai.Brokers.Sync.Defs.{
  SyncDraw, transaction, settle, SyncResult, sync_entry, result_of, store, Synced, on_broker,
  on_tables, sync_alpaca_paper,
}
use broker_ai.Brokers.Sync.Mirror.{Mirrors, transaction-Mirrors}

-- The entry that a run leaves in the audit log.
pub record IsEntryOf (account : AccountSnapshot) (orders : List AlpacaOrderSnapshot)
    (draw : SyncDraw) (entry : AuditLog) : Type 0 where
  pub named : entry.id ≡ draw.audit_id
  pub says :
      entry.event_type ≡ AuditEvent.broker_sync_completed (length orders) (length account.positions)
  pub by_nobody : entry.actor_id ≡ none
  pub of_run : entry.entity_id ≡ draw.run_id
  pub written : entry.created_at ≡ draw.audited_at

-- What a run returns.
pub record IsResultOf (account : AccountSnapshot) (orders : List AlpacaOrderSnapshot)
    (draw : SyncDraw) (result : SyncResult) : Type 0 where
  pub of_run : result.run_id ≡ draw.run_id
  pub all_orders : result.orders_seen ≡ length orders
  pub all_positions : result.positions_seen ≡ length account.positions
  pub same_cash : result.cash_balance ≡ account.cash_balance
  pub same_currency : result.currency ≡ account.currency
  pub ended : result.completed_at ≡ draw.synced_at

abbrev pub is_taken : ℕ → List AuditLog → Bool
is_taken id log = any_of (λ (a : AuditLog). a.id == id) log

-- How a run ends whose tables are committed: the ID of its audit is taken, and it raises with no
-- entry written; or it adds its entry to the audit log and returns what it has seen.
abbrev pub Audited :
    AccountSnapshot
    → List AlpacaOrderSnapshot
    → SyncDraw
    → Database
    → Result SyncResult
    → Database
    → Type 0
Audited account orders draw committed r after =
    ((is_taken draw.audit_id committed.audit_logs ≡ true)
      × (r ≡ err Error.integrity_failed)
      × (after ≡ committed))
    ⊎ ((entry : AuditLog) × (result : SyncResult) × (r ≡ ok result)
        × (after ≡ record committed { audit_logs = committed.audit_logs ++ (entry ∷ []) })
        × IsEntryOf account orders draw entry
        × IsResultOf account orders draw result)

-- How `store` ends: with an exception, and the tables as they were, since what was written is
-- rolled back; or with tables committed for which Mirrors holds, and the audit of the run.
abbrev pub Stored :
    AccountSnapshot
    → List AlpacaOrderSnapshot
    → SyncDraw
    → Database
    → Result SyncResult
    → Database
    → Type 0
Stored account orders draw before r after =
    ((e : Error) × (r ≡ err e) × (after ≡ before))
    ⊎ ((committed : Database) × Mirrors account orders draw before committed
        × Audited account orders draw committed r after)

abbrev ending : AccountSnapshot → List AlpacaOrderSnapshot → SyncDraw → Action Database SyncResult
ending account orders draw db =
    then_do (audit (sync_entry account orders draw) db)
      λ _ t. (ok (result_of account orders draw), t)

ending-Audited :
    (account : AccountSnapshot) (orders : List AlpacaOrderSnapshot) (draw : SyncDraw)
    (db : Database)
    → Audited account orders draw db
        (ending account orders draw db).0
        (ending account orders draw db).1
unfolding audit
ending-Audited account orders draw db = elim (Bool-cases (is_taken draw.audit_id db.audit_logs)) [
  | inl taken ↦ inl (taken, rw taken refl, rw taken refl)
  | inr free ↦ inr (
    sync_entry account orders draw,
    result_of account orders draw,
    rw free refl,
    rw free refl,
    record { named = refl; says = refl; by_nobody = refl; of_run = refl; written = refl },
    record {
      of_run = refl;
      all_orders = refl;
      all_positions = refl;
      same_cash = refl;
      same_currency = refl;
      ended = refl;
    },
  )
]

store-Stored :
    (account : AccountSnapshot) (orders : List AlpacaOrderSnapshot) (draw : SyncDraw)
    (db : Database)
    → Stored account orders draw db
        (store account orders draw db).0
        (store account orders draw db).1
unfolding store
store-Stored account orders draw db =
    go (transaction account orders draw db) (transaction-Mirrors account orders draw db)
  where
    go :
        (r : Result Database)
        → Gives (Mirrors account orders draw db) r
        → (let x = then_do (settle r db) λ _ t. ending account orders draw t in
            Stored account orders draw db x.0 x.1)
    go (err e) g = inl (e, refl, refl)
    go (ok committed) g = inr (committed, g, ending-Audited account orders draw committed)

module _ {S : Type 0} (client : HttpClient S) (parsers : Parsers) where
  -- How a synchronisation ends, with what the broker returns of the account and of its orders: the
  -- tables are as they were and it raises; or both have returned, and the rest has ended.
  abbrev pub Ends :
      SyncDraw
      → Database
      → Result AccountSnapshot
      → Result (List AlpacaOrderSnapshot)
      → Result SyncResult
      → Database
      → Type 0
  Ends draw before account_result orders_result r after =
      ((e : Error) × (r ≡ err e) × (after ≡ before))
      ⊎ ((account : AccountSnapshot) × (orders : List AlpacaOrderSnapshot) × (account_result
            ≡ ok account)
          × (orders_result ≡ ok orders)
          × Stored account orders draw before r after)

  tables_Ends :
      (draw : SyncDraw) (s : Synced S) (account : AccountSnapshot)
      (y : Result (List AlpacaOrderSnapshot) × Adapter S)
      → (let (r, after) =
            then_do
              (y.0, record s { broker = y.1 })
              λ orders t. on_tables client parsers (store account orders draw) t in
          Ends draw s.database (ok account) y.0 r after.database)
  tables_Ends draw s account (err e, b) = inl (e, refl, refl)
  tables_Ends draw s account (ok orders, b) =
      inr (account, orders, refl, refl, store-Stored account orders draw s.database)

  -- A synchronisation either raises and leaves the tables as they were, or the broker has returned an
  -- account and its orders. In that case also it may raise with the tables rolled back to what
  -- they were; else tables are committed in which the positions at Alpaca are those of the account,
  -- column for column; each order of the answer has a row with the client ID, the filled quantity, the
  -- average price, the status and the times of its last snapshot, while its symbol, side, type,
  -- quantity, limit price and time of submission are those of the row before, or of its first
  -- snapshot if there was none; every other order keeps its row; one run is added, with the numbers of
  -- orders and positions; and the other tables are kept. After these the run adds its entry to the
  -- audit log and returns what it has seen, or raises if the ID of the entry is taken.
  pub sync_alpaca_paper-Ends :
      (draw : SyncDraw) (s : Synced S)
      → (let (account, broker) = get_account client parsers draw.account_at s.broker in
          let (r, after) = sync_alpaca_paper client parsers draw s in
          Ends draw s.database account
            (get_recent_order_snapshots client parsers broker).0
            r
            after.database)
  unfolding sync_alpaca_paper
  sync_alpaca_paper-Ends draw s = go (get_account client parsers draw.account_at s.broker)
    where
      go :
          (x : Result AccountSnapshot × Adapter S)
          → (let (r, after) =
                then_do
                  (x.0, record s { broker = x.1 })
                  λ account t.
                    then_do
                      (on_broker client parsers (get_recent_order_snapshots client parsers) t)
                      λ orders t. on_tables client parsers (store account orders draw) t in
              Ends draw s.database x.0
                (get_recent_order_snapshots client parsers x.1).0
                r
                after.database)
      go (err e, b) = inl (e, refl, refl)
      go (ok account, b) =
          tables_Ends draw (record s { broker = b }) account
            (get_recent_order_snapshots client parsers b)
