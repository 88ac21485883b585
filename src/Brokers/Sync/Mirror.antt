-- ===== src/Brokers/Sync/Mirror.antt =====
-- What a synchronisation leaves in the tables.
use broker_ai.Base.{
  not, ℕ, ◌≡◌, inl, inr, refl, sym, ap, ◌∙◌, subst, ◌==◌, List, [], ◌∷◌, ◌++◌, map, any_of, length,
  Bool-cases, append_nil,
}
use broker_ai.Base.Result.{Result, ok, err, ◌>>=◌, Gives}
use broker_ai.Brokers.Models.{AccountSnapshot}
use broker_ai.Brokers.Alpaca.Recent.{AlpacaOrderSnapshot}
use broker_ai.Server.Database.{Database, BrokerOrderRow, BrokerPositionRow, SyncRun}
use broker_ai.Brokers.Sync.Defs.{
  SyncDraw, alpaca, paper, completed, upsert_all, others, is_paper, position_row, insert_positions,
  insert_run, run_of, transaction,
}
use broker_ai.Brokers.Sync.Positions.{
  insert_positions-all, rows_with, rows_with-append, own_of_others, others_of_others, own_of_new,
  others_of_new, is_own, Shown, positions-Shown,
}
use broker_ai.Brokers.Sync.Orders.{row_at, latest, upsert_all-latest}
use broker_ai.Brokers.Sync.Current.{IsCurrent, latest-IsCurrent}

-- The row of a run, with what it saw.
pub record IsRunOf (account : AccountSnapshot) (orders : List AlpacaOrderSnapshot) (draw : SyncDraw)
    (run : SyncRun) : Type 0 where
  pub named : run.id ≡ draw.run_id
  pub at_broker : run.broker ≡ alpaca
  pub in_environment : run.environment ≡ paper
  pub all_orders : run.orders_seen ≡ length orders
  pub all_positions : run.positions_seen ≡ length account.positions
  pub begun : run.started_at ≡ draw.started_at
  pub ended : run.completed_at ≡ draw.synced_at
  pub done : run.status ≡ completed

-- The tables before and after a synchronisation: each order has a row with the progress of its last
-- snapshot and the terms that it had before, or else those of its first snapshot, and an order
-- without a snapshot has the row that it had; the positions at Alpaca are those of the account, in its
-- order, and those elsewhere are as they were; one run is added, and nothing else is touched.
pub record Mirrors (account : AccountSnapshot) (orders : List AlpacaOrderSnapshot) (draw : SyncDraw)
    (before after : Database) : Type 0 where
  pub orders_current :
      (id : ℕ)
      → IsCurrent draw.synced_at id orders
          (row_at id before.broker_orders)
          (row_at id after.broker_orders)
  pub positions_own :
      Shown draw.synced_at account.positions (rows_with is_own after.broker_positions)
  pub positions_elsewhere :
      rows_with (λ r. not (is_own r)) after.broker_positions
      ≡ rows_with (λ r. not (is_own r)) before.broker_positions
  pub run_added :
      (run : SyncRun) × (after.broker_sync_runs ≡ before.broker_sync_runs ++ (run ∷ []))
      × IsRunOf account orders draw run
  pub same_users : after.users ≡ before.users
  pub same_bots : after.bots ≡ before.bots
  pub same_proposals : after.order_proposals ≡ before.order_proposals
  pub same_log : after.audit_logs ≡ before.audit_logs

insert_run-added :
    (run : SyncRun) (runs : List SyncRun)
    → Gives (λ after. after ≡ runs ++ (run ∷ [])) (insert_run run runs)
unfolding insert_run
insert_run-added run runs = elim (Bool-cases (any_of (λ (r : SyncRun). r.id == run.id) runs)) [
  | inl taken ↦ rw taken tt
  | inr free ↦ rw free refl
]

pub transaction-Mirrors :
    (account : AccountSnapshot) (orders : List AlpacaOrderSnapshot) (draw : SyncDraw)
    (db : Database)
    → Gives (Mirrors account orders draw db) (transaction account orders draw db)
unfolding transaction
transaction-Mirrors account orders draw db =
    go (upsert_all draw.synced_at orders db.broker_orders)
      (upsert_all-latest draw.synced_at orders db.broker_orders)
      (insert_positions (map (position_row draw.synced_at) account.positions)
        (others db.broker_positions))
      (insert_positions-all (map (position_row draw.synced_at) account.positions)
        (others db.broker_positions))
      (insert_run (run_of account orders draw) db.broker_sync_runs)
      (insert_run-added (run_of account orders draw) db.broker_sync_runs)
  where
    own :
        (after : List BrokerPositionRow)
        → after ≡ others db.broker_positions ++ map (position_row draw.synced_at) account.positions
        → rows_with is_paper after ≡ map (position_row draw.synced_at) account.positions
    own after h =
        ap (rows_with is_paper) h
        ∙ rows_with-append is_paper (others db.broker_positions)
            (map (position_row draw.synced_at) account.positions)
        ∙ ap (λ l. l ++ rows_with is_paper (map (position_row draw.synced_at) account.positions))
            (own_of_others db.broker_positions)
        ∙ own_of_new draw.synced_at account.positions

    go :
        (rows : Result (List BrokerOrderRow))
        → Gives
            (λ after.
              (id : ℕ)
              → row_at id after ≡ latest draw.synced_at id orders (row_at id db.broker_orders))
            rows
        → (positions : Result (List BrokerPositionRow))
        → Gives
            (λ after.
              after
              ≡ others db.broker_positions ++ map (position_row draw.synced_at) account.positions)
            positions
        → (runs : Result (List SyncRun))
        → Gives (λ after. after ≡ db.broker_sync_runs ++ (run_of account orders draw ∷ [])) runs
        → Gives (Mirrors account orders draw db) (
            rows >>= λ r. positions >>= λ p. runs >>= λ s.
            ok (record db { broker_orders = r; broker_positions = p; broker_sync_runs = s }))
    go (err e) g ps h rs k = tt
    go (ok r) g (err e) h rs k = tt
    go (ok r) g (ok p) h (err e) k = tt
    go (ok r) g (ok p) h (ok s) k = record {
      orders_current = λ id.
          subst (IsCurrent draw.synced_at id orders (row_at id db.broker_orders)) (sym (g id))
            (latest-IsCurrent draw.synced_at id orders (row_at id db.broker_orders));
      positions_own =
          subst (Shown draw.synced_at account.positions) (sym (own p h))
            (positions-Shown draw.synced_at account.positions);
      positions_elsewhere =
          ap (rows_with (λ r. not (is_paper r))) h
          ∙ rows_with-append (λ r. not (is_paper r)) (others db.broker_positions)
              (map (position_row draw.synced_at) account.positions)
          ∙ ap (λ l. rows_with (λ r. not (is_paper r)) (others db.broker_positions) ++ l)
              (others_of_new draw.synced_at account.positions)
          ∙ append_nil (rows_with (λ r. not (is_paper r)) (others db.broker_positions))
          ∙ others_of_others db.broker_positions;
      run_added = (
        run_of account orders draw,
        k,
        record {
          named = refl;
          at_broker = refl;
          in_environment = refl;
          all_orders = refl;
          all_positions = refl;
          begun = refl;
          ended = refl;
          done = refl;
        },
      );
      same_users = refl;
      same_bots = refl;
      same_proposals = refl;
      same_log = refl;
    }
