-- ===== src/Tests/SyncRuns.antt =====
-- A synchronisation, its worker and the first order at fixed inputs.
use broker_ai.Base.{ℕ, suc, ◌≡◌, refl, false, none, some, List, [], ◌∷◌}
use broker_ai.Base.Int.{pos, ◌+ℤ◌, ◌-ℤ◌, neg_ℤ}
use broker_ai.Base.Result.{Error, ok}
use broker_ai.Decimal.{
  cents, one, add, sub, mul, mul_int, div, negate, round, round_ratio, ulp, ulp_from, half_even,
  coefficient_bound, unit,
}
use broker_ai.Domain.Text.{strip, lstrip, rstrip, upper}
use broker_ai.Domain.Portfolio.{new_portfolio, get_position}
use broker_ai.Risk.Models.{new_policy, new_context, normalize_prices, calculate_equity, price_for}
use broker_ai.Risk.Rules.{
  kill_switch_rule, max_order_value_rule, max_position_value_rule, max_concentration_rule,
  cash_reserve_rule, daily_loss_rule, projected_value, projected_cash, day_result,
}
use broker_ai.Risk.Engine.{
  new_engine, rules, evaluate_all, validate_metadata, assessment_of, assess,
}
use broker_ai.Risk.Gateway.{guarded}
use broker_ai.Domain.Instrument.{Currency}
use broker_ai.Domain.Order.{new_order, total_value}
use broker_ai.Domain.Time.{aware}
use broker_ai.Brokers.Models.{new_account_snapshot, new_position_snapshot}
use broker_ai.Brokers.Alpaca.Json.{Json, Items, Fields, subscript, get}
use broker_ai.Brokers.Alpaca.Keys.{
  key_id, key_status, key_submitted_at, key_symbol, key_side, key_type, key_qty, key_cash,
  key_avg_entry_price,
}
use broker_ai.Brokers.Alpaca.Http.{HttpClient, Call, Resource, Reply, decode}
use broker_ai.Brokers.Alpaca.Adapter.{get_account, request}
use broker_ai.Brokers.Alpaca.Recent.{get_recent_order_snapshots}
use broker_ai.Brokers.Sync.Defs.{
  SyncDraw, Synced, sync_alpaca_paper, store, transaction, upsert_all, upsert, others,
  insert_positions, insert_run,
}
use broker_ai.Brokers.Sync.Ends.{Ends, sync_alpaca_paper-Ends}
use broker_ai.Brokers.Onboarding.Defs.{
  Broker, FirstDraw, confirmation, plan_of, run_first_paper_order,
}
use broker_ai.Brokers.Onboarding.Consent.{Outcome, run_first_paper_order-Outcome}
use broker_ai.Server.Database.{Database, audit}
use broker_ai.Server.SyncWorker
use broker_ai.Server.SyncWorker.{Worker, new_worker, begin, finish, start, stop}
use broker_ai.Server.Turns.{new, began, finished, started, Tells, Reached-Tells}
use broker_ai.Tests.AlpacaRuns.{parsers, opened, first_record}

-- One order that waits.
abbrev listed : Json
listed = Json.object (
    Fields.field key_id (Json.text (b'9' ∷ [])) (
      Fields.field key_status (Json.text (b'n' ∷ b'e' ∷ b'w' ∷ [])) (
        Fields.field key_submitted_at (Json.text (b'7' ∷ [])) (
          Fields.field key_symbol (Json.text (b'A' ∷ [])) (
            Fields.field key_side (Json.text (b'b' ∷ b'u' ∷ b'y' ∷ [])) (
              Fields.field key_type (Json.text (b'l' ∷ []))
                (Fields.field key_qty (Json.text (b'5' ∷ [])) Fields.no_fields)))))))

-- A position of five.
abbrev held : Json
held = Json.object (
    Fields.field key_symbol (Json.text (b'A' ∷ [])) (
      Fields.field key_qty (Json.text (b'5' ∷ []))
        (Fields.field key_avg_entry_price (Json.text (b'5' ∷ [])) Fields.no_fields)))

abbrev told : Resource → Json
told Resource.positions = Json.array (Items.item held Items.no_items)
told Resource.recent_orders = Json.array (Items.item listed Items.no_items)
told _ = Json.object (Fields.field key_cash (Json.text (b'5' ∷ [])) Fields.no_fields)

abbrev books : HttpClient (List Call)
books = record {
  request = λ c log. (
    Reply.answered (record { status_code = 200; is_empty = false; json = some (told c.resource) }),
    c ∷ log,
  );
}

abbrev empty_tables : Database
empty_tables = record {
  users = [];
  bots = [];
  order_proposals = [];
  audit_logs = [];
  broker_orders = [];
  broker_positions = [];
  broker_sync_runs = [];
}

abbrev both : Synced (List Call)
both = record { broker = opened; database = empty_tables }

abbrev sync_draw : SyncDraw
sync_draw = record {
  run_id = 1;
  started_at = 2;
  account_at = aware 3;
  synced_at = 4;
  audit_id = 5;
  audited_at = 6;
}

sync_alpaca_paper-Ends_example :
    Ends books parsers sync_draw empty_tables
      (get_account books parsers (aware 3) opened).0
      (get_recent_order_snapshots books parsers (get_account books parsers (aware 3) opened).1).0
      (sync_alpaca_paper books parsers sync_draw both).0
      (sync_alpaca_paper books parsers sync_draw both).1.database
sync_alpaca_paper-Ends_example = sync_alpaca_paper-Ends books parsers sync_draw both

-- One order and one position are stored.
synced :
    (sync_alpaca_paper books parsers sync_draw both).0
    ≡ ok (record {
      run_id = 1;
      orders_seen = 1;
      positions_seen = 1;
      cash_balance = cents 500;
      currency = Currency.usd;
      completed_at = 4;
    })
unfolding sync_alpaca_paper get_account get_recent_order_snapshots request decode subscript get
    store transaction upsert_all upsert others insert_positions insert_run audit
    new_account_snapshot new_position_snapshot strip lstrip rstrip upper unit
synced = refl

-- A worker that fails, is called while it runs, and succeeds.
abbrev new_one : Worker
new_one = record {
  interval_seconds = pos 300;
  task = false;
  running = false;
  last_started_at = none;
  last_success_at = none;
  last_error = none;
  consecutive_failures = 0;
  runs_completed = 0;
}

abbrev busy : Worker
busy = (begin 2 (begin 1 (start new_one)).1).1

abbrev failed : Worker
failed = finish (SyncWorker.Outcome.failure Error.transient) busy

Reached-Tells_example : Tells failed 0 (SyncWorker.Outcome.failure Error.transient ∷ [])
unfolding begin start new_worker
Reached-Tells_example = Reached-Tells (
    finished (SyncWorker.Outcome.failure Error.transient)
      (began 2 (began 1 (started (new (pos 300) refl)))))

-- A broker that counts the orders that it is sent.
abbrev counting : Broker ℕ
counting = record {
  get_account = λ n. (
    ok (record {
      cash_balance = cents 10000000;
      currency = Currency.usd;
      positions = [];
      observed_at = aware 1;
    }),
    n,
  );
  get_market_price =
      λ i n. (ok (record { instrument = i; price = cents 10000; observed_at = aware 1 }), n);
  submit_order = λ order n. (ok first_record, suc n);
}

abbrev first_draw : FirstDraw
first_draw = record {
  order_id = 1;
  first_id = 2;
  first_at = aware 1;
  second_id = 3;
  second_at = aware 2;
}

run_first_paper_order-Outcome_example :
    Outcome counting
      (ok confirmation)
      (λ n. n ≡ 0)
      (run_first_paper_order counting (ok confirmation) first_draw 0)
run_first_paper_order-Outcome_example =
    run_first_paper_order-Outcome counting (ok confirmation) (λ n. n ≡ 0) (λ n h. h) (λ i n h. h)
      first_draw 0 refl

-- The order is sent once.
sent_once : (run_first_paper_order counting (ok confirmation) first_draw 0).1 ≡ 1
unfolding run_first_paper_order plan_of new_order new_portfolio new_context new_policy new_engine
    normalize_prices calculate_equity guarded assess assessment_of rules evaluate_all
    validate_metadata kill_switch_rule max_order_value_rule max_position_value_rule
    max_concentration_rule cash_reserve_rule daily_loss_rule projected_value projected_cash
    day_result price_for get_position total_value negate add sub mul div mul_int round round_ratio
    ulp ulp_from half_even coefficient_bound unit one ◌+ℤ◌ ◌-ℤ◌ neg_ℤ strip lstrip rstrip upper
sent_once = refl
