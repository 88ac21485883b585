-- ===== src/Tests/BrokerRuns.antt =====
-- Runs of the brokers, and their theorems at fixed inputs.
use broker_ai.Base.{ℕ, ◌≡◌, refl, arith, length, ◌+◌}
use broker_ai.Base.Int.{◌+ℤ◌, ◌-ℤ◌, neg_ℤ}
use broker_ai.Base.Result.{Result, Error, ok, err}
use broker_ai.Decimal.{
  cents, add, sub, mul_int, div_int, negate, round, round_ratio, ulp, ulp_from, half_even,
  coefficient_bound,
}
use broker_ai.Domain.Text.{strip, lstrip, rstrip, upper}
use broker_ai.Domain.Order.{total_value}
use broker_ai.Domain.Position.{new_position}
use broker_ai.Domain.Portfolio.{withdraw, record_purchase, get_position}
use broker_ai.Domain.Transaction.{new_transaction}
use broker_ai.Brokers.Simulated.{
  execute, execute_buy, execute_sell, precheck, validate_transaction_metadata,
}
use broker_ai.Brokers.Simulated.Settlement.{Settles, execute-Settles}
use broker_ai.Brokers.Local.{
  LocalBroker, submit_filled, submit_waiting, new_submitted_order, existing_for, submitted_order,
}
use broker_ai.Brokers.Local.Idempotence.{submit_filled-again, submit_waiting-again}
use broker_ai.Brokers.Local.Atomic.{submit_filled_atomic}
use broker_ai.Brokers.Local.Lifecycle.{reconcile_orders_terminal, cancel_order_terminal}
use broker_ai.Brokers.Simulated.Log.{HasDistinctIds, execute-HasDistinctIds}
use broker_ai.Base.Dict.{lookup}
use broker_ai.Base.{ℕ, some, ◌⊎◌, ◌≢◌, [], ◌∷◌, nat_eq}
use broker_ai.Brokers.Models.{BrokerOrderStatus, BrokerOrder}
use broker_ai.Brokers.Local.{Draw, reconcile_orders, cancel_order}
use broker_ai.Brokers.Reliable.{call, call_from, Attempt, value, os_error}
use broker_ai.Brokers.Reliable.Retry.{Run, call-Run}
use broker_ai.Brokers.Reliable.Once.{
  Fate, submit_order, Submitted, AtMostOnce, submit_order-AtMostOnce,
}
use broker_ai.Brokers.Models.{BrokerOrder, new_broker_order}
use broker_ai.Tests.Samples.{
  asml-IsNormal, buy_ten, buy_ten-IsValidOrder, sell_three, sell_three-IsValidOrder, start, holding,
  holding-IsValid, broker, noon, adapter, adapter-IsSound, sample_uuid5,
}

-- Ten shares at 100.00 cost 1001.00 with the fee.
buy_run : (execute 1 noon buy_ten (broker, start)).1.1.cash_balance ≡ cents 899900
unfolding execute precheck validate_transaction_metadata get_position execute_buy total_value
    withdraw record_purchase new_position new_transaction negate add sub mul_int div_int round
    round_ratio ulp ulp_from half_even coefficient_bound ◌+ℤ◌ ◌-ℤ◌ neg_ℤ strip lstrip rstrip upper
buy_run = refl

execute-Settles_example : Settles (broker, holding) (execute 1 noon sell_three (broker, holding))
execute-Settles_example =
    execute-Settles 1 noon sell_three broker holding asml-IsNormal sell_three-IsValidOrder
      (omega arith) holding-IsValid

-- The first answer is lost and the second attempt is answered.
abbrev fate : ℕ → Fate
fate n = elim (Prim.Native.Nat.compare n 1) [
  | Prim.Native.Nat.Ordering.gt ↦ Fate.answered
  | _ ↦ Fate.answer_lost
]

submit_order-AtMostOnce_example :
    let (r, s') = submit_order sample_uuid5 buy_ten (λ n. n) (λ _. noon) fate 3 adapter in
    AtMostOnce sample_uuid5 buy_ten
      (λ n. n)
      (λ _. noon)
      fate
      adapter
      asml-IsNormal
      buy_ten-IsValidOrder
      adapter-IsSound
      s'
    × ((o : BrokerOrder)
        → r ≡ ok o
        → Submitted sample_uuid5 buy_ten
            (λ n. n)
            (λ _. noon)
            fate
            adapter
            asml-IsNormal
            buy_ten-IsValidOrder
            adapter-IsSound
            o
            s')
submit_order-AtMostOnce_example =
    submit_order-AtMostOnce sample_uuid5 buy_ten (λ n. n) (λ _. noon) fate adapter asml-IsNormal
      buy_ten-IsValidOrder adapter-IsSound 3 (omega arith)

-- Both attempts reach the adapter, and it has executed the order once.
retried_once :
    let s = (submit_order sample_uuid5 buy_ten (λ n. n) (λ _. noon) fate 3 adapter).1 in
    (s.portfolio.cash_balance ≡ cents 899900) × (length s.broker.transactions ≡ 1)
unfolding call call_from submit_filled existing_for new_broker_order execute precheck
    validate_transaction_metadata get_position execute_buy total_value withdraw record_purchase
    new_position new_transaction negate add sub mul_int div_int round round_ratio ulp ulp_from
    half_even coefficient_bound ◌+ℤ◌ ◌-ℤ◌ neg_ℤ strip lstrip rstrip upper
retried_once = (refl, refl)

-- The first submission of the order, with the record that it returns.
first_submission : Result BrokerOrder × LocalBroker
first_submission = submit_filled sample_uuid5 1 noon buy_ten adapter

returned_order : Result BrokerOrder → BrokerOrder
returned_order (ok o) = o
returned_order (err e) = submitted_order 0 buy_ten noon

first_submission-returns :
    submit_filled sample_uuid5 1 noon buy_ten adapter
    ≡ (ok (returned_order first_submission.0), first_submission.1)
unfolding first_submission returned_order submit_filled existing_for new_broker_order execute
    precheck validate_transaction_metadata get_position execute_buy total_value withdraw
    record_purchase new_position new_transaction negate add sub mul_int div_int round round_ratio
    ulp ulp_from half_even coefficient_bound ◌+ℤ◌ ◌-ℤ◌ neg_ℤ strip lstrip rstrip upper
first_submission-returns = refl

submit_filled-again_example :
    submit_filled sample_uuid5 2 noon buy_ten first_submission.1
    ≡ (ok (returned_order first_submission.0), first_submission.1)
submit_filled-again_example =
    submit_filled-again sample_uuid5 1 2 noon noon buy_ten adapter first_submission-returns

-- The same with the paper adapter.
first_waiting : Result BrokerOrder × LocalBroker
first_waiting = submit_waiting sample_uuid5 noon buy_ten adapter

first_waiting-returns :
    submit_waiting sample_uuid5 noon buy_ten adapter
    ≡ (ok (returned_order first_waiting.0), first_waiting.1)
unfolding first_waiting returned_order submit_waiting new_submitted_order existing_for
    new_broker_order
first_waiting-returns = refl

submit_waiting-again_example :
    submit_waiting sample_uuid5 noon buy_ten first_waiting.1
    ≡ (ok (returned_order first_waiting.0), first_waiting.1)
submit_waiting-again_example =
    submit_waiting-again sample_uuid5 noon noon buy_ten adapter first_waiting-returns

-- Three shares cannot be sold where none is held.
submit_filled_atomic_example : (submit_filled sample_uuid5 1 noon sell_three adapter).1 ≡ adapter
unfolding submit_filled existing_for execute precheck validate_transaction_metadata get_position
    execute_sell strip lstrip rstrip upper
submit_filled_atomic_example =
    submit_filled_atomic sample_uuid5 1 noon sell_three adapter {x = Error.no_position}
      asml-IsNormal sell_three-IsValidOrder adapter-IsSound refl

-- A service that fails twice for a while and then answers.
flaky : ℕ → ℕ → Attempt ℕ × ℕ
flaky n w = (
  elim (Prim.Native.Nat.compare n 3) [ Prim.Native.Nat.Ordering.lt ↦ os_error | _ ↦ value n ],
  w + 1,
)

call-Run_example : Run 3 flaky (λ _ w. w) 1 0 (call 3 flaky (λ _ w. w) 0)
call-Run_example = call-Run 3 flaky (λ _ w. w) 0 (omega arith)

flaky_run : call 3 flaky (λ _ w. w) 0 ≡ (ok 3, 3)
unfolding flaky call call_from
flaky_run = refl

-- An adapter that holds a cancelled order under the broker's ID 4.
abbrev cancelled_order : BrokerOrder
cancelled_order = record (submitted_order 4 buy_ten noon) { status = BrokerOrderStatus.cancelled }

abbrev with_cancelled : LocalBroker
with_cancelled = record adapter { orders = (4, cancelled_order) ∷ [] }

abbrev draw_at_noon : ℕ → Draw
draw_at_noon n = record { transaction_id = n; executed_at = noon; now = noon }

reconcile_orders_terminal_example :
    lookup 4 (reconcile_orders draw_at_noon with_cancelled).1.orders ≡ some cancelled_order
reconcile_orders_terminal_example =
    reconcile_orders_terminal draw_at_noon 4 with_cancelled cancelled_order (tt, refl, tt) refl refl

cancel_order_terminal_example :
    (cancel_order 4 noon with_cancelled ≡ (ok cancelled_order, with_cancelled))
      × (cancelled_order.status ≡ BrokerOrderStatus.cancelled)
    ⊎ (cancel_order 4 noon with_cancelled ≡ (err Error.order_state, with_cancelled))
      × (cancelled_order.status ≢ BrokerOrderStatus.cancelled)
cancel_order_terminal_example =
    cancel_order_terminal 4 noon with_cancelled cancelled_order refl refl refl

execute-HasDistinctIds_example :
    HasDistinctIds (execute 1 noon buy_ten (broker, start)).1.0.transactions
execute-HasDistinctIds_example = execute-HasDistinctIds 1 noon buy_ten broker start tt
