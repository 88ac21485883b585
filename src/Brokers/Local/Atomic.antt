-- ===== src/Brokers/Local/Atomic.antt =====
-- A submission to the simulator adapter that raises changes nothing.
use broker_ai.Base.{ℕ, Option, none, some, ◌≡◌, refl, arith, inl, inr, Bool-cases, sym, ◌∙◌, ap}
use broker_ai.Base.Int.{◌≤ℤ◌}
use broker_ai.Base.Result.{Result, Error, ok, err, Action}
use broker_ai.Decimal.{nought}
use broker_ai.Domain.Instrument.{IsNormal}
use broker_ai.Domain.Order.{Order, IsValidOrder}
use broker_ai.Domain.Portfolio.{Portfolio}
use broker_ai.Domain.Portfolio.Invariant.{IsValid}
use broker_ai.Domain.Time.{Datetime, aware}
use broker_ai.Brokers.Simulated.{SimulatedBroker, Execution, execute}
use broker_ai.Brokers.Simulated.Settlement.{Settles, execute-Settles, execute_zoned}
use broker_ai.Brokers.Models.{BrokerMode, BrokerOrder, new_broker_order}
use broker_ai.Brokers.Local.Defs.{
  LocalBroker, existing_for, unless_existing, register_filled, executed, submit_filled,
  filled_order,
}
use broker_ai.Brokers.Local.Idempotence.{connected_on, connected_off}

-- What the adapter's own broker and portfolio must satisfy.
pub record IsSound (s : LocalBroker) : Type 0 where
  pub fee_nonneg : nought ≤ℤ s.broker.fee_per_order
  pub portfolio_valid : IsValid s.portfolio

-- The record of an execution at a time with a zone is always accepted.
filled_order_ok :
    (broker_id : ℕ) (order : Order) (e : Execution) (n : ℕ)
    → e.transaction.executed_at ≡ aware n
    → new_broker_order (filled_order broker_id order e) ≡ ok (filled_order broker_id order e)
unfolding new_broker_order
filled_order_ok broker_id order e n zoned = ground arith

Settles-err :
    {before : SimulatedBroker × Portfolio} (r : Result Execution × (SimulatedBroker × Portfolio))
    {x : Error}
    → Settles before r
    → r.0 ≡ err x
    → r.1 ≡ before
Settles-err (err y, after) settles raised = settles
Settles-err (ok e, after) settles raised = cc

module _ (uuid5 : BrokerMode → ℕ → ℕ) where
  register_filled_err :
      (order : Order) (s : LocalBroker) (r : Result Execution × (SimulatedBroker × Portfolio))
      {x : Error} {s' : LocalBroker}
      → ((e : Execution) → r.0 ≡ ok e → (n : ℕ) × (e.transaction.executed_at ≡ aware n))
      → ((y : Error) → r.0 ≡ err y → r.1 ≡ (s.broker, s.portfolio))
      → register_filled uuid5 order (executed s r) ≡ (err x, s')
      → s' ≡ s
  register_filled_err order s (err y, w) zoned same raised =
      sym (ap (λ (t : Result BrokerOrder × LocalBroker). t.1) raised)
      ∙ ap (λ (t : SimulatedBroker × Portfolio). record s { broker = t.0; portfolio = t.1 })
          (same y refl)
  register_filled_err order s (ok e, w) zoned same raised =
      let broker_id = uuid5 BrokerMode.simulation order.order_id in
      let (n, z) = zoned e refl in cc (rw (filled_order_ok broker_id order e n z) at raised)

  -- If the submission of a valid order, for an instrument in normal form, to a sound simulator
  -- adapter raises, for whatever reason, the adapter is as it was: its portfolio, its log
  -- and its orders.
  pub submit_filled_atomic :
      (id : ℕ) (at : Datetime) (order : Order) (s : LocalBroker) {x : Error} {s' : LocalBroker}
      → IsNormal order.instrument
      → IsValidOrder order
      → IsSound s
      → submit_filled uuid5 id at order s ≡ (err x, s')
      → s' ≡ s
  unfolding submit_filled
  submit_filled_atomic id at order s {x} {s'} n v sound raised = elim (Bool-cases s.connected) [
    | inr off ↦ sym (
        ap (λ (t : Result BrokerOrder × LocalBroker). t.1)
          (sym (connected_off (submission) s off) ∙ raised))
    | inl on ↦ go (existing_for order s) (sym (connected_on (submission) s on) ∙ raised)
  ]
    where
      fresh : Action LocalBroker BrokerOrder
      fresh t =
          register_filled uuid5 order (executed t (execute id at order (t.broker, t.portfolio)))

      submission : Action LocalBroker BrokerOrder
      submission t = unless_existing (existing_for order t) fresh t

      go : (r : Result (Option BrokerOrder)) → unless_existing r fresh s ≡ (err x, s') → s' ≡ s
      go (err y) d = sym (ap (λ (t : Result BrokerOrder × LocalBroker). t.1) d)
      go (ok (some old)) d = cc
      go (ok none) d =
          register_filled_err order s (execute id at order (s.broker, s.portfolio))
            (λ e. execute_zoned id at order s.broker s.portfolio)
            (λ y. Settles-err (execute id at order (s.broker, s.portfolio)) (
              execute-Settles id at order s.broker s.portfolio n v sound.fee_nonneg
                sound.portfolio_valid))
            d
