-- ===== src/Brokers/Local/Idempotence.antt =====
-- Submitting an order again returns the first record and changes nothing.
use broker_ai.Base.{
  ℕ, Bool, true, false, if◌then◌else◌, Option, none, some, ◌≡◌, refl, arith, inl, inr, nat_eq,
  Bool-cases, sym, ◌∙◌, ap, subst,
}
use broker_ai.Base.Result.{Result, Error, ok, err, Action, Result-cases}
use broker_ai.Base.Dict.{lookup-insert_self}
use broker_ai.Domain.Order.{Order, order_beq_iff}
use broker_ai.Domain.Time.{Datetime}
use broker_ai.Brokers.Simulated.{Execution, execute}
use broker_ai.Brokers.Models.{BrokerMode, BrokerOrder, new_broker_order}
use broker_ai.Brokers.Local.Defs.{
  LocalBroker, existing_for, unless_existing, register, register_filled, executed, submit_filled,
  submit_waiting, new_submitted_order, filled_order, submitted_order, connected_do,
}

-- The constructor keeps the fields that it is given.
pub new_broker_order_same :
    (o : BrokerOrder) {o' : BrokerOrder} → new_broker_order o ≡ ok o' → o' ≡ o
unfolding new_broker_order
new_broker_order_same o e = ground arith

-- Once an order is registered, it is found again by its own content.
register-existing :
    (broker_id : ℕ) (order : Order) (s : LocalBroker) (o : BrokerOrder)
    → o.order ≡ order
    → let s' = (register broker_id order s (ok o)).1 in existing_for order s' ≡ ok (some o)
unfolding existing_for
register-existing broker_id order s o e =
    rw (lookup-insert_self order.order_id broker_id s.client_ids)
      (rw (lookup-insert_self broker_id o s.orders) (ground (arith, order_beq_iff o.order order)))

-- Registering a constructed record makes the next submission find it.
register_finds :
    (broker_id : ℕ) (order : Order) (s : LocalBroker) (made : BrokerOrder) {o : BrokerOrder}
    {s' : LocalBroker}
    → made.order ≡ order
    → register broker_id order s (new_broker_order made) ≡ (ok o, s')
    → (existing_for order s' ≡ ok (some o)) × (s'.connected ≡ s.connected)
register_finds broker_id order s made own done = elim (Result-cases (new_broker_order made)) [
  | inl (x, e) ↦ cc (rw e at done)
  | inr (o', e) ↦
      let found =
        register-existing broker_id order s o'
          (ap (λ (t : BrokerOrder). t.order) (new_broker_order_same made e) ∙ own) in
      ground (arith, rw e at done, found)
]

module _ {A : Type 0} (m : Action LocalBroker A) (s : LocalBroker) where
  pub connected_on : s.connected ≡ true → connected_do m s ≡ m s
  connected_on on = ap (λ (b : Bool). if b then m s else (err Error.unavailable, s)) on

  pub connected_off : s.connected ≡ false → connected_do m s ≡ (err Error.unavailable, s)
  connected_off off = ap (λ (b : Bool). if b then m s else (err Error.unavailable, s)) off

-- A submission, with what it does for an order that is new.
abbrev submit_with : Order → Action LocalBroker BrokerOrder → Action LocalBroker BrokerOrder
submit_with order m = connected_do λ s. unless_existing (existing_for order s) m s

-- What a way of registering new orders must satisfy.
abbrev Finds : Order → Action LocalBroker BrokerOrder → LocalBroker → Type 0
Finds order m s =
    (o : BrokerOrder) (s' : LocalBroker)
    → m s ≡ (ok o, s')
    → (existing_for order s' ≡ ok (some o)) × (s'.connected ≡ s.connected)

submit_with_again :
    (order : Order) (m m' : Action LocalBroker BrokerOrder) (s : LocalBroker) (o : BrokerOrder)
    (s' : LocalBroker)
    → Finds order m s
    → submit_with order m s ≡ (ok o, s')
    → submit_with order m' s' ≡ (ok o, s')
submit_with_again order m m' s o s' finds done = elim (Bool-cases s.connected) [
  | inr off ↦ cc (connected_off (λ t. unless_existing (existing_for order t) m t) s off)
  | inl on ↦
      go (existing_for order s) refl on
        (sym (connected_on (λ t. unless_existing (existing_for order t) m t) s on) ∙ done)
]
  where
    again : LocalBroker → Result BrokerOrder × LocalBroker
    again t = unless_existing (existing_for order t) m' t

    go :
        (r : Result (Option BrokerOrder))
        → existing_for order s ≡ r
        → s.connected ≡ true
        → unless_existing r m s ≡ (ok o, s')
        → submit_with order m' s' ≡ (ok o, s')
    go (err x) e on d = cc
    go (ok (some old)) e on d =
        subst (λ (t : LocalBroker). submit_with order m' t ≡ (ok o, s'))
          (ap (λ (t : Result BrokerOrder × LocalBroker). t.1) d)
          (connected_on again s on
            ∙ ap (λ (r : Result (Option BrokerOrder)). unless_existing r m' s) e
            ∙ d)
    go (ok none) e on d =
        let (found, linked) = finds o s' d in
        connected_on again s' (linked ∙ on)
        ∙ ap (λ (r : Result (Option BrokerOrder)). unless_existing r m' s') found

module _ (uuid5 : BrokerMode → ℕ → ℕ) where
  filled-Finds :
      (order : Order) (s : LocalBroker) (r : Result Execution × LocalBroker) (o : BrokerOrder)
      (s' : LocalBroker)
      → r.1.connected ≡ s.connected
      → register_filled uuid5 order r ≡ (ok o, s')
      → (existing_for order s' ≡ ok (some o)) × (s'.connected ≡ s.connected)
  filled-Finds order s (err x, t) o s' linked done = cc
  filled-Finds order s (ok execution, t) o s' linked done =
      let broker_id = uuid5 BrokerMode.simulation order.order_id in
      let (found, same) =
        register_finds broker_id order t (filled_order broker_id order execution) refl done in
      (found, same ∙ linked)

  -- After a submission to the simulator adapter that returned a record, the same order submitted
  -- again returns that record and changes nothing at all: neither the portfolio nor the transaction
  -- log.
  pub submit_filled-again :
      (id id' : ℕ) (at at' : Datetime) (order : Order) (s : LocalBroker) {o : BrokerOrder}
      {s' : LocalBroker}
      → submit_filled uuid5 id at order s ≡ (ok o, s')
      → submit_filled uuid5 id' at' order s' ≡ (ok o, s')
  unfolding submit_filled
  submit_filled-again id id' at at' order s {o} {s'} done =
      submit_with_again order
        (λ t.
          register_filled uuid5 order (executed t (execute id at order (t.broker, t.portfolio))))
        (λ t.
          register_filled uuid5 order (executed t (execute id' at' order (t.broker, t.portfolio))))
        s o s'
        (λ o' t d.
          filled-Finds order s (executed s (execute id at order (s.broker, s.portfolio))) o' t refl
            d)
        done

  -- After a submission to the paper adapter that returned a record, the same order submitted again
  -- returns that record and changes nothing at all.
  pub submit_waiting-again :
      (now now' : Datetime) (order : Order) (s : LocalBroker) {o : BrokerOrder} {s' : LocalBroker}
      → submit_waiting uuid5 now order s ≡ (ok o, s')
      → submit_waiting uuid5 now' order s' ≡ (ok o, s')
  unfolding submit_waiting new_submitted_order
  submit_waiting-again now now' order s {o} {s'} done =
      let broker_id = uuid5 BrokerMode.paper order.order_id in
      submit_with_again order (new_submitted_order uuid5 BrokerMode.paper order now)
        (new_submitted_order uuid5 BrokerMode.paper order now') s o s'
        (λ o' t d. register_finds broker_id order s (submitted_order broker_id order now) refl d)
        done
