-- ===== src/Brokers/Alpaca/Idempotence.antt =====
-- Submitting an order to the adapter again sends no second order.
use broker_ai.Base.{
  ℕ, ◌≡◌, inl, inr, refl, ap, ◌∙◌, subst, Bool, true, false, not, if◌then◌else◌, Option, none, some,
  nat_eq, Bool-cases,
}
use broker_ai.Base.Result.{Result, Error, ok, err, then_do, raise_if}
use broker_ai.Base.Dict.{lookup, lookup-insert_self}
use broker_ai.Domain.Instrument.{Currency, currency_beq}
use broker_ai.Domain.Order.{Order, order_beq, order_beq_iff}
use broker_ai.Brokers.Models.{BrokerOrder}
use broker_ai.Brokers.Alpaca.Json.{Json}
use broker_ai.Brokers.Alpaca.Http.{HttpClient, Method, Resource}
use broker_ai.Brokers.Alpaca.Answers.{Parsers, to_broker_order}
use broker_ai.Brokers.Alpaca.Adapter.{
  Adapter, request, fetch, get_order, get_known, submit_order, submit_new, submit_by_id, remember,
  require_usd, require_same,
}

module _ {S : Type 0} (client : HttpClient S) (parsers : Parsers) where
  -- An order is registered under an ID of the broker, with its own content.
  abbrev pub IsRegistered : Order → ℕ → Adapter S → Type 0
  IsRegistered order id s =
      (lookup order.order_id s.broker_id_by_client_id ≡ some id) × (lookup id s.orders ≡ some order)

  -- A call of the client leaves what is registered.
  known_after :
      (order : Order) (id : ℕ) (known : Option Order) (s : Adapter S)
      → IsRegistered order id s
      → IsRegistered order id (get_known client parsers id known s).1
  unfolding request
  known_after order id none s r = r
  known_after order id (some o) s r = go (fetch client parsers (Resource.order_with id) s) r
    where
      go :
          (x : Result Json × Adapter S)
          → IsRegistered order id x.1
          → IsRegistered order id (then_do x λ payload s. (to_broker_order parsers payload o, s)).1
      go (ok payload, t) k = k
      go (err e, t) k = k

  -- The broker's ID of a submission that returned a record: the one that stood under the client ID
  -- before, or else that of the record.
  abbrev pub id_after : Option ℕ → BrokerOrder → ℕ
  id_after none b = b.broker_order_id
  id_after (some id) b = id

  abbrev Registers : Order → Option ℕ → Result BrokerOrder × Adapter S → Type 0
  Registers order known (err e, s) = Unit {0}
  Registers order known (ok b, s) = IsRegistered order (id_after known b) s

  any_outcome :
      (order : Order) (id : ℕ) (x : Result BrokerOrder × Adapter S)
      → IsRegistered order id x.1
      → Registers order (some id) x
  any_outcome order id (err e, s) r = tt
  any_outcome order id (ok b, s) r = r

  submit_new-Registers :
      (order : Order) (s : Adapter S) → Registers order none (submit_new client parsers order s)
  submit_new-Registers order s =
      go (request client parsers Method.post s.trading_url Resource.orders _ _ s)
    where
      made :
          (t : Adapter S) (r : Result BrokerOrder)
          → Registers order none (then_do (r, t) (remember client parsers order))
      made t (err e) = tt
      made t (ok b) = (
        lookup-insert_self order.order_id b.broker_order_id t.broker_id_by_client_id,
        lookup-insert_self b.broker_order_id order t.orders,
      )

      go :
          (x : Result Json × Adapter S)
          → Registers order none (
              then_do x λ payload t.
                then_do (to_broker_order parsers payload order, t) (remember client parsers order))
      go (err e, t) = tt
      go (ok payload, t) = made t (to_broker_order parsers payload order)

  submit_again-Registers :
      (order : Order) (id : ℕ) (s : Adapter S) (known : Option Order)
      → lookup order.order_id s.broker_id_by_client_id ≡ some id
      → lookup id s.orders ≡ known
      → Registers order
          (some id)
          (then_do (require_same client parsers order known, s) λ _. get_order client parsers id)
  unfolding get_order
  submit_again-Registers order id s none is found = tt
  submit_again-Registers order id s (some o) is found = elim (Bool-cases (order_beq o order)) [
    | inr other ↦ rw other tt
    | inl same ↦ rw same (
        any_outcome order id _ (
          known_after order id (lookup id s.orders) s
            (is, found ∙ ap some ((order_beq_iff o order).0 same))))
  ]

  submit_order-Registers :
      (order : Order) (s : Adapter S)
      → Registers order
          (lookup order.order_id s.broker_id_by_client_id)
          (submit_order client parsers order s)
  unfolding submit_order
  submit_order-Registers order s = accepted (require_usd order.instrument)
    where
      by_id :
          (known : Option ℕ)
          → lookup order.order_id s.broker_id_by_client_id ≡ known
          → Registers order known (submit_by_id client parsers order known s)
      by_id none is = submit_new-Registers order s
      by_id (some id) is = submit_again-Registers order id s (lookup id s.orders) is refl

      accepted :
          (r : Result (Unit {0}))
          → Registers order (lookup order.order_id s.broker_id_by_client_id) (
              then_do
                (r, s)
                λ _ s.
                  submit_by_id client parsers order
                    (lookup order.order_id s.broker_id_by_client_id)
                    s)
      accepted (err e) = tt
      accepted (ok _) = by_id (lookup order.order_id s.broker_id_by_client_id) refl

  -- What comes of an order with the client's ID of a registered one.
  registered_again :
      (order other : Order) (id : ℕ) (s : Adapter S)
      → IsRegistered order id s
      → other.order_id ≡ order.order_id
      → other.instrument.currency ≡ Currency.usd
      → (b : Bool) → order_beq order other ≡ b
      → submit_order client parsers other s
        ≡ (if b then get_order client parsers id s else (err Error.idempotency_conflict, s))
  unfolding submit_order
  registered_again order other id s (named, found) same usd b is =
      ap
        (λ (c : Currency).
          then_do (raise_if (not (currency_beq c Currency.usd)) Error.broker_failed, s)
            λ _ t.
              submit_by_id client parsers other (lookup other.order_id t.broker_id_by_client_id) t)
        usd
      ∙ ap (λ (k : ℕ). submit_by_id client parsers other (lookup k s.broker_id_by_client_id) s) same
      ∙ ap (λ (known : Option ℕ). submit_by_id client parsers other known s) named
      ∙ ap
          (λ (known : Option Order).
            then_do (require_same client parsers other known, s) λ _. get_order client parsers id)
          found
      ∙ compared (order_beq order other) b is
    where
      compared :
          (a b : Bool)
          → a ≡ b
          → ◌≡◌ {A = Result BrokerOrder × Adapter S}
              (then_do
                (if not a then err Error.idempotency_conflict else ok tt, s)
                λ _. get_order client parsers id)
              (if b then get_order client parsers id s else (err Error.idempotency_conflict, s))
      compared true true e = refl
      compared false false e = refl
      compared true false e = cc
      compared false true e = cc

  -- When `submit_order` has returned a record, then the order is stored under a broker's ID: that of
  -- the record if the client ID was new to the adapter, and the one that stood under the client ID
  -- otherwise. A submission of an order with the same client ID and in dollars is then, if it is the
  -- same order, no more than `get_order` of this ID; if it is another order, it raises with nothing
  -- sent and nothing changed.
  pub submit_order-again :
      (order other : Order) (s t : Adapter S) (b : BrokerOrder)
      → submit_order client parsers order s ≡ (ok b, t)
      → other.order_id ≡ order.order_id
      → other.instrument.currency ≡ Currency.usd
      → (let id = id_after (lookup order.order_id s.broker_id_by_client_id) b in
          (lookup id t.orders ≡ some order)
          × (submit_order client parsers other t ≡ (
              if order_beq order other
              then get_order client parsers id t
              else (err Error.idempotency_conflict, t))))
  submit_order-again order other s t b done same usd =
      let id = id_after (lookup order.order_id s.broker_id_by_client_id) b in
      let registered : IsRegistered order id t =
        subst (Registers order (lookup order.order_id s.broker_id_by_client_id)) done
          (submit_order-Registers order s) in
      (
        registered.1,
        registered_again order other id t registered same usd (order_beq order other) refl,
      )
