-- ===== src/Brokers/Local/Lifecycle.antt =====
-- A terminal order stays what it is.
use broker_ai.Base.{
  ℕ, ◌≡◌, ◌≢◌, refl, sym, ap, ◌∙◌, arith, true, none, some, [], ◌∷◌, All, nat_eq, ==_iff,
  Bool-cases, inl, inr, ◌⊎◌,
}
use broker_ai.Base.Dict.{Dict, lookup, Entries, lookup-insert_ne}
use broker_ai.Base.Result.{Result, Error, ok, err, Action, then_do, give}
use broker_ai.Domain.Time.{Datetime}
use broker_ai.Brokers.Models.{BrokerOrder, BrokerOrderStatus, is_terminal}
use broker_ai.Brokers.Local.Idempotence.{connected_on, connected_off}
use broker_ai.Brokers.Local.{
  LocalBroker, Draw, store_order, fill_order, reconcile_one, reconcile_each, reconcile_orders,
  cancel_order, cancel_by_status, get_order, connected_do, or_raise, values,
}

store_order-lookup :
    (j k : ℕ) (s : LocalBroker) (r : Result BrokerOrder)
    → j ≢ k
    → lookup j (store_order k s r).1.orders ≡ lookup j s.orders
store_order-lookup j k s (err e) h = refl
store_order-lookup j k s (ok o) h = lookup-insert_ne j k o s.orders h

-- The body of the loop touches no order but its own.
fill_order-lookup :
    (j k : ℕ) (draw : Draw) (o : BrokerOrder) (s : LocalBroker)
    → j ≢ k
    → lookup j (fill_order k draw o s).1.orders ≡ lookup j s.orders
fill_order-lookup j k draw o s h = store_order-lookup j k _ _ h

-- An order under this ID is terminal.
abbrev IsSettled : ℕ → ℕ × BrokerOrder → Type 0
IsSettled id (k, o) = k ≡ id → is_terminal o.status ≡ true

then_do-orders :
    {A B : Type 0} (id : ℕ) (s : LocalBroker) (x : Result A × LocalBroker)
    (f : A → Action LocalBroker B)
    → lookup id x.1.orders ≡ lookup id s.orders
    → ((a : A) (t : LocalBroker) → lookup id (f a t).1.orders ≡ lookup id t.orders)
    → lookup id (then_do x f).1.orders ≡ lookup id s.orders
then_do-orders id s (ok a, t) f h k = k a t ∙ h
then_do-orders id s (err e, t) f h k = h

reconcile_one-lookup :
    (id k : ℕ) (status : BrokerOrderStatus) (draw : Draw) (o : BrokerOrder) (s : LocalBroker)
    → (k ≡ id → is_terminal status ≡ true)
    → lookup id (reconcile_one status k draw o s).1.orders ≡ lookup id s.orders
reconcile_one-lookup id k BrokerOrderStatus.submitted draw o s h =
    then_do-orders id s (fill_order k draw o s) (λ _. give tt)
      (fill_order-lookup id k draw o s (λ same. cc (h (sym same)))) (λ a t. refl)
reconcile_one-lookup id k BrokerOrderStatus.filled draw o s h = refl
reconcile_one-lookup id k BrokerOrderStatus.cancelled draw o s h = refl
reconcile_one-lookup id k BrokerOrderStatus.rejected draw o s h = refl

reconcile_each-lookup :
    (id : ℕ) (draws : ℕ → Draw) (d : Dict ℕ BrokerOrder) (s : LocalBroker)
    → All (IsSettled id) d
    → lookup id (reconcile_each draws d s).1.orders ≡ lookup id s.orders
unfolding reconcile_each
reconcile_each-lookup id draws [] s h = refl
reconcile_each-lookup id draws ((k, o) ∷ d) s h =
    then_do-orders id s (reconcile_one o.status k (draws k) o s) (λ _. reconcile_each draws d)
      (reconcile_one-lookup id k o.status (draws k) o s h.0)
      (λ a t. reconcile_each-lookup id draws d t h.1)

-- No two entries of a dict share a key.
abbrev pub HasDistinctKeys : Dict ℕ BrokerOrder → Type 0
HasDistinctKeys = Entries (λ _ _. Unit {0})

absent-IsSettled : (id : ℕ) (d : Dict ℕ BrokerOrder) → lookup id d ≡ none → All (IsSettled id) d
absent-IsSettled id [] h = tt
absent-IsSettled id ((k, o) ∷ d) h = ground (arith, ==_iff id k, absent-IsSettled id d)

found-IsSettled :
    (id : ℕ) (d : Dict ℕ BrokerOrder) (o : BrokerOrder)
    → HasDistinctKeys d
    → lookup id d ≡ some o
    → is_terminal o.status ≡ true
    → All (IsSettled id) d
found-IsSettled id [] o u h t = cc
found-IsSettled id ((k, p) ∷ d) o u h t =
    ground (arith, ==_iff id k, found-IsSettled id d o u.2, absent-IsSettled id d)

connected_do-orders :
    {B : Type 0} (id : ℕ) (s : LocalBroker) (m : Action LocalBroker B)
    → lookup id (m s).1.orders ≡ lookup id s.orders
    → lookup id (connected_do m s).1.orders ≡ lookup id s.orders
connected_do-orders {B} id s m h = elim (Bool-cases s.connected) [
  | inl on ↦ ap (λ (x : Result B × LocalBroker). lookup id x.1.orders) (connected_on m s on) ∙ h
  | inr off ↦ ap (λ (x : Result B × LocalBroker). lookup id x.1.orders) (connected_off m s off)
]

-- If the paper adapter holds, under distinct IDs, a filled, cancelled or rejected order, a reconciliation of its orders, whether
-- it returns or raises, leaves the record of that order as it is.
pub reconcile_orders_terminal :
    (draws : ℕ → Draw) (id : ℕ) (s : LocalBroker) (o : BrokerOrder)
    → HasDistinctKeys s.orders
    → lookup id s.orders ≡ some o
    → is_terminal o.status ≡ true
    → lookup id (reconcile_orders draws s).1.orders ≡ some o
unfolding reconcile_orders
reconcile_orders_terminal draws id s o u found terminal =
    connected_do-orders id s
      (λ t. then_do (reconcile_each draws t.orders t) λ _ t'. (ok (values t'.orders), t'))
      (then_do-orders id s (reconcile_each draws s.orders s) (λ _ t'. (ok (values t'.orders), t'))
        (reconcile_each-lookup id draws s.orders s (found-IsSettled id s.orders o u found terminal))
        (λ a t. refl))
    ∙ found

get_order_found :
    (id : ℕ) (s : LocalBroker) {o : BrokerOrder}
    → s.connected ≡ true
    → lookup id s.orders ≡ some o
    → get_order id s ≡ (ok o, s)
unfolding get_order
get_order_found id s on found =
    connected_on (λ t. (or_raise (lookup id t.orders) Error.order_not_found, t)) s on
    ∙ ap (λ x. (or_raise x Error.order_not_found, s)) found

-- With a connected adapter, cancelling a filled or a rejected order raises, cancelling a cancelled one returns its record, and
-- none of the three changes the adapter.
pub cancel_order_terminal :
    (id : ℕ) (now : Datetime) (s : LocalBroker) (o : BrokerOrder)
    → s.connected ≡ true
    → lookup id s.orders ≡ some o
    → is_terminal o.status ≡ true
    → ((cancel_order id now s) ≡ (ok o, s)) × (o.status ≡ BrokerOrderStatus.cancelled)
      ⊎ ((cancel_order id now s) ≡ (err Error.order_state, s))
        × (o.status ≢ BrokerOrderStatus.cancelled)
unfolding cancel_order
cancel_order_terminal id now s o on found terminal =
    rw (get_order_found id s on found) (go o.status terminal)
  where
    go :
        (status : BrokerOrderStatus)
        → is_terminal status ≡ true
        → (cancel_by_status status id now o s ≡ (ok o, s)) × (status ≡ BrokerOrderStatus.cancelled)
          ⊎ (cancel_by_status status id now o s ≡ (err Error.order_state, s))
            × (status ≢ BrokerOrderStatus.cancelled)
    go BrokerOrderStatus.cancelled t = inl (refl, refl)
    go BrokerOrderStatus.filled t = inr (refl, λ e. cc)
    go BrokerOrderStatus.rejected t = inr (refl, λ e. cc)
    go BrokerOrderStatus.submitted t = cc
