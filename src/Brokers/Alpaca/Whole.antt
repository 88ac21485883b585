-- ===== src/Brokers/Alpaca/Whole.antt =====
-- The executions that `_to_broker_order` makes of a filled order.
use broker_ai.Base.{ℕ, ◌≡◌, inl, inr, refl, sym, ap, subst, ◌==◌, ==_iff, Bool-cases}
use broker_ai.Base.Result.{Result, ok, err, ◌>>=◌, Gives}
use broker_ai.Decimal.{Amount, nought, negate, mul_int}
use broker_ai.Domain.Order.{Order, OrderSide}
use broker_ai.Domain.Transaction.{Transaction, new_transaction, new_transaction_zoned}
use broker_ai.Domain.Time.{Datetime}
use broker_ai.Brokers.Simulated.{Execution, ExecutionStatus}
use broker_ai.Brokers.Alpaca.Answers.{fill, cash_change, fill_of}

-- What a side pays or receives of a gross value.
abbrev pub IsPaid : OrderSide → Amount → Amount → Type 0
IsPaid OrderSide.buy gross change = change ≡ negate gross
IsPaid OrderSide.sell gross change = change ≡ gross

-- The execution of a whole order: of its own quantity, without a fee.
pub record IsWhole (order : Order) (e : Execution) : Type 0 where
  pub of_order : e.order ≡ order
  pub same_order : e.transaction.order_id ≡ order.order_id
  pub same_side : e.transaction.side ≡ order.side
  pub same_quantity : e.transaction.quantity ≡ order.quantity
  pub gross : e.transaction.gross_value ≡ mul_int e.transaction.price order.quantity
  pub free : e.transaction.fee ≡ nought
  pub change : IsPaid order.side e.transaction.gross_value e.transaction.cash_change

-- An execution of the whole order, whose quantity, price and time are those that were read.
abbrev pub Fills : ℕ → Order → Result ℕ → Result Amount → Result Datetime → Execution → Type 0
Fills id order quantity price time e =
    IsWhole order e
    × (e.transaction.transaction_id ≡ id)
    × (quantity ≡ ok order.quantity)
    × (price ≡ ok e.transaction.price)
    × (time ≡ ok e.transaction.executed_at)

pub fill-Fills :
    (id : ℕ) (order : Order) (quantity : Result ℕ) (price : Result Amount) (time : Result Datetime)
    → Gives (Fills id order quantity price time) (fill id order quantity price time)
fill-Fills id order (err e) price time = tt
fill-Fills id order (ok q) price time = elim (Bool-cases (q == order.quantity)) [
  | inr other ↦ rw other tt
  | inl same ↦ rw same (counted ((==_iff q order.quantity).0 same) price time)
]
  where
    made :
        (p : Amount) (t : Datetime) (r : Result Transaction)
        → q ≡ order.quantity
        → new_transaction (fill_of id order q p t) ≡ r
        → Gives (Fills id order (ok q) (ok p) (ok t)) (
            r >>= λ transaction.
            ok (record {
              order = order;
              status = ExecutionStatus.filled;
              transaction = transaction;
            }))
    made p t (err e) same is = tt
    made p t (ok transaction) same is =
        let given = (new_transaction_zoned (fill_of id order q p t) is).0 in
        subst
          (λ (x : Transaction).
            Fills id order (ok q) (ok p) (ok t)
              (record { order = order; status = ExecutionStatus.filled; transaction = x }))
          (sym given)
          (
            record {
              of_order = refl;
              same_order = refl;
              same_side = refl;
              same_quantity = same;
              gross = ap (mul_int p) same;
              free = refl;
              change = paid order.side;
            },
            refl,
            ap ok same,
            refl,
            refl,
          )
      where
        paid : (side : OrderSide) → IsPaid side (mul_int p q) (cash_change side (mul_int p q))
        paid OrderSide.buy = refl
        paid OrderSide.sell = refl

    counted :
        q ≡ order.quantity
        → (price : Result Amount) (time : Result Datetime)
        → Gives (Fills id order (ok q) price time) (
            price >>= λ p. time >>= λ t. new_transaction (fill_of id order q p t) >>= λ transaction.
            ok (record {
              order = order;
              status = ExecutionStatus.filled;
              transaction = transaction;
            }))
    counted same (err e) time = tt
    counted same (ok p) (err e) = tt
    counted same (ok p) (ok t) = made p t (new_transaction (fill_of id order q p t)) same refl
