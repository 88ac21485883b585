-- ===== src/Brokers/Simulated/Atomic.antt =====
-- An execution is atomic: it raises and leaves the broker and the portfolio as they were, or it
-- completes, keeps the portfolio valid and adds one transaction to the log.
use native.Mathlib.Nat.{mul-le-mul_right}
use broker_ai.Base.{
  ℕ, ◌≤◌, ◌<◌, ◌≡◌, refl, ◌⊎◌, inl, inr, Option, none, some, arith, text_eq, Option-cases,
  Bool-cases, ltb,
}
use broker_ai.Base.Int.{pos, ◌≤ℤ◌, ◌<ℤ◌, leb_ℤ, ltb_ℤ}
use broker_ai.Base.Result.{Error, ok, err}
use broker_ai.Base.Dict.{lookup}
use broker_ai.Decimal.{Amount, finite, nought, add, sub, negate, div_int, mul_int}
use broker_ai.Decimal.Signs.{add_pos, add_lower, mul_int_lower, div_int_pos, mul_int_pos}
use broker_ai.Domain.Instrument.{Instrument, instrument_beq_iff}
use broker_ai.Domain.Order.{Order, IsValidOrder, total_value}
use broker_ai.Domain.Position.{Position, new_position, add_purchase, remove_sale}
use broker_ai.Domain.Portfolio.{Portfolio, deposit, withdraw, record_purchase, record_sale}
use broker_ai.Brokers.Simulated.Defs.{execute_buy, execute_sell}

-- What is stored under an instrument's symbol, if anything, is that instrument.
abbrev pub IsOwn : Instrument → Option Position → Type 0
IsOwn i none = Unit
IsOwn i (some position) = position.instrument ≡ i

-- With positive values and no other instrument in the way, a purchase is booked.
pub record_purchase_ok :
    (i : Instrument) (q : ℕ) (price : Amount) (p : Portfolio)
    → 0 < q
    → nought <ℤ price
    → IsOwn i (lookup i.symbol p.positions)
    → (record_purchase i (pos q) (finite price) p).0 ≡ ok tt
unfolding record_purchase new_position add_purchase
record_purchase_ok i q price p hq hp own = elim (Option-cases (lookup i.symbol p.positions)) [
  | inl e ↦ ground arith
  | inr (old, e) ↦ ground (arith, instrument_beq_iff old.instrument i)
]

-- The cost of a unit, fee included, does not round to zero.
unit_cost_pos :
    (o : Order) (fee : Amount)
    → IsValidOrder o
    → nought ≤ℤ fee
    → let total_debit = add (total_value o) fee in
      (nought <ℤ total_debit) × (nought <ℤ div_int total_debit o.quantity)
unfolding total_value
unit_cost_pos o fee v hf =
    let value = mul_int o.price o.quantity in
    let value_pos = mul_int_pos o.price o.quantity v.price_pos v.quantity_pos in
    let debit_pos = add_pos value fee value_pos hf in
    (
      debit_pos,
      div_int_pos (add value fee) o.quantity v.quantity_pos debit_pos (
          omega (
            arith,
            add_lower value fee (omega arith) hf,
            mul_int_lower o.price o.quantity (omega arith),
            mul-le-mul_right o.quantity v.price_pos,
          )),
    )

withdraw_ok :
    (a : Amount) (p : Portfolio)
    → nought <ℤ a
    → a ≤ℤ p.cash_balance
    → withdraw (finite a) p ≡ (ok tt, record p { cash_balance = sub p.cash_balance a })
unfolding withdraw
withdraw_ok a p h le = ground arith

deposit_ok :
    (a : Amount) (p : Portfolio)
    → nought <ℤ a
    → deposit (finite a) p ≡ (ok tt, record p { cash_balance = add p.cash_balance a })
unfolding deposit
deposit_ok a p h = ground arith

-- The portfolio after a buy that is paid for.
abbrev pub after_buy : Amount → Order → Portfolio → Portfolio
after_buy fee o p =
    let total_debit = add (total_value o) fee in
    (record_purchase o.instrument (pos o.quantity) (finite (div_int total_debit o.quantity))
      (record p { cash_balance = sub p.cash_balance total_debit })).1

-- A buy is refused for lack of cash, with nothing changed, or goes through.
pub execute_buy-cases :
    (fee : Amount) (o : Order) (p : Portfolio)
    → IsValidOrder o
    → nought ≤ℤ fee
    → IsOwn o.instrument (lookup o.instrument.symbol p.positions)
    → (execute_buy fee o p ≡ (err Error.insufficient_cash, p))
      ⊎ (add (total_value o) fee ≤ℤ p.cash_balance)
        × (execute_buy fee o p ≡ (ok (negate (add (total_value o) fee)), after_buy fee o p))
unfolding execute_buy
execute_buy-cases fee o p v hf own =
    let debit = add (total_value o) fee in
    let (debit_pos, cost_pos) = unit_cost_pos o fee v hf in
    elim (Bool-cases (ltb_ℤ p.cash_balance debit)) [
      | inl short ↦ inl (rw short)
      | inr covered ↦
          let le : debit ≤ℤ p.cash_balance = ground arith in
          let paid = record p { cash_balance = sub p.cash_balance debit } in
          inr (
            le,
            ground (
              arith,
              withdraw_ok debit p debit_pos le,
              record_purchase_ok o.instrument o.quantity (div_int debit o.quantity) paid
                  v.quantity_pos cost_pos own,
            ),
          )
    ]

-- A sale of no more than is held, at a positive price, is booked.
record_sale_ok :
    (i : Instrument) (q : ℕ) (price : Amount) (p : Portfolio) (old : Position)
    → 0 < q
    → q ≤ old.quantity
    → nought <ℤ price
    → lookup i.symbol p.positions ≡ some old
    → old.instrument ≡ i
    → (record_sale i (pos q) (finite price) p).0 ≡ ok tt
unfolding record_sale remove_sale
record_sale_ok i q price p old hq le hp e own = ground (arith, instrument_beq_iff old.instrument i)

record_sale_refused :
    (i : Instrument) (q : ℕ) (price : Amount) (p : Portfolio)
    → 0 < q
    → ¬ (nought <ℤ price)
    → record_sale i (pos q) (finite price) p ≡ (err Error.not_positive, p)
unfolding record_sale
record_sale_refused i q price p hq hp = ground arith

-- The portfolio after a sell.
abbrev pub after_sell : Amount → Order → Portfolio → Portfolio
after_sell fee o p =
    let net = sub (total_value o) fee in
    let sold = (record_sale o.instrument (pos o.quantity) (finite (div_int net o.quantity)) p).1 in
    record sold { cash_balance = add sold.cash_balance net }

-- A sell is refused with nothing changed, or goes through and pays the proceeds.
pub execute_sell-cases :
    (fee : Amount) (o : Order) (existing : Option Position) (p : Portfolio)
    → IsValidOrder o
    → IsOwn o.instrument existing
    → lookup o.instrument.symbol p.positions ≡ existing
    → ((x : Error) × (execute_sell fee o existing p ≡ (err x, p)))
      ⊎ (nought <ℤ sub (total_value o) fee)
        × (execute_sell fee o existing p ≡ (ok (sub (total_value o) fee), after_sell fee o p))
unfolding execute_sell
execute_sell-cases fee o none p v own e = inl (Error.no_position, refl)
execute_sell-cases fee o (some old) p v own e =
    let net = sub (total_value o) fee in
    let price = div_int net o.quantity in
    elim (Bool-cases (ltb old.quantity o.quantity)) [
      | inl short ↦ inl (Error.insufficient_shares, rw short)
      | inr enough ↦ elim (Bool-cases (leb_ℤ net nought)) [
        | inl too_little ↦ inl (Error.proceeds_not_positive, rw (enough, too_little))
        | inr paid ↦ elim (Bool-cases (ltb_ℤ nought price)) [
          | inl positive ↦ inr (
            ground arith,
            ground (
              arith,
              record_sale_ok o.instrument o.quantity price p old v.quantity_pos,
              deposit_ok net (record_sale o.instrument (pos o.quantity) (finite price) p).1,
            ),
          )
          | inr vanished ↦ inl (
            Error.not_positive,
            ground (arith, record_sale_refused o.instrument o.quantity price p v.quantity_pos),
          )
        ]
      ]
    ]
