-- ===== src/Brokers/Simulated/Settlement.antt =====
-- `execute` as a whole: what it leaves alone when it raises, and what it has done when it returns.
use broker_ai.Base.{
  ℕ, ◌≡◌, refl, inl, inr, false, Option, none, some, [], ◌∷◌, ◌++◌, arith, Text, text_eq, sym, ◌∙◌,
  ap,
}
use broker_ai.Base.Int.{ℤ, pos, ◌≤ℤ◌}
use broker_ai.Base.Result.{Result, ok, err}
use broker_ai.Base.Dict.{lookup}
use broker_ai.Decimal.{Amount, Decimal, finite, nought, add, sub, div_int}
use broker_ai.Decimal.Signs.{negate-add, sub-eq-add, add_nonneg, sub_nonneg}
use broker_ai.Domain.Instrument.{Instrument, IsNormal, normal_symbol, instrument_beq_iff}
use broker_ai.Domain.Order.{Order, OrderSide, IsValidOrder, total_value, total_value_pos}
use broker_ai.Domain.Position.{Position}
use broker_ai.Domain.Portfolio.{Portfolio, record_purchase, record_sale, get_position}
use broker_ai.Domain.Portfolio.Invariant.{IsValid, record_purchase-IsValid, record_sale-IsValid}
use broker_ai.Domain.Time.{Datetime, aware, naive}
use broker_ai.Domain.Transaction.{Transaction, new_transaction, new_transaction_zoned}
use broker_ai.Brokers.Simulated.Defs.{
  SimulatedBroker, Execution, execute_buy, execute_sell, by_side, precheck, settle, transaction_of,
  execute, validate_transaction_metadata, is_foreign, run_checked, log_transaction,
}
use broker_ai.Brokers.Simulated.Atomic.{IsOwn, execute_buy-cases, execute_sell-cases}

-- Booking a trade in the positions touches neither the cash nor the currency.
record_purchase_cash :
    (i : Instrument) (q : ℤ) (price : Decimal) (p : Portfolio)
    → (record_purchase i q price p).1.cash_balance ≡ p.cash_balance
unfolding record_purchase
record_purchase_cash i q price p = ground arith

record_sale_cash :
    (i : Instrument) (q : ℤ) (price : Decimal) (p : Portfolio)
    → (record_sale i q price p).1.cash_balance ≡ p.cash_balance
unfolding record_sale
record_sale_cash i q price p = ground arith

-- What one side of an execution has done to the portfolio, by how it ended.
abbrev Pays : Portfolio → Result Amount × Portfolio → Type 0
Pays before (err _, after) = after ≡ before
Pays before (ok cash_change, after) =
    IsValid after × (after.cash_balance ≡ add before.cash_balance cash_change)

cash-IsValid :
    (cash : Amount) {p : Portfolio}
    → IsValid p
    → nought ≤ℤ cash
    → IsValid (record p { cash_balance = cash })
cash-IsValid cash v h = record { cash_nonneg = h; positions_stored = v.positions_stored }

buy-Pays :
    (fee : Amount) (o : Order) (p : Portfolio)
    → IsValidOrder o
    → nought ≤ℤ fee
    → IsValid p
    → IsOwn o.instrument (lookup o.instrument.symbol p.positions)
    → Pays p (execute_buy fee o p)
buy-Pays fee o p v hf valid own = elim (execute_buy-cases fee o p v hf own) [
  | inl refused ↦ rw refused refl
  | inr (covered, done) ↦
      let debit = add (total_value o) fee in
      let paid = record p { cash_balance = sub p.cash_balance debit } in
      let q = pos o.quantity in
      let cost = finite (div_int debit o.quantity) in
      rw done (
        record_purchase-IsValid o.instrument q cost (
            cash-IsValid (sub p.cash_balance debit) valid
              (sub_nonneg p.cash_balance debit covered)),
        record_purchase_cash o.instrument q cost paid
            ∙ sub-eq-add p.cash_balance debit
            ∙ ap (add p.cash_balance) (sym (negate-add (total_value o) fee)),
      )
]

sell-Pays :
    (fee : Amount) (o : Order) (existing : Option Position) (p : Portfolio)
    → IsValidOrder o
    → IsValid p
    → IsOwn o.instrument existing
    → lookup o.instrument.symbol p.positions ≡ existing
    → Pays p (execute_sell fee o existing p)
sell-Pays fee o existing p v valid own e = elim (execute_sell-cases fee o existing p v own e) [
  | inl (x, refused) ↦ rw refused refl
  | inr (positive, done) ↦
      let net = sub (total_value o) fee in
      let q = pos o.quantity in
      let price = finite (div_int net o.quantity) in
      let sold = record_sale-IsValid o.instrument q price valid in
      let cash = record_sale_cash o.instrument q price p in
      rw done (
        cash-IsValid _ sold (add_nonneg _ net sold.cash_nonneg (omega arith)),
        ap (λ (t : Amount). add t net) cash,
      )
]

-- What a call of `execute` has done to the broker and the portfolio, by how it ended.
abbrev pub Settles :
    SimulatedBroker × Portfolio → Result Execution × (SimulatedBroker × Portfolio) → Type 0
Settles before (err _, after) = after ≡ before
Settles before (ok e, after) =
    IsValid after.1
    × (after.1.cash_balance ≡ add before.1.cash_balance e.transaction.cash_change)
    × (after.0.transactions ≡ before.0.transactions ++ (e.transaction ∷ []))
    × (after.0.fee_per_order ≡ before.0.fee_per_order)

-- The audit record of a valid order is always accepted, so a paid trade is always logged.
new_transaction_ok :
    (b : SimulatedBroker) (o : Order) (id t : ℕ) (c : Amount) (p p' : Portfolio)
    → IsValidOrder o
    → nought ≤ℤ b.fee_per_order
    → let record_of = transaction_of b o id (aware t) c p p' in
      new_transaction record_of ≡ ok record_of
unfolding new_transaction
new_transaction_ok b o id t c p p' v hf =
    ground (arith, total_value_pos v, v.quantity_pos, v.price_pos)

settle-Settles :
    (b : SimulatedBroker) (o : Order) (id t : ℕ) (p : Portfolio) (r : Result Amount)
    (after : Portfolio)
    → IsValidOrder o
    → nought ≤ℤ b.fee_per_order
    → Pays p (r, after)
    → Settles (b, p) (settle o id (aware t) b p (r, after))
settle-Settles b o id t p (err x) after v hf same = ap (λ (q : Portfolio). (b, q)) same
settle-Settles b o id t p (ok c) after v hf (valid, cash) =
    rw (new_transaction_ok b o id t c p after v hf) (valid, cash, refl, refl)

side-Pays :
    (side : OrderSide) (fee : Amount) (o : Order) (existing : Option Position) (p : Portfolio)
    → IsValidOrder o
    → nought ≤ℤ fee
    → IsValid p
    → IsOwn o.instrument existing
    → lookup o.instrument.symbol p.positions ≡ existing
    → Pays p (by_side side fee o existing p)
side-Pays OrderSide.buy fee o existing p v hf valid own e = buy-Pays fee o p v hf valid (rw e own)
side-Pays OrderSide.sell fee o existing p v hf valid own e =
    sell-Pays fee o existing p v valid own e

-- What the checks have established when they let an order through.
precheck_zoned :
    (b : SimulatedBroker) (o : Order) (id : ℕ) (at : Datetime) (p : Portfolio)
    {existing : Option Position}
    → precheck b o id at p ≡ ok existing
    → (t : ℕ) × (at ≡ aware t)
unfolding precheck validate_transaction_metadata
precheck_zoned b o id (aware t) p e = (t, refl)
precheck_zoned b o id (naive t) p e = ground arith

precheck_existing :
    (b : SimulatedBroker) (o : Order) (id : ℕ) (at : Datetime) (p : Portfolio)
    (existing : Option Position)
    → precheck b o id at p ≡ ok existing
    → (get_position o.instrument.symbol p ≡ existing) × (is_foreign existing o.instrument ≡ false)
unfolding precheck validate_transaction_metadata
precheck_existing b o id at p existing e = ground arith

-- A look-up by a normal symbol is a look-up of the stored key.
pub get_position_normal :
    (i : Instrument) (p : Portfolio)
    → IsNormal i
    → get_position i.symbol p ≡ lookup i.symbol p.positions
unfolding get_position
get_position_normal i p n = ap (λ (s : Text). lookup s p.positions) (normal_symbol n)

IsOwn-unless_foreign :
    (existing : Option Position) (i : Instrument) → is_foreign existing i ≡ false → IsOwn i existing
IsOwn-unless_foreign none i e = tt
IsOwn-unless_foreign (some q) i e = ground (arith, instrument_beq_iff q.instrument i)

-- An execution of a valid order, for an instrument in normal form, on a valid portfolio and with a
-- fee that is not negative either raises and changes nothing at all, or returns, leaves the
-- portfolio valid and the fee as it was, adds to the cash the change that it logs, and appends just
-- its own transaction to the log.
pub execute-Settles :
    (id : ℕ) (at : Datetime) (o : Order) (b : SimulatedBroker) (p : Portfolio)
    → IsNormal o.instrument
    → IsValidOrder o
    → nought ≤ℤ b.fee_per_order
    → IsValid p
    → Settles (b, p) (execute id at o (b, p))
unfolding execute
execute-Settles id at o b p n v hf valid = go (precheck b o id at p) refl
  where
    go :
        (r : Result (Option Position))
        → precheck b o id at p ≡ r
        → Settles (b, p) (run_checked o id at r (b, p))
    go (err x) e = refl
    go (ok existing) e =
        let (t, zoned) = precheck_zoned b o id at p e in
        let (asked, familiar) = precheck_existing b o id at p existing e in
        let found = sym (get_position_normal o.instrument p n) ∙ asked in
        let own = IsOwn-unless_foreign existing o.instrument familiar in
        let paid = by_side o.side b.fee_per_order o existing p in
        rw zoned (
          settle-Settles b o id t p paid.0 paid.1 v hf
            (side-Pays o.side b.fee_per_order o existing p v hf valid own found))

log_transaction_zoned :
    (o : Order) (b : SimulatedBroker) (p : Portfolio) (t : Transaction) (r : Result Transaction)
    {e : Execution}
    → new_transaction t ≡ r
    → (log_transaction o b p r).0 ≡ ok e
    → (n : ℕ) × (e.transaction.executed_at ≡ aware n)
log_transaction_zoned o b p t (err x) made done = cc
log_transaction_zoned o b p t (ok t') made done =
    let (same, (n, zoned)) = new_transaction_zoned t made in (n, ground arith)

settle_zoned :
    (o : Order) (id : ℕ) (at : Datetime) (b : SimulatedBroker) (p : Portfolio)
    (r : Result Amount × Portfolio) {e : Execution}
    → (settle o id at b p r).0 ≡ ok e
    → (n : ℕ) × (e.transaction.executed_at ≡ aware n)
settle_zoned o id at b p (err x, after) done = cc
settle_zoned o id at b p (ok c, after) done =
    log_transaction_zoned o b after (transaction_of b o id at c p after) _ refl done

-- An execution that returns bears a time with a zone.
pub execute_zoned :
    (id : ℕ) (at : Datetime) (o : Order) (b : SimulatedBroker) (p : Portfolio) {e : Execution}
    → (execute id at o (b, p)).0 ≡ ok e
    → (n : ℕ) × (e.transaction.executed_at ≡ aware n)
unfolding execute
execute_zoned id at o b p {e} done = go (precheck b o id at p) done
  where
    go :
        (r : Result (Option Position))
        → (run_checked o id at r (b, p)).0 ≡ ok e
        → (n : ℕ) × (e.transaction.executed_at ≡ aware n)
    go (err x) d = cc
    go (ok existing) d = settle_zoned o id at b p (by_side o.side b.fee_per_order o existing p) d
