-- ===== src/Domain/Portfolio/Invariant.antt =====
-- The invariant of a portfolio, and that every method keeps it on every branch.
use broker_ai.Base.{
  ℕ, ◌≡◌, ◌≢◌, refl, Option, none, some, Text, text_eq, arith, inl, inr, Bool-cases, ◌==◌,
}
use broker_ai.Base.Int.{ℤ, pos, ◌≤ℤ◌}
use broker_ai.Base.Result.{Result, Error, ok, err}
use broker_ai.Base.Dict.{lookup, erase, Entries, Entries-lookup, Entries-insert, Entries-erase}
use broker_ai.Decimal.{Amount, Decimal, finite, nought}
use broker_ai.Decimal.Signs.{add_nonneg, sub_nonneg}
use broker_ai.Domain.Instrument.{Instrument}
use broker_ai.Domain.Position.{
  Position, IsValidPosition, new_position, new_position-IsValidPosition, new_position-instrument,
  add_purchase, remove_sale, bought-IsValidPosition,
}
use broker_ai.Domain.Portfolio.Defs.{
  Portfolio, deposit, withdraw, record_purchase, record_sale, put_position, purchase_into,
  store_new, book_sale, new_portfolio, sale_from,
}

-- A stored position is valid, and stands under the symbol of its instrument.
abbrev pub IsStored : Text → Position → Type 0
IsStored symbol p = IsValidPosition p × (p.instrument.symbol ≡ symbol)

-- Cash is not negative, every stored position is valid and stands under its own symbol, and no
-- symbol is stored twice.
pub record IsValid (p : Portfolio) : Type 0 where
  pub cash_nonneg : nought ≤ℤ p.cash_balance
  pub positions_stored : Entries IsStored p.positions

pub new_portfolio-IsValid :
    (cash : Decimal) (c : _) {p : Portfolio} → new_portfolio cash c ≡ ok p → IsValid p
unfolding new_portfolio
new_portfolio-IsValid cash c e = ground arith

pub deposit-IsValid : (a : Decimal) {p : Portfolio} → IsValid p → IsValid (deposit a p).1
unfolding deposit
deposit-IsValid a v = grind (arith, add_nonneg)

-- A withdrawal keeps a valid portfolio valid, whether it returns or raises: the cash stays at zero
-- or above, and the positions are still stored under their own symbols.
pub withdraw-IsValid : (a : Decimal) {p : Portfolio} → IsValid p → IsValid (withdraw a p).1
unfolding withdraw
withdraw-IsValid a v = grind (arith, sub_nonneg)

put_position-IsValid :
    (symbol : Text) (q : Position) {p : Portfolio}
    → IsValid p
    → IsStored symbol q
    → IsValid (put_position symbol q p)
put_position-IsValid symbol q {p} v s = record {
  cash_nonneg = v.cash_nonneg;
  positions_stored = Entries-insert IsStored symbol q p.positions v.positions_stored s;
}

-- A stored position of the portfolio.
found-IsStored :
    (symbol : Text) (q : Position) {p : Portfolio}
    → IsValid p
    → lookup symbol p.positions ≡ some q
    → IsStored symbol q
found-IsStored symbol q {p} v e = Entries-lookup IsStored symbol q p.positions v.positions_stored e

store_new-IsValid :
    (i : Instrument) (q : ℤ) (price : Decimal) (r : Result Position) {p : Portfolio}
    → IsValid p
    → new_position i q price ≡ r
    → IsValid (store_new i.symbol r p).1
store_new-IsValid i q price (err e) v made = v
store_new-IsValid i q price (ok position) v made =
    put_position-IsValid i.symbol position v
      (new_position-IsValidPosition i q price made, new_position-instrument i q price made)

-- Adding to a valid position leaves a valid position of the same instrument, raised or not.
add_purchase-IsStored :
    (q : ℤ) (price : Decimal) (position : Position) {symbol : Text}
    → IsStored symbol position
    → IsStored symbol (add_purchase q price position).1
unfolding add_purchase
add_purchase-IsStored (pos n) (finite a) position s =
    ground (arith, bought-IsValidPosition n a position s.0)
add_purchase-IsStored q price position s = ground arith

purchase_into-IsValid :
    (i : Instrument) (q : ℤ) (price : Decimal) (o : Option Position) {p : Portfolio}
    → IsValid p
    → lookup i.symbol p.positions ≡ o
    → IsValid (purchase_into i q price o p).1
purchase_into-IsValid i q price none v e =
    store_new-IsValid i q price (new_position i q price) v refl
purchase_into-IsValid i q price (some old) v e =
    let changed = (add_purchase q price old).1 in
    ground (
      arith,
      put_position-IsValid i.symbol changed v
          (add_purchase-IsStored q price old (found-IsStored i.symbol old v e)),
    )

-- A purchase keeps a valid portfolio valid, whether it returns or raises, for any instrument,
-- quantity and price.
pub record_purchase-IsValid :
    (i : Instrument) (q : ℤ) (price : Decimal) {p : Portfolio}
    → IsValid p
    → IsValid (record_purchase i q price p).1
unfolding record_purchase
record_purchase-IsValid i q price {p} v =
    ground (arith, purchase_into-IsValid i q price (lookup i.symbol p.positions) v refl)

-- After a sale the position is still valid, unless its last unit is gone.
remove_sale-IsStored :
    (q : ℤ) (position : Position) {symbol : Text}
    → IsStored symbol position
    → (remove_sale q position).1.quantity ≢ 0
    → IsStored symbol (remove_sale q position).1
unfolding remove_sale
remove_sale-IsStored q position s = ground arith

-- A sale that is refused leaves the position alone.
remove_sale_refused :
    (q : ℤ) (position : Position) {x : _}
    → (remove_sale q position).0 ≡ err x
    → (remove_sale q position).1 ≡ position
unfolding remove_sale
remove_sale_refused q position e = ground arith

erase_position-IsValid :
    (symbol : Text) (profit : Amount) {p : Portfolio}
    → IsValid p
    → IsValid (record p { realized_profit = profit; positions = erase symbol p.positions })
erase_position-IsValid symbol profit {p} v = record {
  cash_nonneg = v.cash_nonneg;
  positions_stored = Entries-erase IsStored symbol p.positions v.positions_stored;
}

realize-IsValid :
    (profit : Amount) {p : Portfolio} → IsValid p → IsValid (record p { realized_profit = profit })
realize-IsValid profit v = record {
  cash_nonneg = v.cash_nonneg;
  positions_stored = v.positions_stored;
}

book_sale-IsValid :
    (symbol : Text) (q : ℕ) (price : Amount) (r : Result Amount) (position : Position)
    {p : Portfolio}
    → IsValid p
    → (position.quantity ≢ 0 → IsStored symbol position)
    → ((x : Error) → r ≡ err x → IsStored symbol position)
    → IsValid (book_sale symbol q price (r, position) p).1
book_sale-IsValid symbol q price (err x) position v left kept =
    put_position-IsValid symbol position v (kept x refl)
book_sale-IsValid symbol q price (ok cost) position {p} v left kept =
    elim (Bool-cases (position.quantity == 0)) [
      | inl sold_out ↦ rw sold_out (erase_position-IsValid symbol _ v)
      | inr more ↦
          rw more (realize-IsValid _ (put_position-IsValid symbol position v (left (ground arith))))
    ]

sale_from-IsValid :
    (i : Instrument) (q : ℕ) (price : Amount) (o : Option Position) {p : Portfolio}
    → IsValid p
    → lookup i.symbol p.positions ≡ o
    → IsValid (sale_from i q price o p).1
sale_from-IsValid i q price none v e = v
sale_from-IsValid i q price (some old) {p} v e =
    let stored = found-IsStored i.symbol old v e in
    let sold = remove_sale (pos q) old in
    let booked : IsValid (book_sale i.symbol q price sold p).1 =
      book_sale-IsValid i.symbol q price sold.0 sold.1 v (remove_sale-IsStored (pos q) old stored)
        (λ x refused. rw (remove_sale_refused (pos q) old refused) stored) in
    ground arith

-- A sale keeps a valid portfolio valid, whether it returns or raises, for any instrument, quantity
-- and price.
pub record_sale-IsValid :
    (i : Instrument) (q : ℤ) (price : Decimal) {p : Portfolio}
    → IsValid p
    → IsValid (record_sale i q price p).1
unfolding record_sale
record_sale-IsValid i (pos n) (finite a) {p} v =
    ground (arith, sale_from-IsValid i n a (lookup i.symbol p.positions) v refl)
record_sale-IsValid i q price v = ground arith
