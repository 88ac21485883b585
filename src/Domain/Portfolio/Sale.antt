-- ===== src/Domain/Portfolio/Sale.antt =====
-- What `record_sale` takes out of a portfolio.
use broker_ai.Base.{
  ℕ, ◌+◌, ◌<◌, ◌==◌, ◌≡◌, ◌≢◌, refl, sym, ap, ◌∙◌, Option, none, some, Text, text_eq, arith, inl,
  inr, Bool-cases,
}
use broker_ai.Base.Int.{ℤ, pos}
use broker_ai.Base.Result.{Result, ok, err}
use broker_ai.Base.Dict.{
  Dict, lookup, insert, insert-found, lookup-insert_self, lookup-insert_ne, lookup-erase_self,
  lookup-erase_ne,
}
use broker_ai.Decimal.{Amount, Decimal, finite}
use broker_ai.Domain.Instrument.{Instrument, instrument_beq}
use broker_ai.Domain.Position.{Position, remove_sale}
use broker_ai.Domain.Portfolio.Defs.{Portfolio, record_sale, sale_from, book_sale}
use broker_ai.Domain.Portfolio.Invariant.{IsStored, IsValid, record_sale-IsValid}

-- The units of what is stored under a symbol, if anything is.
abbrev pub units : Option Position → ℕ
units none = 0
units (some position) = position.quantity

-- A number of units has left one position, and no other position is touched.
pub record IsSold (symbol : Text) (quantity : ℕ) (p after : Portfolio) : Type 0 where
  pub sold : units (lookup symbol p.positions) ≡ quantity + units (lookup symbol after.positions)
  pub same_others : (s : Text) → s ≢ symbol → lookup s after.positions ≡ lookup s p.positions
  pub same_cash : after.cash_balance ≡ p.cash_balance

-- How a sale ends.
abbrev pub Sells : Instrument → ℤ → Portfolio → Result (Unit {0}) × Portfolio → Type 0
Sells i q p (err e, after) = after ≡ p
Sells i q p (ok _, after) = (n : ℕ) × (q ≡ pos n) × (0 < n) × IsSold i.symbol n p after

-- A sale of units takes them all out of the position, or raises and leaves it alone.
abbrev Removes : ℕ → Position → Result Amount × Position → Type 0
Removes n old (err e, position) = position ≡ old
Removes n old (ok cost, position) = (0 < n) × (old.quantity ≡ n + position.quantity)

remove_sale-Removes : (n : ℕ) (old : Position) → Removes n old (remove_sale (pos n) old)
unfolding remove_sale
remove_sale-Removes n old = ground arith

book_sale-Sells :
    (i : Instrument) (n : ℕ) (price : Amount) (old : Position) (r : Result Amount × Position)
    (p : Portfolio)
    → IsValid p
    → lookup i.symbol p.positions ≡ some old
    → Removes n old r
    → Sells i (pos n) p (book_sale i.symbol n price r p)
book_sale-Sells i n price old (err e, position) p v found same =
    ap (λ (d : Dict Text Position). record p { positions = d })
      (ap (λ (o : Position). insert i.symbol o p.positions) same
        ∙ insert-found i.symbol old p.positions found)
book_sale-Sells i n price old (ok cost, position) p v found (positive, taken) =
    elim (Bool-cases (position.quantity == 0)) [
      | inl sold_out ↦ rw sold_out (
        n,
        refl,
        positive,
        record {
          sold =
              ap units found
              ∙ ground (arith, taken, sold_out)
              ∙ sym (
                  ap (λ (o : Option Position). n + units o)
                    (lookup-erase_self IsStored i.symbol p.positions v.positions_stored));
          same_others = λ s other. lookup-erase_ne s i.symbol p.positions other;
          same_cash = refl;
        },
      )
      | inr more ↦ rw more (
        n,
        refl,
        positive,
        record {
          sold =
              ap units found
              ∙ taken
              ∙ sym (
                  ap (λ (o : Option Position). n + units o)
                    (lookup-insert_self i.symbol position p.positions));
          same_others = λ s other. lookup-insert_ne s i.symbol position p.positions other;
          same_cash = refl;
        },
      )
    ]

sale_from-Sells :
    (i : Instrument) (n : ℕ) (price : Amount) (o : Option Position) (p : Portfolio)
    → IsValid p
    → lookup i.symbol p.positions ≡ o
    → Sells i (pos n) p (sale_from i n price o p)
sale_from-Sells i n price none p v found = refl
sale_from-Sells i n price (some old) p v found =
    elim (Bool-cases (instrument_beq old.instrument i)) [
      | inl same ↦ rw same (
          book_sale-Sells i n price old (remove_sale (pos n) old) p v found
            (remove_sale-Removes n old))
      | inr other ↦ rw other refl
    ]

record_sale-Sells :
    (i : Instrument) (q : ℤ) (price : Decimal) (p : Portfolio)
    → IsValid p
    → Sells i q p (record_sale i q price p)
unfolding record_sale
record_sale-Sells i (pos n) (finite a) p v =
    ground (arith, sale_from-Sells i n a (lookup i.symbol p.positions) p v refl)
record_sale-Sells i q price p v = ground arith

-- A sale from a valid portfolio, for any instrument, quantity and price, leaves a valid portfolio.
-- If it raises, nothing is changed. If it returns, the quantity was above zero and its units were
-- all held: the units before are those sold and those left, with no unit left when the position
-- is dropped; the positions under other symbols and the cash are as they were.
pub record_sale-IsSale :
    (i : Instrument) (q : ℤ) (price : Decimal) (p : Portfolio)
    → IsValid p
    → IsValid (record_sale i q price p).1 × Sells i q p (record_sale i q price p)
record_sale-IsSale i q price p v =
    (record_sale-IsValid i q price v, record_sale-Sells i q price p v)
