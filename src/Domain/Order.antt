-- ===== src/Domain/Order.antt =====
-- src/broker_ai/domain/order.py: an immutable request to buy or sell.
use broker_ai.Base.{ℕ, ◌≡◌, ◌↔◌, ◌<◌, Bool, true, false, ◌&&◌, not, ◌==◌, arith}
use broker_ai.Base.Int.{ℤ, pos, pos_part, leb_ℤ, ◌<ℤ◌, eqb_ℤ, eqb_ℤ_iff}
use broker_ai.Base.Result.{Result, Error, ok, raise_if, ◌>>◌, ◌>>=◌}
use broker_ai.Decimal.{Amount, Decimal, nought, require_finite, mul_int}
use broker_ai.Decimal.Signs.{mul_int_pos}
use broker_ai.Domain.Instrument.{Instrument, Currency, instrument_beq, instrument_beq_iff}

pub data OrderSide : Type 0 where
  buy sell : OrderSide

-- The quantity of a validated order is positive, so it is a natural number here.
pub record Order : Type 0 where
  pub instrument : Instrument
  pub side : OrderSide
  pub quantity : ℕ
  pub price : Amount
  pub order_id : ℕ

-- `currency.value in {"EUR", "USD"}`
abbrev is_supported : Currency → Bool
is_supported Currency.eur = true
is_supported Currency.usd = true

unfoldable pub new_order : Instrument → OrderSide → ℤ → Decimal → ℕ → Result Order
new_order instrument side quantity price order_id = do
  raise_if (leb_ℤ quantity (pos 0)) Error.quantity_not_positive
  amount ← require_finite price
  raise_if (leb_ℤ amount nought) Error.not_positive
  raise_if (not (is_supported instrument.currency)) Error.unsupported_currency
  ok (record {
    instrument = instrument;
    side = side;
    quantity = pos_part quantity;
    price = amount;
    order_id = order_id;
  })

-- `Order.total_value`
unfoldable pub total_value : Order → Amount
total_value o = mul_int o.price o.quantity

abbrev pub side_beq : OrderSide → OrderSide → Bool
side_beq OrderSide.buy OrderSide.buy = true
side_beq OrderSide.sell OrderSide.sell = true
side_beq _ _ = false

abbrev pub order_beq : Order → Order → Bool
order_beq o p =
    instrument_beq o.instrument p.instrument
    && side_beq o.side p.side
    && o.quantity == p.quantity
    && eqb_ℤ o.price p.price
    && o.order_id == p.order_id

side_beq_iff : (x y : OrderSide) → (side_beq x y ≡ true) ↔ (x ≡ y)
side_beq_iff x y = ground arith

pub order_beq_iff : (o p : Order) → (order_beq o p ≡ true) ↔ (o ≡ p)
order_beq_iff o p = ground (
  arith,
  instrument_beq_iff o.instrument p.instrument,
  side_beq_iff o.side p.side,
  eqb_ℤ_iff o.price p.price,
)

-- What the constructor guarantees.
pub record IsValidOrder (o : Order) : Type 0 where
  pub quantity_pos : 0 < o.quantity
  pub price_pos : nought <ℤ o.price

pub new_order-IsValidOrder :
    (i : Instrument) (s : OrderSide) (q : ℤ) (p : Decimal) (id : ℕ) {o : Order}
    → new_order i s q p id ≡ ok o
    → IsValidOrder o
unfolding new_order
new_order-IsValidOrder i s q p id e = ground arith

pub total_value_pos : {o : Order} → IsValidOrder o → nought <ℤ total_value o
unfolding total_value
total_value_pos {o} v = mul_int_pos o.price o.quantity v.price_pos v.quantity_pos
