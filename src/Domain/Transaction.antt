-- ===== src/Domain/Transaction.antt =====
-- src/broker_ai/domain/transaction.py: the audit record of one executed order.
use broker_ai.Base.{ℕ, ◌≡◌, refl, arith, ◌||◌, ◌==◌}
use broker_ai.Base.Int.{leb_ℤ, ltb_ℤ}
use broker_ai.Base.Result.{Result, Error, ok, raise_if, ◌>>◌}
use broker_ai.Decimal.{Amount, nought}
use broker_ai.Domain.Instrument.{Instrument}
use broker_ai.Domain.Order.{OrderSide}
use broker_ai.Domain.Time.{Datetime, aware, naive, require_aware}

pub record Transaction : Type 0 where
  pub transaction_id : ℕ
  pub order_id : ℕ
  pub instrument : Instrument
  pub side : OrderSide
  pub quantity : ℕ
  pub price : Amount
  pub gross_value : Amount
  pub fee : Amount
  pub cash_change : Amount
  pub realized_profit : Amount
  pub executed_at : Datetime

-- `__post_init__`: the amounts are finite as they are results of finite arithmetic.
unfoldable pub new_transaction : Transaction → Result Transaction
new_transaction t = do
  raise_if (t.quantity == 0) Error.quantity_not_positive
  raise_if (leb_ℤ t.price nought || leb_ℤ t.gross_value nought) Error.not_positive
  raise_if (ltb_ℤ t.fee nought) Error.negative_amount
  require_aware t.executed_at
  ok t

-- The constructor returns what it is given, with a time that has a zone.
pub new_transaction_zoned :
    (t : Transaction) {t' : Transaction}
    → new_transaction t ≡ ok t'
    → (t' ≡ t) × ((n : ℕ) × (t.executed_at ≡ aware n))
unfolding new_transaction
new_transaction_zoned t e = (ground arith, zoned_at t.executed_at (ground arith))
  where
    zoned_at : (d : Datetime) → require_aware d ≡ ok tt → (n : ℕ) × (d ≡ aware n)
    zoned_at (aware n) z = (n, refl)
    zoned_at (naive n) z = cc
