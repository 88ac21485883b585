-- ===== src/Brokers/Models.antt =====
-- src/broker_ai/brokers/models.py: broker-neutral snapshots and the record of an order.
use broker_ai.Base.{
  ℕ, ltb, Bool, true, false, not, ◌||◌, ◌&&◌, Option, none, some, List, Text, text_beq, ◌==◌,
}
use broker_ai.Base.Int.{ltb_ℤ, leb_ℤ}
use broker_ai.Base.Result.{Result, Error, ok, raise_if, ◌>>◌}
use broker_ai.Decimal.{Amount, nought}
use broker_ai.Domain.Instrument.{Currency}
use broker_ai.Domain.Order.{Order}
use broker_ai.Domain.Text.{strip, upper, is_empty}
use broker_ai.Domain.Time.{Datetime, aware, require_aware}
use broker_ai.Brokers.Simulated.{Execution}

pub data BrokerMode : Type 0 where
  simulation paper : BrokerMode

pub data ConnectionState : Type 0 where
  connected disconnected : ConnectionState

pub data BrokerOrderStatus : Type 0 where
  submitted filled cancelled rejected : BrokerOrderStatus

abbrev pub is_terminal : BrokerOrderStatus → Bool
is_terminal BrokerOrderStatus.submitted = false
is_terminal _ = true

pub record PositionSnapshot : Type 0 where
  pub symbol : Text
  pub quantity : ℕ
  pub average_price : Amount

unfoldable pub new_position_snapshot : PositionSnapshot → Result PositionSnapshot
new_position_snapshot s = do
  raise_if (is_empty s.symbol || not (text_beq s.symbol (upper (strip s.symbol))))
      Error.invalid_symbol
  raise_if (s.quantity == 0) Error.quantity_not_positive
  raise_if (leb_ℤ s.average_price nought) Error.not_positive
  ok s

pub record AccountSnapshot : Type 0 where
  pub cash_balance : Amount
  pub currency : Currency
  pub positions : List PositionSnapshot
  pub observed_at : Datetime

unfoldable pub new_account_snapshot : AccountSnapshot → Result AccountSnapshot
new_account_snapshot s = do
  raise_if (ltb_ℤ s.cash_balance nought) Error.cash_negative
  require_aware s.observed_at
  ok s

pub record BrokerStatus : Type 0 where
  pub mode : BrokerMode
  pub connection : ConnectionState
  pub checked_at : Datetime

pub record BrokerOrder : Type 0 where
  pub broker_order_id : ℕ
  pub order : Order
  pub status : BrokerOrderStatus
  pub submitted_at : Datetime
  pub updated_at : Datetime
  pub execution : Option Execution

abbrev is_filled : BrokerOrderStatus → Bool
is_filled BrokerOrderStatus.filled = true
is_filled _ = false

abbrev is_missing : Option Execution → Bool
is_missing none = true
is_missing (some _) = false

-- `<` on two timestamps with a time zone
abbrev before : Datetime → Datetime → Bool
before (aware a) (aware b) = ltb a b
before _ _ = false

-- `BrokerOrder.__post_init__`, which `dataclasses.replace` runs too
unfoldable pub new_broker_order : BrokerOrder → Result BrokerOrder
new_broker_order o = do
  raise_if (is_filled o.status && is_missing o.execution) Error.missing_execution
  raise_if (not (is_filled o.status) && not (is_missing o.execution)) Error.unexpected_execution
  require_aware o.submitted_at
  require_aware o.updated_at
  raise_if (before o.updated_at o.submitted_at) Error.update_before_submission
  ok o
