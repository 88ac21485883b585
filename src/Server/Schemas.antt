-- ===== src/Server/Schemas.antt =====
-- src/broker_ai/server/schemas.py: the payloads of the API. `money_shape` stands for pydantic's tests
-- of `max_digits=18` and `decimal_places=8`, which read how a decimal is written.
use broker_ai.Base.{ℕ, Bool, not, ◌&&◌, leb, length, all_of, Text}
use broker_ai.Base.Result.{Result, Error, ok, raise_if, ◌>>=◌, ◌>>◌}
use broker_ai.Decimal.{Amount, Decimal, require_positive}
use broker_ai.Domain.Text.{is_alnum_char}
use broker_ai.Domain.Order.{OrderSide}

pub data ApprovalMode : Type 0 where
  manual automatic_limited disabled : ApprovalMode

pub data BotStatus : Type 0 where
  active paused : BotStatus

pub record BotCreate : Type 0 where
  pub name : Text
  pub specialization : Text
  pub approval_mode : ApprovalMode
  pub max_auto_order_value : Amount

pub record ProposalCreate : Type 0 where
  pub bot_id : ℕ
  pub symbol : Text
  pub side : OrderSide
  pub quantity : Amount
  pub price : Amount
  pub rationale : Text

pub data Decision : Type 0 where
  approve reject : Decision

-- `Field(min_length=..., max_length=...)`
abbrev pub has_length : ℕ → ℕ → Text → Bool
has_length low high s = leb low (length s) && leb (length s) high

module _ (money_shape : Decimal → Bool) where
  -- `PositiveMoney`
  unfoldable pub positive_money : Decimal → Result Amount
  positive_money d = do
    a ← require_positive d
    raise_if (not (money_shape d)) Error.invalid_payload
    ok a

  unfoldable pub new_bot_create : Text → Text → ApprovalMode → Decimal → Result BotCreate
  unfolding positive_money
  new_bot_create name specialization mode limit = do
    raise_if (not (has_length 2 80 name)) Error.invalid_payload
    raise_if (not (has_length 2 160 specialization)) Error.invalid_payload
    value ← positive_money limit
    ok (record {
      name = name;
      specialization = specialization;
      approval_mode = mode;
      max_auto_order_value = value;
    })

  unfoldable pub new_proposal_create :
      ℕ → Text → OrderSide → Decimal → Decimal → Text → Result ProposalCreate
  unfolding positive_money
  new_proposal_create bot_id symbol side quantity price rationale = do
    raise_if (not (has_length 1 15 symbol && all_of is_alnum_char symbol)) Error.invalid_payload
    q ← positive_money quantity
    p ← positive_money price
    raise_if (not (has_length 5 1000 rationale)) Error.invalid_payload
    ok (record {
      bot_id = bot_id;
      symbol = symbol;
      side = side;
      quantity = q;
      price = p;
      rationale = rationale;
    })
