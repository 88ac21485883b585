-- ===== src/Risk/Rules.antt =====
-- src/broker_ai/risk/rules.py: one function for each rule. A rule reads the order, the context and
-- the current state of the context's portfolio.
use broker_ai.Base.{ℕ, Bool, true, false, not, ◌||◌, Option, none, some}
use broker_ai.Base.Int.{leb_ℤ, ltb_ℤ}
use broker_ai.Base.Result.{Result, ok}
use broker_ai.Decimal.{Amount, one, add, sub, mul, mul_int, div, negate}
use broker_ai.Domain.Order.{Order, OrderSide, total_value}
use broker_ai.Domain.Position.{Position}
use broker_ai.Domain.Portfolio.{Portfolio, get_position}
use broker_ai.Risk.Models.{RiskCode, RiskContext, RiskOutcome, RiskPolicy, price_for}

-- `RiskRule.evaluate`; an exception is an error.
abbrev pub RiskRule : Type 0
RiskRule = Order → RiskContext → Portfolio → Result RiskOutcome

-- `order.side is OrderSide.SELL`
abbrev pub is_sell : OrderSide → Bool
is_sell OrderSide.sell = true
is_sell OrderSide.buy = false

abbrev pub outcome : RiskCode → Bool → Result RiskOutcome
outcome code approved = ok (record { code = code; approved = approved })

-- `KillSwitchRule.evaluate`
unfoldable pub kill_switch_rule : Bool → RiskRule
kill_switch_rule active order context p = outcome RiskCode.kill_switch (not active)

unfoldable pub max_order_value_rule : RiskPolicy → RiskRule
max_order_value_rule policy order context p =
    outcome RiskCode.max_order_value
      (is_sell order.side || leb_ℤ (total_value order) policy.max_order_value)

abbrev quantity_of : Option Position → ℕ
quantity_of none = 0
quantity_of (some position) = position.quantity

-- The value of the position after the order, as two of the rules project it.
unfoldable pub projected_value : Order → RiskContext → Portfolio → Amount
projected_value order context p =
    let held = quantity_of (get_position order.instrument.symbol p) in
    add (mul_int (price_for context order) held) (total_value order)

unfoldable pub max_position_value_rule : RiskPolicy → RiskRule
max_position_value_rule policy order context p =
    outcome RiskCode.max_position_value
      (is_sell order.side || leb_ℤ (projected_value order context p) policy.max_position_value)

unfoldable pub max_concentration_rule : RiskPolicy → RiskRule
max_concentration_rule policy order context p =
    let concentration = div (projected_value order context p) context.current_equity in
    outcome RiskCode.max_concentration
      (is_sell order.side || leb_ℤ concentration policy.max_concentration)

unfoldable pub projected_cash : Order → RiskContext → Portfolio → Amount
projected_cash order context p = sub (sub p.cash_balance (total_value order)) context.fee

unfoldable pub cash_reserve_rule : RiskPolicy → RiskRule
cash_reserve_rule policy order context p =
    let minimum = mul context.current_equity policy.min_cash_reserve in
    outcome RiskCode.cash_reserve
      (is_sell order.side || leb_ℤ minimum (projected_cash order context p))

unfoldable pub day_result : RiskContext → Amount
day_result context = sub (div context.current_equity context.day_start_equity) one

unfoldable pub daily_loss_rule : RiskPolicy → RiskRule
daily_loss_rule policy order context p =
    outcome RiskCode.daily_loss
      (is_sell order.side || ltb_ℤ (negate policy.max_daily_loss) (day_result context))
