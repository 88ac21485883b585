-- ===== src/Risk/Models.antt =====
-- src/broker_ai/risk/models.py: the limits, the context that the rules read, and the outcomes. The
-- reason texts of outcomes are not modelled.
use broker_ai.Base.{
  ℕ, if◌then◌else◌, Bool, true, false, not, none, some, List, [], ◌∷◌, Text, text_eq, ◌≡◌, arith,
}
use broker_ai.Base.Int.{eqb_ℤ, ltb_ℤ, ◌≤ℤ◌, ◌<ℤ◌}
use broker_ai.Base.Result.{bound_ok, Result, Error, ok, err, raise_if, ◌>>◌, ◌>>=◌}
use broker_ai.Base.Dict.{Dict, lookup, insert}
use broker_ai.Decimal.{Amount, Decimal, nought, one, cents, add, mul_int, require_non_negative}
use broker_ai.Domain.Text.{strip, upper, is_empty}
use broker_ai.Domain.Order.{Order}
use broker_ai.Domain.Position.{Position}
use broker_ai.Domain.Portfolio.{Portfolio}
use broker_ai.Domain.Time.{Datetime}

pub data RiskCode : Type 0 where
  approved kill_switch max_order_value max_position_value max_concentration cash_reserve daily_loss
        rule_error :
      RiskCode

-- `_non_negative`, `_positive` and `_rate`
abbrev pub non_negative : Decimal → Result Amount
non_negative = require_non_negative

abbrev pub positive : Decimal → Result Amount
positive value = do a ← non_negative value; raise_if (eqb_ℤ a nought) Error.not_positive; ok a

abbrev pub rate : Decimal → Bool → Result Amount
rate value allow_zero = do
  a ← non_negative value
  raise_if (if allow_zero then false else eqb_ℤ a nought) Error.not_positive
  raise_if (ltb_ℤ one a) Error.rate_above_one
  ok a

pub record RiskPolicy : Type 0 where
  pub max_order_value : Amount
  pub max_position_value : Amount
  pub max_concentration : Amount
  pub min_cash_reserve : Amount
  pub max_daily_loss : Amount

-- The defaults of the fields.
abbrev pub default_policy : RiskPolicy
default_policy = record {
  max_order_value = cents 250000;
  max_position_value = cents 500000;
  max_concentration = cents 25;
  min_cash_reserve = cents 10;
  max_daily_loss = cents 3;
}

unfoldable pub new_policy : Decimal → Decimal → Decimal → Decimal → Decimal → Result RiskPolicy
new_policy order_value position_value concentration reserve loss = do
  a ← positive order_value
  b ← positive position_value
  c ← rate concentration false
  d ← rate reserve true
  e ← rate loss false
  ok (record {
    max_order_value = a;
    max_position_value = b;
    max_concentration = c;
    min_cash_reserve = d;
    max_daily_loss = e;
  })

-- `portfolio` is the identity of the portfolio object; the rules read that object as it is when
-- they run.
pub record RiskContext : Type 0 where
  pub portfolio : ℕ
  pub current_equity : Amount
  pub day_start_equity : Amount
  pub market_prices : Dict Text Amount
  pub fee : Amount

-- The prices under stripped symbols in upper case; a later entry replaces an earlier one.
unfoldable pub normalize_prices :
    List (Text × Decimal) → Dict Text Amount → Result (Dict Text Amount)
normalize_prices [] normalized = ok normalized
normalize_prices ((symbol, price) ∷ prices) normalized = do
  raise_if (is_empty (strip symbol)) Error.empty_price_symbol
  a ← positive price
  normalize_prices prices (insert (upper (strip symbol)) a normalized)

-- Cash and positions at the given prices, added up in the order of the positions.
unfoldable pub calculate_equity : Dict Text Amount → Dict Text Position → Amount → Result Amount
calculate_equity prices [] total = ok total
calculate_equity prices ((symbol, position) ∷ rest) total = elim (lookup symbol prices) [
  | none ↦ err Error.missing_price
  | some price ↦ calculate_equity prices rest (add total (mul_int price position.quantity))
]

-- The constructor, on the portfolio object `identity` whose state is `p`.
unfoldable pub new_context :
    ℕ → Portfolio → Decimal → Decimal → List (Text × Decimal) → Decimal → Result RiskContext
new_context identity p current_equity day_start_equity market_prices fee = do
  current ← positive current_equity
  start ← positive day_start_equity
  costs ← non_negative fee
  prices ← normalize_prices market_prices []
  calculated ← calculate_equity prices p.positions p.cash_balance
  raise_if (not (eqb_ℤ calculated current)) Error.equity_mismatch
  ok (record {
    portfolio = identity;
    current_equity = current;
    day_start_equity = start;
    market_prices = prices;
    fee = costs;
  })

-- `RiskContext.price_for`
unfoldable pub price_for : RiskContext → Order → Amount
price_for context order = elim (lookup order.instrument.symbol context.market_prices) [
  | none ↦ order.price
  | some price ↦ price
]

pub record RiskOutcome : Type 0 where
  pub code : RiskCode
  pub approved : Bool

pub record RiskAssessment : Type 0 where
  pub assessment_id : ℕ
  pub order_id : ℕ
  pub approved : Bool
  pub outcomes : List RiskOutcome
  pub evaluated_at : Datetime

-- What the constructors guarantee.
pub record IsValidPolicy (policy : RiskPolicy) : Type 0 where
  pub order_value_pos : nought <ℤ policy.max_order_value
  pub position_value_pos : nought <ℤ policy.max_position_value
  pub concentration_pos : nought <ℤ policy.max_concentration
  pub concentration_le_one : policy.max_concentration ≤ℤ one
  pub reserve_nonneg : nought ≤ℤ policy.min_cash_reserve
  pub reserve_le_one : policy.min_cash_reserve ≤ℤ one
  pub daily_loss_pos : nought <ℤ policy.max_daily_loss
  pub daily_loss_le_one : policy.max_daily_loss ≤ℤ one

positive_ok : (d : Decimal) {a : Amount} → positive d ≡ ok a → nought <ℤ a
positive_ok d h = ground arith

rate_ok :
    (d : Decimal) (allow_zero : Bool) {a : Amount}
    → rate d allow_zero ≡ ok a
    → (nought ≤ℤ a) × (a ≤ℤ one) × (allow_zero ≡ false → nought <ℤ a)
rate_ok d allow_zero h = ground arith

-- A policy that the constructor accepts has positive money limits and rates between 0 and 1, of
-- which only the cash reserve may be zero.
new_policy-IsValidPolicy :
    (a b c d e : Decimal) {policy : RiskPolicy}
    → new_policy a b c d e ≡ ok policy
    → IsValidPolicy policy
unfolding new_policy
new_policy-IsValidPolicy a b c d e h =
    let (av, ae, h1) = bound_ok (positive a) _ h in
    let (bv, be, h2) = bound_ok (positive b) _ h1 in
    let (cv, ce, h3) = bound_ok (rate c false) _ h2 in
    let (dv, de, h4) = bound_ok (rate d true) _ h3 in
    let (ev, ee, h5) = bound_ok (rate e false) _ h4 in
    ground (
      arith,
      positive_ok a ae,
      positive_ok b be,
      rate_ok c false ce,
      rate_ok d true de,
      rate_ok e false ee,
    )
