-- ===== src/Brokers/Onboarding/Defs.antt =====
-- `run_first_paper_order`, over any broker. What the user answers, or the exception of asking, is
-- given to the call, as are the IDs and times that are drawn; the texts that it prints are not
-- modelled.
use broker_ai.Base.{ℕ, Bool, true, false, not, if◌then◌else◌, List, [], ◌∷◌, Text, text_beq}
use broker_ai.Base.Int.{pos}
use broker_ai.Base.Result.{Result, Error, ok, err, Action, then_do, ◌>>=◌, ◌>>◌, raise_if}
use broker_ai.Decimal.{finite, nought, cents}
use broker_ai.Domain.Instrument.{Instrument, Exchange, Currency, AssetType, currency_beq}
use broker_ai.Domain.Market.{MarketPrice}
use broker_ai.Domain.Order.{Order, OrderSide, new_order}
use broker_ai.Domain.Portfolio.{Portfolio, new_portfolio}
use broker_ai.Domain.Text.{strip}
use broker_ai.Domain.Time.{Datetime}
use broker_ai.Brokers.Models.{AccountSnapshot, PositionSnapshot, BrokerOrder}
use broker_ai.Risk.Models.{RiskContext, RiskAssessment, new_context, new_policy}
use broker_ai.Risk.Engine.{RiskEngine, new_engine, assess}
use broker_ai.Risk.Gateway.{guarded}

-- The methods of `BrokerInterface` that are called, on whatever the broker keeps.
pub record Broker (W : Type 0) : Type 0 where
  pub get_account : Action W AccountSnapshot
  pub get_market_price : Instrument → Action W MarketPrice
  pub submit_order : Order → Action W BrokerOrder

-- `CONFIRMATION`
abbrev pub confirmation : Text
confirmation =
    b'P' ∷ b'L' ∷ b'A' ∷ b'A' ∷ b'T' ∷ b'S' ∷ b' ' ∷ b'P' ∷ b'A' ∷ b'P' ∷ b'E' ∷ b'R' ∷ b' ' ∷ b'O'
    ∷ b'R' ∷ b'D' ∷ b'E' ∷ b'R' ∷ []

-- `AAPL`
abbrev pub aapl : Instrument
aapl = record {
  symbol = b'A' ∷ b'A' ∷ b'P' ∷ b'L' ∷ [];
  name = b'A' ∷ b'p' ∷ b'p' ∷ b'l' ∷ b'e' ∷ b' ' ∷ b'I' ∷ b'n' ∷ b'c' ∷ b'.' ∷ [];
  exchange = Exchange.nasdaq;
  currency = Currency.usd;
  asset_type = AssetType.stock;
}

-- The IDs of the order and of the two assessments, and the times of these.
pub record FirstDraw : Type 0 where
  pub order_id : ℕ
  pub first_id : ℕ
  pub first_at : Datetime
  pub second_id : ℕ
  pub second_at : Datetime

pub data Report : Type 0 where
  blocked : RiskAssessment → Report
  cancelled : Report
  sent : BrokerOrder → Report

abbrev pub has_positions : List PositionSnapshot → Bool
has_positions [] = false
has_positions (_ ∷ _) = true

-- The two tests of the account.
abbrev pub require_empty : AccountSnapshot → Result (Unit {0})
require_empty account = do
  raise_if (not (currency_beq account.currency Currency.usd)) Error.unsupported_currency
  raise_if (has_positions account.positions) Error.positions_open
  ok tt

-- What is built between the quote and the assessment; the portfolio is the only one, of identity 0.
pub record Plan : Type 0 where
  pub order : Order
  pub portfolio : Portfolio
  pub context : RiskContext
  pub engine : RiskEngine

unfoldable pub plan_of : ℕ → AccountSnapshot → MarketPrice → Result Plan
plan_of order_id account quote = do
  order ← new_order aapl OrderSide.buy (pos 1) (finite quote.price) order_id
  portfolio ← new_portfolio (finite account.cash_balance) Currency.usd
  context ←
      new_context 0 portfolio (finite account.cash_balance) (finite account.cash_balance)
        ((aapl.symbol, finite quote.price) ∷ []) (finite nought)
  policy ←
      new_policy (finite (cents 50000)) (finite (cents 50000)) (finite (cents 1))
        (finite (cents 50)) (finite (cents 1))
  ok (record {
    order = order;
    portfolio = portfolio;
    context = context;
    engine = new_engine policy [];
  })

module _ {W : Type 0} (broker : Broker W) (answer : Result Text) where
  -- The submission through the gateway, which assesses the order again.
  abbrev pub send : FirstDraw → Plan → RiskEngine → Action W Report
  send draw plan engine w =
      let (r, (_, w')) =
        guarded (broker.submit_order plan.order) draw.second_id draw.second_at plan.order
          plan.context plan.portfolio (engine, w) in
      then_do (r, w') λ b w. (ok (Report.sent b), w)

  -- The question, after an approved assessment.
  abbrev pub confirm : FirstDraw → Plan → RiskEngine → Action W Report
  confirm draw plan engine w =
      then_do (answer, w)
        λ typed w.
          if not (text_beq (strip typed) confirmation)
          then (ok Report.cancelled, w)
          else send draw plan engine w

  abbrev pub assessed : FirstDraw → Plan → Result RiskAssessment × RiskEngine → Action W Report
  assessed draw plan (err e, engine) w = (err e, w)
  assessed draw plan (ok assessment, engine) w =
      if not assessment.approved
      then (ok (Report.blocked assessment), w)
      else confirm draw plan engine w

  abbrev pub follow : FirstDraw → Plan → Action W Report
  follow draw plan w =
      assessed draw plan
        (assess draw.first_id draw.first_at plan.order plan.context plan.portfolio plan.engine) w

  -- `run_first_paper_order`
  unfoldable pub run_first_paper_order : FirstDraw → Action W Report
  run_first_paper_order draw w = then_do (broker.get_account w) λ account w.
      then_do (require_empty account, w)
        λ _ w.
          then_do (broker.get_market_price aapl w)
            λ quote w. then_do (plan_of draw.order_id account quote, w) (follow draw)
