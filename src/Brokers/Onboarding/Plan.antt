-- ===== src/Brokers/Onboarding/Plan.antt =====
-- The order that is planned.
use broker_ai.Base.{ℕ, ◌≡◌, inl, inr, refl, arith, Bool-cases, []}
use broker_ai.Base.Int.{pos, leb_ℤ}
use broker_ai.Base.Result.{Result, ok, err, ◌>>=◌, Gives}
use broker_ai.Decimal.{Amount, finite, nought, cents, one}
use broker_ai.Domain.Instrument.{Currency}
use broker_ai.Domain.Market.{MarketPrice}
use broker_ai.Domain.Order.{Order, OrderSide, new_order}
use broker_ai.Domain.Portfolio.{Portfolio, new_portfolio}
use broker_ai.Brokers.Models.{AccountSnapshot}
use broker_ai.Risk.Models.{RiskPolicy, RiskContext, new_policy}
use broker_ai.Risk.Engine.{RiskEngine, new_engine, assess}
use broker_ai.Brokers.Onboarding.Defs.{aapl, Plan, plan_of}

-- The plan is to buy one share, with at most 500 dollars per order.
pub record IsFirst (plan : Plan) : Type 0 where
  pub instrument : plan.order.instrument ≡ aapl
  pub purchase : plan.order.side ≡ OrderSide.buy
  pub one_share : plan.order.quantity ≡ 1
  pub limit : plan.engine.policy.max_order_value ≡ cents 50000

abbrev IsFirstOrder : Order → Type 0
IsFirstOrder o = (o.instrument ≡ aapl) × (o.side ≡ OrderSide.buy) × (o.quantity ≡ 1)

new_order-IsFirstOrder :
    (price : Amount) (id : ℕ)
    → Gives IsFirstOrder (new_order aapl OrderSide.buy (pos 1) (finite price) id)
unfolding new_order
new_order-IsFirstOrder price id = elim (Bool-cases (leb_ℤ price nought)) [
  | inl low ↦ rw low tt
  | inr high ↦ rw high (refl, refl, refl)
]

first_policy :
    Gives
      (λ (p : RiskPolicy). p.max_order_value ≡ cents 50000)
      (new_policy
        (finite (cents 50000))
        (finite (cents 50000))
        (finite (cents 1))
        (finite (cents 50))
        (finite (cents 1)))
unfolding new_policy one
first_policy = refl

pub plan_of-IsFirst :
    (id : ℕ) (account : AccountSnapshot) (quote : MarketPrice)
    → Gives IsFirst (plan_of id account quote)
unfolding plan_of new_engine
plan_of-IsFirst id account quote =
    go (new_order aapl OrderSide.buy (pos 1) (finite quote.price) id)
      (new_order-IsFirstOrder quote.price id)
      (new_portfolio (finite account.cash_balance) Currency.usd) _ _ first_policy
  where
    with_context :
        (o : Order)
        → IsFirstOrder o
        → (p : Portfolio) (context : Result RiskContext) (policy : Result RiskPolicy)
        → Gives (λ (p : RiskPolicy). p.max_order_value ≡ cents 50000) policy
        → Gives IsFirst (
            context >>= λ c. policy >>= λ l.
            ok (record { order = o; portfolio = p; context = c; engine = new_engine l [] }))
    with_context o f p (err e) policy g = tt
    with_context o f p (ok c) (err e) g = tt
    with_context o (i, side, one) p (ok c) (ok l) g = record {
      instrument = i;
      purchase = side;
      one_share = one;
      limit = g;
    }

    go :
        (order : Result Order)
        → Gives IsFirstOrder order
        → (portfolio : Result Portfolio) (context : Portfolio → Result RiskContext)
          (policy : Result RiskPolicy)
        → Gives (λ (p : RiskPolicy). p.max_order_value ≡ cents 50000) policy
        → Gives IsFirst (
            order >>= λ o. portfolio >>= λ p. context p >>= λ c. policy >>= λ l.
            ok (record { order = o; portfolio = p; context = c; engine = new_engine l [] }))
    go (err e) f portfolio context policy g = tt
    go (ok o) f (err e) context policy g = tt
    go (ok o) f (ok p) context policy g = with_context o f p (context p) policy g

-- An assessment keeps the policy.
pub assess-policy :
    (id : ℕ) (at : _) (order : Order) (context : RiskContext) (p : Portfolio) (engine : RiskEngine)
    → (assess id at order context p engine).1.policy ≡ engine.policy
unfolding assess
assess-policy id at order context p engine = ground arith
