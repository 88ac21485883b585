-- ===== src/Brokers/Onboarding/Consent.antt =====
-- What it takes for an order to be sent.
use broker_ai.Base.{
  ◌≡◌, ◌⊎◌, inl, inr, refl, sym, ap, ◌∙◌, subst, Bool, true, false, not, if◌then◌else◌, Text,
  text_beq, text_beq_iff,
}
use broker_ai.Base.Int.{◌≤ℤ◌}
use broker_ai.Base.Result.{Result, Error, ok, err, Action, then_do, Gives}
use broker_ai.Decimal.{Amount, cents}
use broker_ai.Domain.Instrument.{Instrument}
use broker_ai.Domain.Order.{total_value}
use broker_ai.Domain.Text.{strip}
use broker_ai.Brokers.Models.{BrokerOrder}
use broker_ai.Risk.Models.{RiskPolicy, RiskAssessment}
use broker_ai.Risk.Engine.{RiskEngine, assess, assessment_of}
use broker_ai.Risk.Limits.{assessment_approved_iff}
use broker_ai.Risk.Gateway.{guarded}
use broker_ai.Risk.Gateway.Guard.{guarded-Guards, Guards}
use broker_ai.Brokers.Onboarding.Defs.{
  Broker, confirmation, aapl, FirstDraw, Report, require_empty, Plan, plan_of, send, confirm,
  assessed, follow, run_first_paper_order,
}
use broker_ai.Brokers.Onboarding.Plan.{IsFirst, plan_of-IsFirst, assess-policy}

module _ {W : Type 0} (broker : Broker W) (answer : Result Text) (P : W → Type 0) where
  -- An order was sent, after the user had typed the confirmation: to buy one share, for at most
  -- 500 dollars and within the other limits, once, and the broker was only asked before.
  pub record Sends (after : W) : Type 0 where
    pub typed : Text
    pub answered : answer ≡ ok typed
    pub confirmed : strip typed ≡ confirmation
    pub plan : Plan
    pub first : IsFirst plan
    pub cheap : total_value plan.order ≤ℤ cents 50000
    pub before : W
    pub asked : P before
    pub submitted : after ≡ (broker.submit_order plan.order before).1

  -- No order was sent, and none is reported.
  abbrev pub SendsNone : Result Report → W → Type 0
  SendsNone r after = P after × ((b : BrokerOrder) → ¬ (r ≡ ok (Report.sent b)))

  send-Sends :
      (draw : FirstDraw) (plan : Plan) (engine : RiskEngine) (typed : Text) (w : W)
      → answer ≡ ok typed
      → strip typed ≡ confirmation
      → IsFirst plan
      → engine.policy ≡ plan.engine.policy
      → P w
      → (let (r, after) = send broker answer draw plan engine w in SendsNone r after ⊎ Sends after)
  send-Sends draw plan engine typed w answered confirmed first policy asked =
      go
        (guarded (broker.submit_order plan.order) draw.second_id draw.second_at plan.order
          plan.context plan.portfolio (engine, w))
        (guarded-Guards (broker.submit_order plan.order) draw.second_id draw.second_at plan.order
          plan.context plan.portfolio engine w)
    where
      sends :
          (assessment_of engine draw.second_id draw.second_at plan.order plan.context
              plan.portfolio).approved
            ≡ true
          → (after : W) → after ≡ (broker.submit_order plan.order w).1
          → Sends after
      sends approved after submitted =
          let (_, within, _) =
            (assessment_approved_iff plan.order plan.context plan.portfolio engine draw.second_id
                draw.second_at).0
              approved in
          let limits = within first.purchase in
          record {
            typed = typed;
            answered = answered;
            confirmed = confirmed;
            plan = plan;
            first = first;
            cheap =
                subst (λ (a : Amount). total_value plan.order ≤ℤ a)
                  (ap (λ (l : RiskPolicy). l.max_order_value) policy ∙ first.limit)
                  limits.order_value;
            before = w;
            asked = asked;
            submitted = submitted;
          }

      go :
          (x : Result BrokerOrder × (RiskEngine × W))
          → Guards
              (broker.submit_order plan.order)
              draw.second_id
              draw.second_at
              plan.order
              plan.context
              plan.portfolio
              (engine, w)
              x
          → (let (r, after) = then_do (x.0, x.1.1) λ b v. (ok (Report.sent b), v) in
              SendsNone r after ⊎ Sends after)
      go (err e, (g, v)) (inl (same, _)) = inl (subst P (sym same) asked, λ b h. cc)
      go (ok b, (g, v)) (inl (same, (e, raised))) = cc
      go (err e, (g, v)) (inr (_, approved, called)) =
          inr (sends approved v (ap (λ (y : Result BrokerOrder × W). y.1) called))
      go (ok b, (g, v)) (inr (_, approved, called)) =
          inr (sends approved v (ap (λ (y : Result BrokerOrder × W). y.1) called))

  -- How the run ends.
  abbrev pub Outcome : Result Report × W → Type 0
  Outcome (r, after) = SendsNone r after ⊎ Sends after

  raised-Outcome : (e : Error) (w : W) → P w → Outcome (err e, w)
  raised-Outcome e w asked = inl (asked, λ b h. cc)

  confirm-Outcome :
      (draw : FirstDraw) (plan : Plan) (engine : RiskEngine) (w : W)
      → IsFirst plan
      → engine.policy ≡ plan.engine.policy
      → P w
      → Outcome (confirm broker answer draw plan engine w)
  confirm-Outcome draw plan engine w first policy asked = go answer refl
    where
      typed_as :
          (typed : Text)
          → answer ≡ ok typed
          → (b : Bool) → text_beq (strip typed) confirmation ≡ b
          → Outcome
              (if not b then (ok Report.cancelled, w) else send broker answer draw plan engine w)
      typed_as typed is false other = inl (asked, λ b h. cc)
      typed_as typed is true same =
          send-Sends draw plan engine typed w is ((text_beq_iff (strip typed) confirmation).0 same)
            first policy asked

      go :
          (a : Result Text)
          → answer ≡ a
          → Outcome (
              then_do
                (a, w)
                λ typed v.
                  if not (text_beq (strip typed) confirmation)
                  then (ok Report.cancelled, v)
                  else send broker answer draw plan engine v)
      go (err e) is = raised-Outcome e w asked
      go (ok typed) is = typed_as typed is (text_beq (strip typed) confirmation) refl

  follow-Outcome :
      (draw : FirstDraw) (plan : Plan) (w : W)
      → IsFirst plan
      → P w
      → Outcome (follow broker answer draw plan w)
  follow-Outcome draw plan w first asked =
      go (assess draw.first_id draw.first_at plan.order plan.context plan.portfolio plan.engine) (
        assess-policy draw.first_id draw.first_at plan.order plan.context plan.portfolio
          plan.engine)
    where
      by_approval :
          (assessment : RiskAssessment) (engine : RiskEngine)
          → engine.policy ≡ plan.engine.policy
          → (b : Bool)
          → Outcome (
              if not b
              then (ok (Report.blocked assessment), w)
              else confirm broker answer draw plan engine w)
      by_approval assessment engine policy false = inl (asked, λ b h. cc)
      by_approval assessment engine policy true =
          confirm-Outcome draw plan engine w first policy asked

      go :
          (x : Result RiskAssessment × RiskEngine)
          → x.1.policy ≡ plan.engine.policy
          → Outcome (assessed broker answer draw plan x w)
      go (err e, engine) policy = raised-Outcome e w asked
      go (ok assessment, engine) policy = by_approval assessment engine policy assessment.approved

  -- A call that keeps `P`, and what follows it.
  step-Outcome :
      {A : Type 0} (x : Result A × W) (f : A → Action W Report)
      → P x.1
      → ((a : A) (v : W) → x.0 ≡ ok a → P v → Outcome (f a v))
      → Outcome (then_do x f)
  step-Outcome (err e, v) f asked rest = raised-Outcome e v asked
  step-Outcome (ok a, v) f asked rest = rest a v refl asked

  -- Let the calls for the account and the price keep a property of the broker, which it has before.
  -- Then the broker has it after the run too, and no order is reported as sent; or the user had
  -- typed the confirmation, spaces around it aside, and what the broker is after the run is what
  -- one submission made of it, from a broker with the property: of an order to buy one share of
  -- AAPL for at most 500 dollars.
  pub run_first_paper_order-Outcome :
      ((w : W) → P w → P (broker.get_account w).1)
      → ((i : Instrument) (w : W) → P w → P (broker.get_market_price i w).1)
      → (draw : FirstDraw) (w : W) → P w
      → Outcome (run_first_paper_order broker answer draw w)
  unfolding run_first_paper_order
  run_first_paper_order-Outcome account_keeps price_keeps draw w asked =
      step-Outcome (broker.get_account w) _ (account_keeps w asked) λ account v _ kept.
        step-Outcome (require_empty account, v) _ kept
          λ _ u _ kept_too.
            step-Outcome (broker.get_market_price aapl u) _ (price_keeps aapl u kept_too)
              λ quote t _ still.
                step-Outcome (plan_of draw.order_id account quote, t) _ still
                  λ plan s planned holds.
                    follow-Outcome draw plan s
                      (subst (Gives IsFirst) planned (plan_of-IsFirst draw.order_id account quote))
                      holds
