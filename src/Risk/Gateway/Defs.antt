-- ===== src/Risk/Gateway/Defs.antt =====
-- `RiskManagedBroker` and `AsyncRiskManagedBroker`, over any broker that keeps their interfaces.
use broker_ai.Base.{ℕ, not, ◌==◌, if◌then◌else◌}
use broker_ai.Base.Result.{Result, Error, ok, err, Action}
use broker_ai.Domain.Order.{Order}
use broker_ai.Domain.Portfolio.{Portfolio}
use broker_ai.Domain.Time.{Datetime}
use broker_ai.Brokers.Simulated.{Execution}
use broker_ai.Risk.Models.{RiskContext, RiskAssessment}
use broker_ai.Risk.Engine.{RiskEngine, assess}

-- `if not assessment.approved: raise RiskRejectedError(assessment)`, then the broker's call.
abbrev pub when_approved :
    {W A : Type 0}
    → Action W A
    → W
    → Result RiskAssessment × RiskEngine
    → Result A × (RiskEngine × W)
when_approved call w (err x, engine) = (err x, (engine, w))
when_approved call w (ok assessment, engine) =
    if not assessment.approved
    then (err Error.risk_rejected, (engine, w))
    else (let (r, w') = call w in (r, (engine, w')))

-- The risk gate before a call of a broker in the world `W`; `p` is the state of the context's
-- portfolio.
unfoldable pub guarded :
    {W A : Type 0}
    → (call : Action W A) → ℕ
    → Datetime
    → Order
    → RiskContext
    → Portfolio
    → Action (RiskEngine × W) A
guarded call assessment_id evaluated_at order context p (engine, w) =
    when_approved call w (assess assessment_id evaluated_at order context p engine)

-- `ExecutionBroker`: an execution may change the broker and the portfolio.
pub record ExecutionBroker : Type 1 where
  pub State : Type 0
  pub execute : Order → Action (State × Portfolio) Execution

module _ (broker : ExecutionBroker) where
  -- `RiskManagedBroker.execute` on the portfolio object `identity`
  unfoldable pub execute :
      ℕ
      → ℕ
      → Datetime
      → Order
      → RiskContext
      → Action (RiskEngine × (broker.State × Portfolio)) Execution
  unfolding guarded
  execute identity assessment_id evaluated_at order context (engine, (b, p)) =
      if not (context.portfolio == identity)
      then (err Error.foreign_context, (engine, (b, p)))
      else guarded (broker.execute order) assessment_id evaluated_at order context p
          (engine, (b, p))

-- `BrokerInterface.submit_order`, on the broker's side of the world.
pub record OrderBroker : Type 1 where
  pub State : Type 0
  pub Answer : Type 0
  pub submit_order : Order → Action State Answer

module _ (broker : OrderBroker) where
  -- `AsyncRiskManagedBroker.submit_order`; no step of the event loop stands between the assessment
  -- and the call of the broker.
  unfoldable pub submit_order :
      ℕ
      → Datetime
      → Order
      → RiskContext
      → Portfolio
      → Action (RiskEngine × broker.State) broker.Answer
  unfolding guarded
  submit_order assessment_id evaluated_at order context p =
      guarded (broker.submit_order order) assessment_id evaluated_at order context p
