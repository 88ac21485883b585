-- ===== src/Risk/Gateway/Guard.antt =====
-- What the gateway guarantees of every broker behind it.
use broker_ai.Base.{
  subst, sym, ap, ℕ, true, false, ◌==◌, ==_iff, ◌≡◌, refl, ◌⊎◌, inl, inr, [], ◌∷◌, ◌++◌, Bool-cases,
  All,
}
use broker_ai.Base.Result.{Result, Error, ok, err, Action, Result-cases}
use broker_ai.Domain.Order.{Order, OrderSide}
use broker_ai.Domain.Portfolio.{Portfolio}
use broker_ai.Domain.Time.{Datetime}
use broker_ai.Brokers.Simulated.{Execution}
use broker_ai.Risk.Models.{RiskContext}
use broker_ai.Risk.Engine.{RiskEngine, assess, assessment_of, validate_metadata, activate}
use broker_ai.Risk.Limits.{WithinLimits, Approves, assessment_approved_iff}
use broker_ai.Risk.Gateway.Defs.{guarded, ExecutionBroker, execute}

module _ {W A : Type 0} (call : Action W A) (id : ℕ) (at : Datetime) (order : Order)
    (context : RiskContext) (p : Portfolio) where
  -- The broker was not called, or it was called once, on the world as it was, after an assessment
  -- of this order that is logged and approved.
  abbrev pub Guards : RiskEngine × W → Result A × (RiskEngine × W) → Type 0
  Guards (engine, w) (r, (engine', w')) =
      (w' ≡ w) × ((x : Error) × (r ≡ err x))
      ⊎ (engine'.audit_log ≡ engine.audit_log ++ (assessment_of engine id at order context p ∷ []))
        × ((assessment_of engine id at order context p).approved ≡ true)
        × ((r, w') ≡ call w)

  -- An assessment fails on its metadata with nothing logged, or is logged.
  assess-cases :
      (engine : RiskEngine)
      → ((x : Error) × (assess id at order context p engine ≡ (err x, engine)))
        ⊎ (assess id at order context p engine ≡ (
          ok (assessment_of engine id at order context p),
          record engine {
            audit_log = engine.audit_log ++ (assessment_of engine id at order context p ∷ []);
          },
        ))
  unfolding assess
  assess-cases engine = elim (Result-cases (validate_metadata engine.audit_log id at)) [
    | inl (x, e) ↦ inl (x, rw e)
    | inr (_, e) ↦ inr (rw e)
  ]

  -- The risk gate in front of any call: either the call is not made and the gate raises, or it is
  -- made once, on the world as it was, after an approved assessment of the order that is logged.
  pub guarded-Guards :
      (engine : RiskEngine) (w : W)
      → Guards (engine, w) (guarded call id at order context p (engine, w))
  unfolding guarded
  guarded-Guards engine w = elim (assess-cases engine) [
    | inl (x, e) ↦ rw e (inl (refl, (x, refl)))
    | inr e ↦ elim (Bool-cases (assessment_of engine id at order context p).approved) [
      | inl approved ↦ rw (e, approved) (inr (refl, refl, refl))
      | inr refused ↦ rw (e, refused) (inl (refl, (Error.risk_rejected, refl)))
    ]
  ]

  -- A call that returns kept the limits: the kill switch was off, a buy was within every limit of
  -- the policy, and every extra rule approved.
  pub guarded-WithinLimits :
      (engine : RiskEngine) (w : W) {a : A}
      → (guarded call id at order context p (engine, w)).0 ≡ ok a
      → (engine.kill_switch ≡ false)
        × (order.side ≡ OrderSide.buy → WithinLimits order context p engine.policy)
        × All (Approves order context p) engine.extra_rules
  guarded-WithinLimits engine w returned = elim (guarded-Guards engine w) [
    | inl (_, (x, raised)) ↦ cc
    | inr (_, approved, _) ↦ (assessment_approved_iff order context p engine id at).0 approved
  ]

-- While the kill switch is on, no broker behind the gateway is called, and every order is refused.
pub kill_switch_blocks :
    (broker : ExecutionBroker) (identity id : ℕ) (at : Datetime) (order : Order)
    (context : RiskContext) (engine : RiskEngine) (w : broker.State × Portfolio)
    → let (r, (_, w')) = execute broker identity id at order context (activate engine, w) in
      (w' ≡ w) × ((x : Error) × (r ≡ err x))
unfolding execute activate
kill_switch_blocks broker identity id at order context engine w =
    elim (Bool-cases (context.portfolio == identity)) [
      | inr foreign ↦ rw foreign (refl, (Error.foreign_context, refl))
      | inl same ↦
          rw same
            (elim (guarded-Guards (broker.execute order) id at order context w.1 (activate engine)
              w) [
                | inl blocked ↦ blocked
                | inr (_, approved, _) ↦
                    cc
                      ((assessment_approved_iff order context w.1 (activate engine) id at).0
                        approved).0
              ])
    ]

-- An execution that returns was on the context's own portfolio, with the kill switch off, a buy
-- within every limit of the policy, and every extra rule approving.
pub execute-WithinLimits :
    (broker : ExecutionBroker) (identity id : ℕ) (at : Datetime) (order : Order)
    (context : RiskContext) (engine : RiskEngine) (b : broker.State) (p : Portfolio) {e : Execution}
    → (execute broker identity id at order context (engine, (b, p))).0 ≡ ok e
    → (context.portfolio ≡ identity)
      × (engine.kill_switch ≡ false)
      × (order.side ≡ OrderSide.buy → WithinLimits order context p engine.policy)
      × All (Approves order context p) engine.extra_rules
unfolding execute
execute-WithinLimits broker identity id at order context engine b p returned =
    elim (Bool-cases (context.portfolio == identity)) [
      | inr foreign ↦ cc (rw foreign at returned)
      | inl same ↦
          let (off, limits, extra) =
            guarded-WithinLimits (broker.execute order) id at order context p engine (b, p)
              (rw same at returned) in
          ((==_iff context.portfolio identity).0 same, off, limits, extra)
    ]

-- What every execution of the broker keeps, the gateway keeps.
pub execute-keeps :
    (broker : ExecutionBroker) (identity id : ℕ) (at : Datetime) (order : Order)
    (context : RiskContext) (engine : RiskEngine) (w : broker.State × Portfolio)
    (P : broker.State × Portfolio → Type 0)
    → ((v : broker.State × Portfolio) → P v → P (broker.execute order v).1)
    → P w
    → P (execute broker identity id at order context (engine, w)).1.1
unfolding execute
execute-keeps broker identity id at order context engine w P keeps held =
    elim (Bool-cases (context.portfolio == identity)) [
      | inr foreign ↦ rw foreign held
      | inl same ↦
          rw same (elim (guarded-Guards (broker.execute order) id at order context w.1 engine w) [
            | inl (unchanged, _) ↦ subst P (sym unchanged) held
            | inr (_, _, called) ↦ subst P (sym (ap (λ t. t.1) called)) (keeps w held)
          ])
    ]
