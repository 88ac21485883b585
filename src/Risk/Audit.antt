-- ===== src/Risk/Audit.antt =====
-- The audit log of the risk engine.
use broker_ai.Base.{ℕ, arith}
use broker_ai.Base.Distinct.{Distinct, Distinct-append}
use broker_ai.Domain.Order.{Order}
use broker_ai.Domain.Portfolio.{Portfolio}
use broker_ai.Domain.Time.{Datetime}
use broker_ai.Risk.Models.{RiskContext, RiskAssessment}
use broker_ai.Risk.Engine.{RiskEngine, assess, assessment_of, validate_metadata}

-- No two assessments of the log share an ID.
abbrev pub HasDistinctIds : RiskEngine → Type 0
HasDistinctIds engine = Distinct (λ (a : RiskAssessment). a.assessment_id) engine.audit_log

-- An assessment, whether it returns or raises, leaves a log in which no two entries share an ID, if
-- the log was such a one before.
pub assess-HasDistinctIds :
    (id : ℕ) (at : Datetime) (order : Order) (context : RiskContext) (p : Portfolio)
    (engine : RiskEngine)
    → HasDistinctIds engine
    → HasDistinctIds (assess id at order context p engine).1
unfolding assess validate_metadata assessment_of
assess-HasDistinctIds id at order context p engine d = ground (
  arith,
  Distinct-append (λ (a : RiskAssessment). a.assessment_id) engine.audit_log
      (assessment_of engine id at order context p) d,
)
