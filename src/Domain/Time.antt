-- ===== src/Domain/Time.antt =====
-- Timestamps: a `datetime` with a time zone, as the instant it names, or one without.
use broker_ai.Base.{ℕ}
use broker_ai.Base.Result.{Result, Error, ok, err}

pub data Datetime : Type 0 where
  aware : ℕ → Datetime
  naive : ℕ → Datetime

-- `value.tzinfo is None or value.utcoffset() is None`
abbrev pub require_aware : Datetime → Result (Unit {0})
require_aware (aware t) = ok tt
require_aware (naive t) = err Error.naive_time
