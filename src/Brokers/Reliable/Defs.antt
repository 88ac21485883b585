-- ===== src/Brokers/Reliable/Defs.antt =====
-- `ReliabilityPolicy` and `ReliableBrokerClient._call`, over any world that an attempt may change.
use broker_ai.Base.{ℕ, zero, suc, ◌+◌, ltb, if◌then◌else◌, Option, none, some}
use broker_ai.Base.Int.{ℤ, pos, pos_part, leb_ℤ, ltb_ℤ}
use broker_ai.Base.Result.{Result, Error, ok, err, raise_if, ◌>>◌}

-- The two durations are whole microseconds here, where the source has floats.
pub record ReliabilityPolicy : Type 0 where
  pub timeout : ℤ
  pub max_attempts : ℕ
  pub retry_delay : ℤ

unfoldable pub new_reliability_policy : ℤ → ℤ → ℤ → Result ReliabilityPolicy
new_reliability_policy timeout max_attempts retry_delay = do
  raise_if (leb_ℤ timeout (pos 0)) Error.timeout_not_positive
  raise_if (leb_ℤ max_attempts (pos 0)) Error.attempts_not_positive
  raise_if (ltb_ℤ retry_delay (pos 0)) Error.delay_negative
  ok (record { timeout = timeout; max_attempts = pos_part max_attempts; retry_delay = retry_delay })

-- How one awaited attempt ends: with a value, with `TimeoutError`, with a `BrokerTransientError`
-- (which `BrokerTimeoutError` is too), with another `OSError`, or with any other exception.
pub data Attempt (A : Type 0) : Type 0 where
  value : A → Attempt A
  timed_out : Attempt A
  transient : Error → Attempt A
  os_error : Attempt A
  raised : Error → Attempt A

-- The error that the loop remembers after an attempt that may be repeated.
abbrev pub last_after : {A : Type 0} → Attempt A → Option Error
last_after (value a) = none
last_after timed_out = some Error.timeout
last_after (transient e) = some e
last_after os_error = some Error.transient
last_after (raised e) = none

-- What stands after the loop.
abbrev pub give_up : {A : Type 0} → Option Error → Result A
give_up none = err Error.no_result
give_up (some e) = err e

-- The end of one round of the loop: a value is returned, an exception that is not caught goes on,
-- and the rest of the loop runs after any other.
abbrev pub after_attempt : {W A : Type 0} → (Error → Result A × W) → Attempt A → W → Result A × W
after_attempt rest (value a) w = (ok a, w)
after_attempt rest timed_out w = rest Error.timeout
after_attempt rest (transient e) w = rest e
after_attempt rest os_error w = rest Error.transient
after_attempt rest (raised e) w = (err e, w)

module _ {W A : Type 0} (max_attempts : ℕ) (operation : ℕ → W → Attempt A × W)
    (sleep : ℕ → W → W) where
  -- `if attempt < self.policy.max_attempts: await asyncio.sleep(...)`
  abbrev pub pause : ℕ → W → W
  pause attempt w = if ltb attempt max_attempts then sleep attempt w else w

  -- The loop, with `left` attempts to go, the number of the next one, and the last error. What the
  -- operation and other tasks do to the world may depend on the number of the attempt.
  unfoldable pub call_from : ℕ → ℕ → Option Error → W → Result A × W
  call_from zero attempt last w = (give_up last, w)
  call_from (suc left) attempt last w =
      let (outcome, w') = operation attempt w in
      after_attempt (λ e. call_from left (attempt + 1) (some e) (pause attempt w')) outcome w'

  -- `ReliableBrokerClient._call`
  unfoldable pub call : W → Result A × W
  call = call_from max_attempts 1 none
