-- ===== src/Server/SyncWorker.antt =====
-- src/broker_ai/server/sync_worker.py. `run_once` waits for the operation, and other tasks run
-- meanwhile: it is given in the two halves before and after the wait, whose outcome is an event. A
-- text of ISO time is a number.
use broker_ai.Base.{ℕ, suc, Bool, true, false, not, if◌then◌else◌, Option, none, some}
use broker_ai.Base.Int.{ℤ, pos, leb_ℤ}
use broker_ai.Base.Result.{Result, Error, ok, err}

pub record Worker : Type 0 where
  pub interval_seconds : ℤ
  pub task : Bool
  pub running : Bool
  pub last_started_at : Option ℕ
  pub last_success_at : Option ℕ
  pub last_error : Option Error
  pub consecutive_failures : ℕ
  pub runs_completed : ℕ

-- `BrokerSyncWorker.__init__`, for an integer
unfoldable pub new_worker : ℤ → Result Worker
new_worker interval =
    if not (leb_ℤ (pos 60) interval)
    then err Error.interval_too_short
    else ok (record {
      interval_seconds = interval;
      task = false;
      running = false;
      last_started_at = none;
      last_success_at = none;
      last_error = none;
      consecutive_failures = 0;
      runs_completed = 0;
    })

-- How the operation that `run_once` waits for ends: with a result, by an exception, or cancelled,
-- which no `except Exception` catches.
pub data Outcome : Type 0 where
  success : ℕ → Outcome
  failure : Error → Outcome
  cancelled : Outcome

-- `run_once` up to its wait: whether it waits, and the worker.
unfoldable pub begin : ℕ → Worker → Bool × Worker
begin now w =
    if w.running
    then (false, w)
    else (true, record w { running = true; last_started_at = some now })

-- `run_once` from its wait on, with its `finally`
unfoldable pub finish : Outcome → Worker → Worker
finish (Outcome.failure e) w = record w {
  consecutive_failures = suc w.consecutive_failures;
  last_error = some e;
  running = false;
}
finish (Outcome.success now) w = record w {
  runs_completed = suc w.runs_completed;
  consecutive_failures = 0;
  last_error = none;
  last_success_at = some now;
  running = false;
}
finish Outcome.cancelled w = record w { running = false }

-- `start`
unfoldable pub start : Worker → Worker
start w = if not w.task then record w { task = true } else w

-- `stop`: it cancels the task of the loop, whose wait, if it has one, ends as cancelled first.
unfoldable pub stop : Worker → Worker
stop w = if not w.task then w else record w { task = false }

pub record Status : Type 0 where
  pub enabled : Bool
  pub paper_only : Bool
  pub interval_seconds : ℤ
  pub running : Bool
  pub runs_completed : ℕ
  pub consecutive_failures : ℕ
  pub last_started_at : Option ℕ
  pub last_success_at : Option ℕ
  pub last_error : Option Error

-- `status`
abbrev pub status : Bool → Worker → Status
status enabled w = record {
  enabled = enabled;
  paper_only = true;
  interval_seconds = w.interval_seconds;
  running = w.running;
  runs_completed = w.runs_completed;
  consecutive_failures = w.consecutive_failures;
  last_started_at = w.last_started_at;
  last_success_at = w.last_success_at;
  last_error = w.last_error;
}
