-- ===== src/Server/Turns.antt =====
-- Interleavings of the calls of a synchronisation worker.
use broker_ai.Base.{
  ℕ, suc, ◌≡◌, refl, arith, Bool, true, false, not, if◌then◌else◌, Option, none, some, ap, ◌∙◌,
  subst, List, [], ◌∷◌,
}
use broker_ai.Base.Int.{ℤ, pos, leb_ℤ}
use broker_ai.Base.Result.{Error, ok, err, ok_inj}
use broker_ai.Server.SyncWorker.{Worker, new_worker, Outcome, begin, finish, start, stop}

-- What a call of `begin` does to the number of operations that are waited for.
abbrev pub counted : Bool → ℕ → ℕ
counted true n = suc n
counted false n = n

-- The workers that calls lead to, in any order, with the number of operations that are waited for and
-- the outcomes of those that have ended, the last first. A call ends only if one waits.
pub data Reached : Worker → ℕ → List Outcome → Type 0 where
  new : {w : Worker} (i : ℤ) → new_worker i ≡ ok w → Reached w 0 []
  began :
      {w : Worker} {waiting : ℕ} {log : List Outcome} (now : ℕ)
      → Reached w waiting log
      → Reached (begin now w).1 (counted (begin now w).0 waiting) log
  finished :
      {w : Worker} {waiting : ℕ} {log : List Outcome} (o : Outcome)
      → Reached w (suc waiting) log
      → Reached (finish o w) waiting (o ∷ log)
  started :
      {w : Worker} {waiting : ℕ} {log : List Outcome}
      → Reached w waiting log
      → Reached (start w) waiting log
  stopped :
      {w : Worker} {waiting : ℕ} {log : List Outcome}
      → Reached w waiting log
      → Reached (stop w) waiting log

abbrev pub successes : List Outcome → ℕ
successes [] = 0
successes (Outcome.success _ ∷ log) = suc (successes log)
successes (_ ∷ log) = successes log

-- The failures since the last success.
abbrev pub failures : List Outcome → ℕ
failures [] = 0
failures (Outcome.success _ ∷ log) = 0
failures (Outcome.failure _ ∷ log) = suc (failures log)
failures (Outcome.cancelled ∷ log) = failures log

-- The exception of the last operation that was not cancelled.
abbrev pub last_failure : List Outcome → Option Error
last_failure [] = none
last_failure (Outcome.success _ ∷ log) = none
last_failure (Outcome.failure e ∷ log) = some e
last_failure (Outcome.cancelled ∷ log) = last_failure log

abbrev pub last_success : List Outcome → Option ℕ
last_success [] = none
last_success (Outcome.success now ∷ log) = some now
last_success (_ ∷ log) = last_success log

abbrev pub one_if : Bool → ℕ
one_if true = 1
one_if false = 0

-- What the fields of a worker say about its history.
pub record Tells (w : Worker) (waiting : ℕ) (log : List Outcome) : Type 0 where
  pub at_most_one : waiting ≡ one_if w.running
  pub counts_successes : w.runs_completed ≡ successes log
  pub counts_failures : w.consecutive_failures ≡ failures log
  pub keeps_error : w.last_error ≡ last_failure log
  pub keeps_success : w.last_success_at ≡ last_success log
  pub seldom : leb_ℤ (pos 60) w.interval_seconds ≡ true

new_worker-Tells : (i : ℤ) (w : Worker) → new_worker i ≡ ok w → Tells w 0 []
unfolding new_worker
new_worker-Tells i w made = go (leb_ℤ (pos 60) i) refl made
  where
    go :
        (b : Bool)
        → leb_ℤ (pos 60) i ≡ b
        → (if not b
            then err Error.interval_too_short
            else ok (record {
              interval_seconds = i;
              task = false;
              running = false;
              last_started_at = none;
              last_success_at = none;
              last_error = none;
              consecutive_failures = 0;
              runs_completed = 0;
            }))
          ≡ ok w
        → Tells w 0 []
    go true long e =
        subst (λ (v : Worker). Tells v 0 []) (ok_inj e)
          (record {
            at_most_one = refl;
            counts_successes = refl;
            counts_failures = refl;
            keeps_error = refl;
            keeps_success = refl;
            seldom = long;
          })
    go false short e = cc

begin-Tells :
    (now : ℕ) (w : Worker) (waiting : ℕ) (log : List Outcome)
    → Tells w waiting log
    → Tells (begin now w).1 (counted (begin now w).0 waiting) log
unfolding begin
begin-Tells now w waiting log t = go w.running refl
  where
    go :
        (b : Bool)
        → w.running ≡ b
        → (let x : Bool × Worker =
              if b
              then (false, w)
              else (true, record w { running = true; last_started_at = some now }) in
            Tells x.1 (counted x.0 waiting) log)
    go true busy = t
    go false idle = record {
      at_most_one = ap suc t.at_most_one ∙ ap (λ b. suc (one_if b)) idle;
      counts_successes = t.counts_successes;
      counts_failures = t.counts_failures;
      keeps_error = t.keeps_error;
      keeps_success = t.keeps_success;
      seldom = t.seldom;
    }

-- While one waits, the worker is running, and it is the only one.
alone : (b : Bool) (waiting : ℕ) → suc waiting ≡ one_if b → waiting ≡ 0
alone true waiting h = omega (arith, h)
alone false waiting h = omega (arith, h)

finish-Tells :
    (o : Outcome) (w : Worker) (waiting : ℕ) (log : List Outcome)
    → Tells w (suc waiting) log
    → Tells (finish o w) waiting (o ∷ log)
unfolding finish
finish-Tells (Outcome.success now) w waiting log t = record {
  at_most_one = alone w.running waiting t.at_most_one;
  counts_successes = ap suc t.counts_successes;
  counts_failures = refl;
  keeps_error = refl;
  keeps_success = refl;
  seldom = t.seldom;
}
finish-Tells (Outcome.failure e) w waiting log t = record {
  at_most_one = alone w.running waiting t.at_most_one;
  counts_successes = t.counts_successes;
  counts_failures = ap suc t.counts_failures;
  keeps_error = refl;
  keeps_success = t.keeps_success;
  seldom = t.seldom;
}
finish-Tells Outcome.cancelled w waiting log t = record {
  at_most_one = alone w.running waiting t.at_most_one;
  counts_successes = t.counts_successes;
  counts_failures = t.counts_failures;
  keeps_error = t.keeps_error;
  keeps_success = t.keeps_success;
  seldom = t.seldom;
}

-- The task of the loop is none of the fields that tell the history.
with_task-Tells :
    (task : Bool) (w : Worker) (waiting : ℕ) (log : List Outcome)
    → Tells w waiting log
    → Tells (record w { task = task }) waiting log
with_task-Tells task w waiting log t = record {
  at_most_one = t.at_most_one;
  counts_successes = t.counts_successes;
  counts_failures = t.counts_failures;
  keeps_error = t.keeps_error;
  keeps_success = t.keeps_success;
  seldom = t.seldom;
}

by_task :
    (b : Bool) (v w : Worker) (waiting : ℕ) (log : List Outcome)
    → Tells v waiting log
    → Tells w waiting log
    → Tells (if b then v else w) waiting log
by_task true v w waiting log s t = s
by_task false v w waiting log s t = t

-- However the calls of a worker are interleaved, `running` holds just when an operation is waited for,
-- and there is one at most; the counters and the last success and error are those of the history
-- of the operations: the successes, and the failures since the last success; a cancelled
-- operation counts as neither. The interval is at least 60 seconds.
pub Reached-Tells :
    {w : Worker} {waiting : ℕ} {log : List Outcome} → Reached w waiting log → Tells w waiting log
unfolding start stop
Reached-Tells (new {w = w} i made) = new_worker-Tells i w made
Reached-Tells (began {w = w} {waiting = waiting} {log = log} now r) =
    begin-Tells now w waiting log (Reached-Tells r)
Reached-Tells (finished {w = w} {waiting = waiting} {log = log} o r) =
    finish-Tells o w waiting log (Reached-Tells r)
Reached-Tells (started {w = w} {waiting = waiting} {log = log} r) =
    let t = Reached-Tells r in
    by_task (not w.task) _ w waiting log (with_task-Tells true w waiting log t) t
Reached-Tells (stopped {w = w} {waiting = waiting} {log = log} r) =
    let t = Reached-Tells r in
    by_task (not w.task) w _ waiting log t (with_task-Tells false w waiting log t)
