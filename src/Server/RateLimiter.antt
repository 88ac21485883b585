-- ===== src/Server/RateLimiter.antt =====
-- src/broker_ai/server/app.py, class RateLimiter: a sliding window for each key. Instants of the
-- monotonic clock and the window are whole numbers of one unit of time.
use broker_ai.Base.{
  ℕ, ◌+◌, ◌≤◌, ◌≢◌, leb, ltb, if◌then◌else◌, Option, none, some, List, [], ◌∷◌, ◌++◌, length, Text,
  text_eq,
}
use broker_ai.Base.Dict.{Dict, lookup, insert}
use broker_ai.Base.Result.{Result, Error, ok, err, Action}

pub record RateLimiter : Type 0 where
  pub limit : ℕ
  pub window : ℕ
  pub requests : Dict Text (List ℕ)

unfoldable pub new_rate_limiter : ℕ → ℕ → RateLimiter
new_rate_limiter limit window = record { limit = limit; window = window; requests = [] }

-- `self._requests[key]`, a defaultdict
abbrev pub or_empty : Option (List ℕ) → List ℕ
or_empty none = []
or_empty (some ts) = ts

abbrev pub requests_of : Text → RateLimiter → List ℕ
requests_of key s = or_empty (lookup key s.requests)

-- The loop of `popleft`.
unfoldable pub expire : ℕ → ℕ → List ℕ → List ℕ
expire window now [] = []
expire window now (t ∷ ts) =
    let rest = expire window now ts in if leb (t + window) now then rest else t ∷ ts

abbrev pub admit : Text → ℕ → RateLimiter → List ℕ → Result (Unit {0}) × RateLimiter
admit key now s kept =
    if leb s.limit (length kept)
    then (err Error.too_many_requests, record s { requests = insert key kept s.requests })
    else (ok tt, record s { requests = insert key (kept ++ (now ∷ [])) s.requests })

-- `RateLimiter.check` at the instant `now`
unfoldable pub check : Text → ℕ → Action RateLimiter (Unit {0})
check key now s = admit key now s (expire s.window now (requests_of key s))

-- The instants at which a key was accepted, after one more call.
abbrev pub log_after : ℕ → List ℕ → Result (Unit {0}) → List ℕ
log_after now log (ok _) = log ++ (now ∷ [])
log_after now log (err _) = log

-- The accepted requests that are younger than the window.
abbrev pub recent : ℕ → ℕ → List ℕ → ℕ
recent window now [] = 0
recent window now (t ∷ ts) =
    let rest = recent window now ts in if ltb now (t + window) then 1 + rest else rest

module _ (limit window : ℕ) (key : Text) where
  -- The calls of a limiter up to an instant, by keys in any order, and the instants at which
  -- requests of `key` were accepted.
  pub data Trace : RateLimiter → ℕ → List ℕ → Type 0 where
    opened : {now : ℕ} → Trace (new_rate_limiter limit window) now []
    called :
        {s : RateLimiter} {before now : ℕ} {log : List ℕ}
        → Trace s before log
        → before ≤ now
        → Trace (check key now s).1 now (log_after now log (check key now s).0)
    other :
        {s : RateLimiter} {before now : ℕ} {log : List ℕ} {other_key : Text}
        → Trace s before log
        → before ≤ now
        → key ≢ other_key
        → Trace (check other_key now s).1 now log
