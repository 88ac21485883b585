-- ===== src/Tests/ServerRuns.antt =====
-- A limiter that accepts one request in sixty instants, called at 0 and at 30.
use broker_ai.Base.{◌≤◌, ◌≡◌, refl, [], ◌∷◌, Text, arith, text_eq}
use broker_ai.Base.Result.{Error, ok, err}
use broker_ai.Server.RateLimiter.{
  RateLimiter, new_rate_limiter, check, expire, log_after, recent, opened, called,
}
use broker_ai.Server.Window.{Trace-recent}

abbrev client : Text
client = b'1' ∷ []

abbrev after_one : RateLimiter
after_one = (check client 0 (new_rate_limiter 1 60)).1

second_refused : (check client 30 after_one).0 ≡ err Error.too_many_requests
unfolding check expire new_rate_limiter
second_refused = refl

third_accepted : (check client 60 after_one).0 ≡ ok tt
unfolding check expire new_rate_limiter
third_accepted = refl

Trace-recent_example :
    recent 60 30 (
      log_after 30
        (log_after 0 [] (check client 0 (new_rate_limiter 1 60)).0)
        (check client 30 after_one).0)
    ≤ 1
Trace-recent_example =
    Trace-recent 1 60 client (called (called (opened {now = 0}) (omega arith)) (omega arith))
