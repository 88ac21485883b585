-- ===== src/Server/Api/Startup.antt =====
-- `create_app`, on the values of the settings, and `_environment_bool`. An argument or an environment
-- variable that is not given is `none`.
use broker_ai.Base.{
  ℕ, Bool, true, false, ◌||◌, ltb, if◌then◌else◌, Option, none, some, [], ◌∷◌, length, Text,
  text_beq,
}
use broker_ai.Base.Int.{ℤ}
use broker_ai.Base.Result.{Result, Error, ok, err, ◌>>=◌}
use broker_ai.Domain.Text.{strip, lower}
use broker_ai.Server.RateLimiter.{new_rate_limiter}
use broker_ai.Server.Database.{Database}
use broker_ai.Server.SyncWorker.{Worker, new_worker}
use broker_ai.Server.Api.Access.{Api}

abbrev pub is_on : Text → Bool
is_on t =
    text_beq t (b't' ∷ b'r' ∷ b'u' ∷ b'e' ∷ [])
    || text_beq t (b'1' ∷ [])
    || text_beq t (b'y' ∷ b'e' ∷ b's' ∷ [])
    || text_beq t (b'o' ∷ b'n' ∷ [])

abbrev pub is_off : Text → Bool
is_off t =
    text_beq t (b'f' ∷ b'a' ∷ b'l' ∷ b's' ∷ b'e' ∷ [])
    || text_beq t (b'0' ∷ [])
    || text_beq t (b'n' ∷ b'o' ∷ [])
    || text_beq t (b'o' ∷ b'f' ∷ b'f' ∷ [])

-- `_environment_bool`
unfoldable pub environment_bool : Option Text → Bool → Result Bool
environment_bool none default = ok default
environment_bool (some raw) default =
    let normalized = lower (strip raw) in
    if is_on normalized
    then ok true
    else if is_off normalized
    then ok false
    else err Error.invalid_flag

-- `api_token or os.getenv(...)`
abbrev pub or_else : Option Text → Option Text → Option Text
or_else none variable = variable
or_else (some []) variable = variable
or_else (some (c ∷ t)) variable = some (c ∷ t)

-- The test of the token.
abbrev pub require_token : Option Text → Result Text
require_token none = err Error.short_token
require_token (some t) = if ltb (length t) 32 then err Error.short_token else ok t

abbrev pub automatic : Option Bool → Option Text → Result Bool
automatic (some b) variable = ok b
automatic none variable = environment_bool variable false

-- What `create_app` builds, with tables that are there.
pub record App : Type 0 where
  pub token : Text
  pub api : Api
  pub automatic_sync : Bool
  pub sync_worker : Worker

-- `create_app`, with the interval in seconds as it was given or read
unfoldable pub create_app :
    Option Text → Option Text → ℕ → Option Bool → Option Text → ℤ → Database → Result App
create_app api_token token_variable rate_limit sync_enabled sync_variable interval db = do
  token ← require_token (or_else api_token token_variable)
  enabled ← automatic sync_enabled sync_variable
  worker ← new_worker interval
  ok (record {
    token = token;
    api = record {
      database = db;
      limiter = new_rate_limiter rate_limit 60;
      requests = 0;
      errors = 0;
    };
    automatic_sync = enabled;
    sync_worker = worker;
  })
