-- ===== src/Settings.antt =====
-- src/broker_ai/config/settings.py. An environment variable is its text, or missing.
use broker_ai.Base.{Bool, false, if◌then◌else◌, Option, none, some, [], ◌∷◌, Text, text_beq}
use broker_ai.Base.Result.{Result, Error, ok, err, ◌>>=◌}
use broker_ai.Domain.Text.{strip, lower, upper}

pub data AppMode : Type 0 where
  simulation : AppMode

pub data LogLevel : Type 0 where
  debug info warning error : LogLevel

pub record Settings : Type 0 where
  pub mode : AppMode
  pub log_level : LogLevel

-- `Settings.live_trading_enabled`
abbrev pub live_trading_enabled : Settings → Bool
live_trading_enabled settings = false

abbrev pub mode_text : AppMode → Text
mode_text AppMode.simulation =
    b's' ∷ b'i' ∷ b'm' ∷ b'u' ∷ b'l' ∷ b'a' ∷ b't' ∷ b'i' ∷ b'o' ∷ b'n' ∷ []

abbrev pub level_text : LogLevel → Text
level_text LogLevel.debug = b'D' ∷ b'E' ∷ b'B' ∷ b'U' ∷ b'G' ∷ []
level_text LogLevel.info = b'I' ∷ b'N' ∷ b'F' ∷ b'O' ∷ []
level_text LogLevel.warning = b'W' ∷ b'A' ∷ b'R' ∷ b'N' ∷ b'I' ∷ b'N' ∷ b'G' ∷ []
level_text LogLevel.error = b'E' ∷ b'R' ∷ b'R' ∷ b'O' ∷ b'R' ∷ []

-- `os.getenv(name, default)`
abbrev pub getenv : Option Text → Text → Text
getenv none default = default
getenv (some t) default = t

-- `AppMode(value)`
abbrev pub mode_of : Text → Result AppMode
mode_of t =
    if text_beq t (mode_text AppMode.simulation)
    then ok AppMode.simulation
    else err Error.unknown_mode

-- `LogLevel(value)`
abbrev pub level_of : Text → Result LogLevel
level_of t =
    if text_beq t (level_text LogLevel.debug)
    then ok LogLevel.debug
    else if text_beq t (level_text LogLevel.info)
    then ok LogLevel.info
    else if text_beq t (level_text LogLevel.warning)
    then ok LogLevel.warning
    else if text_beq t (level_text LogLevel.error)
    then ok LogLevel.error
    else err Error.unknown_level

-- `Settings.from_environment`, on BROKER_AI_MODE and BROKER_AI_LOG_LEVEL
unfoldable pub from_environment : Option Text → Option Text → Result Settings
from_environment raw_mode raw_log_level = do
  mode ← mode_of (lower (strip (getenv raw_mode (mode_text AppMode.simulation))))
  level ← level_of (upper (strip (getenv raw_log_level (level_text LogLevel.info))))
  ok (record { mode = mode; log_level = level })
