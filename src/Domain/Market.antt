-- ===== src/Domain/Market.antt =====
-- src/broker_ai/domain/market.py: the price of one instrument at an instant.
use broker_ai.Base.Result.{Result, ok, ◌>>=◌, ◌>>◌}
use broker_ai.Decimal.{Amount, Decimal, require_positive}
use broker_ai.Domain.Instrument.{Instrument}
use broker_ai.Domain.Time.{Datetime, require_aware}

pub record MarketPrice : Type 0 where
  pub instrument : Instrument
  pub price : Amount
  pub observed_at : Datetime

unfoldable pub new_market_price : Instrument → Decimal → Datetime → Result MarketPrice
new_market_price instrument price observed_at = do
  a ← require_positive price
  require_aware observed_at
  ok (record { instrument = instrument; price = a; observed_at = observed_at })
