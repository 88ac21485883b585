-- ===== src/Brokers/Local/Account.antt =====
-- The constructor of both adapters and `get_account`.
use broker_ai.Base.{true, List, [], ◌∷◌, Text, text_eq}
use broker_ai.Base.Dict.{Dict, insert}
use broker_ai.Base.Result.{Result, ok, ◌>>=◌, Action}
use broker_ai.Decimal.{Decimal}
use broker_ai.Domain.Text.{strip, upper}
use broker_ai.Domain.Position.{Position}
use broker_ai.Domain.Portfolio.{Portfolio}
use broker_ai.Domain.Market.{MarketPrice}
use broker_ai.Domain.Time.{Datetime}
use broker_ai.Domain.Valuation.{sorted_positions}
use broker_ai.Brokers.Simulated.{new_simulated_broker}
use broker_ai.Brokers.Models.{
  PositionSnapshot, AccountSnapshot, new_position_snapshot, new_account_snapshot,
}
use broker_ai.Brokers.Local.{LocalBroker, connected_do}

-- `{symbol.strip().upper(): price for symbol, price in market_prices.items()}`
unfoldable pub normal_prices :
    List (Text × MarketPrice) → Dict Text MarketPrice → Dict Text MarketPrice
normal_prices [] prices = prices
normal_prices ((symbol, price) ∷ rest) prices =
    normal_prices rest (insert (upper (strip symbol)) price prices)

-- `_LocalBrokerAdapter.__init__`
unfoldable pub new_local_broker :
    Portfolio → List (Text × MarketPrice) → Decimal → Result LocalBroker
new_local_broker portfolio market_prices fee_per_order = do
  broker ← new_simulated_broker fee_per_order
  ok (record {
    portfolio = portfolio;
    prices = normal_prices market_prices [];
    broker = broker;
    connected = true;
    orders = [];
    client_ids = [];
  })

unfoldable pub snapshots : Dict Text Position → Result (List PositionSnapshot)
snapshots [] = ok []
snapshots ((symbol, position) ∷ d) = do
  first ← new_position_snapshot (record {
    symbol = symbol;
    quantity = position.quantity;
    average_price = position.average_price;
  })
  rest ← snapshots d
  ok (first ∷ rest)

-- `get_account`
unfoldable pub account_of : Datetime → Portfolio → Result AccountSnapshot
account_of now p = do
  positions ← snapshots (sorted_positions p.positions)
  new_account_snapshot (record {
    cash_balance = p.cash_balance;
    currency = p.currency;
    positions = positions;
    observed_at = now;
  })

unfoldable pub get_account : Datetime → Action LocalBroker AccountSnapshot
get_account now = connected_do λ s. (account_of now s.portfolio, s)
