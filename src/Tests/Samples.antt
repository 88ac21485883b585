-- ===== src/Tests/Samples.antt =====
-- The instrument, orders and portfolios of the examples, after src/broker_ai/risk/demo.py.
use broker_ai.Base.{ℕ, ◌+◌, ◌*◌, [], ◌∷◌, Text, false, true, arith, refl}
use broker_ai.Decimal.{nought, cents}
use broker_ai.Domain.Text.{is_alnum, upper, strip, lstrip, rstrip}
use broker_ai.Domain.Instrument.{Instrument, Exchange, Currency, AssetType, IsNormal}
use broker_ai.Domain.Order.{Order, OrderSide, IsValidOrder}
use broker_ai.Domain.Portfolio.{Portfolio}
use broker_ai.Domain.Portfolio.Invariant.{IsValid}
use broker_ai.Domain.Time.{Datetime, aware}
use broker_ai.Brokers.Simulated.{SimulatedBroker}
use broker_ai.Brokers.Local.{LocalBroker}
use broker_ai.Brokers.Local.Atomic.{IsSound}
use broker_ai.Brokers.Models.{BrokerMode}
use broker_ai.Risk.Models.{RiskContext, default_policy}
use broker_ai.Risk.Engine.{RiskEngine}

-- "ASML"
abbrev pub asml_symbol : Text
asml_symbol = b'A' ∷ b'S' ∷ b'M' ∷ b'L' ∷ []

abbrev pub asml : Instrument
asml = record {
  symbol = asml_symbol;
  name = b'A' ∷ b'S' ∷ b'M' ∷ b'L' ∷ b' ' ∷ b'N' ∷ b'V' ∷ [];
  exchange = Exchange.euronext_amsterdam;
  currency = Currency.eur;
  asset_type = AssetType.stock;
}

pub asml-IsNormal : IsNormal asml
unfolding is_alnum upper strip lstrip rstrip
asml-IsNormal = record {
  symbol_alnum = refl;
  symbol_upper = refl;
  name_present = refl;
  name_stripped = refl;
}

abbrev pub order_of : OrderSide → ℕ → ℕ → ℕ → Order
order_of side quantity price_cents order_id = record {
  instrument = asml;
  side = side;
  quantity = quantity;
  price = cents price_cents;
  order_id = order_id;
}

-- Ten shares at 100.00, and the sale of three of them at 120.00.
abbrev pub buy_ten : Order
buy_ten = order_of OrderSide.buy 10 10000 1

abbrev pub sell_three : Order
sell_three = order_of OrderSide.sell 3 12000 2

pub buy_ten-IsValidOrder : IsValidOrder buy_ten
buy_ten-IsValidOrder = record { quantity_pos = omega arith; price_pos = omega arith }

pub sell_three-IsValidOrder : IsValidOrder sell_three
sell_three-IsValidOrder = record { quantity_pos = omega arith; price_pos = omega arith }

-- 10000.00 in cash and nothing else.
abbrev pub start : Portfolio
start = record {
  cash_balance = cents 1000000;
  currency = Currency.eur;
  positions = [];
  realized_profit = nought;
}

pub start-IsValid : IsValid start
start-IsValid = record { cash_nonneg = omega arith; positions_stored = tt }

-- Five shares at 90.00 and 500.00 in cash.
abbrev pub holding : Portfolio
holding = record {
  cash_balance = cents 50000;
  currency = Currency.eur;
  positions =
      (asml_symbol, record { instrument = asml; quantity = 5; average_price = cents 9000 }) ∷ [];
  realized_profit = nought;
}

pub holding-IsValid : IsValid holding
holding-IsValid = record {
  cash_nonneg = omega arith;
  positions_stored =
      ((record { quantity_pos = omega arith; average_pos = omega arith }, refl), refl, tt);
}

-- A broker that charges 1.00 for an order.
abbrev pub broker : SimulatedBroker
broker = record { fee_per_order = cents 100; transactions = [] }

abbrev pub noon : Datetime
noon = aware 1200

abbrev pub adapter : LocalBroker
adapter = record {
  portfolio = start;
  prices = [];
  broker = broker;
  connected = true;
  orders = [];
  client_ids = [];
}

pub adapter-IsSound : IsSound adapter
adapter-IsSound = record { fee_nonneg = omega arith; portfolio_valid = start-IsValid }

-- A stand-in for the name-based UUID: distinct for distinct modes and IDs.
abbrev pub sample_uuid5 : BrokerMode → ℕ → ℕ
sample_uuid5 BrokerMode.simulation id = 2 * id
sample_uuid5 BrokerMode.paper id = 2 * id + 1

abbrev pub engine : RiskEngine
engine = record { policy = default_policy; kill_switch = false; extra_rules = []; audit_log = [] }

-- The context of a first order on `start`, portfolio object 7.
abbrev pub context : RiskContext
context = record {
  portfolio = 7;
  current_equity = cents 1000000;
  day_start_equity = cents 1000000;
  market_prices = (asml_symbol, cents 10000) ∷ [];
  fee = cents 100;
}
