-- ===== src/Domain/Valuation.antt =====
-- src/broker_ai/domain/portfolio.py, `Portfolio.value`: cash and positions at given quotes.
use broker_ai.Base.{
  ℕ, ◌≡◌, ◌↔◌, refl, arith, not, if◌then◌else◌, Option, none, some, List, [], ◌∷◌, map, All, Text,
  text_eq,
}
use broker_ai.Base.Int.{◌<ℤ◌}
use broker_ai.Base.Result.{Result, Error, ok, err, raise_if, ◌>>◌, ◌>>=◌, Returns}
use broker_ai.Base.Dict.{Dict, lookup}
use broker_ai.Decimal.{Amount, finite, nought, add, sub, mul_int, sum_from}
use broker_ai.Domain.Text.{text_leb}
use broker_ai.Domain.Instrument.{instrument_beq, instrument_beq_iff}
use broker_ai.Domain.Position.{Position, market_value}
use broker_ai.Domain.Portfolio.{Portfolio}
use broker_ai.Domain.Market.{MarketPrice}

pub record PositionValuation : Type 0 where
  pub symbol : Text
  pub quantity : ℕ
  pub average_price : Amount
  pub current_price : Amount
  pub cost_basis : Amount
  pub market_value : Amount
  pub unrealized_profit : Amount

pub record PortfolioValuation : Type 0 where
  pub cash_balance : Amount
  pub position_value : Amount
  pub total_equity : Amount
  pub realized_profit : Amount
  pub unrealized_profit : Amount
  pub positions : List PositionValuation

-- `PortfolioValuation.total_profit`
unfoldable pub total_profit : PortfolioValuation → Amount
total_profit v = add v.realized_profit v.unrealized_profit

-- `sorted(self.positions.items())`: the symbols differ, so they alone decide the order.
unfoldable pub insert_sorted : Text × Position → Dict Text Position → Dict Text Position
insert_sorted e [] = e ∷ []
insert_sorted e (f ∷ d) = if text_leb e.0 f.0 then e ∷ f ∷ d else f ∷ insert_sorted e d

unfoldable pub sorted_positions : Dict Text Position → Dict Text Position
sorted_positions [] = []
sorted_positions (e ∷ d) = insert_sorted e (sorted_positions d)

abbrev pub valued : Text → Position → Amount → Amount → PositionValuation
valued symbol position price worth =
    let cost = mul_int position.average_price position.quantity in
    record {
      symbol = symbol;
      quantity = position.quantity;
      average_price = position.average_price;
      current_price = price;
      cost_basis = cost;
      market_value = worth;
      unrealized_profit = sub worth cost;
    }

-- The body of the loop over the positions.
abbrev pub value_position : Text → Position → Option MarketPrice → Result PositionValuation
value_position symbol position none = err Error.missing_price
value_position symbol position (some quote) = do
  raise_if (not (instrument_beq quote.instrument position.instrument)) Error.wrong_quote
  worth ← market_value position (finite quote.price)
  ok (valued symbol position quote.price worth)

unfoldable pub value_positions :
    Dict Text MarketPrice → Dict Text Position → Result (List PositionValuation)
value_positions prices [] = ok []
value_positions prices ((symbol, position) ∷ d) = do
  first ← value_position symbol position (lookup symbol prices)
  rest ← value_positions prices d
  ok (first ∷ rest)

unfoldable pub value : Dict Text MarketPrice → Portfolio → Result PortfolioValuation
value prices p = do
  positions ← value_positions prices (sorted_positions p.positions)
  let worth = sum_from nought (map (λ (v : PositionValuation). v.market_value) positions)
  ok (record {
    cash_balance = p.cash_balance;
    position_value = worth;
    total_equity = add p.cash_balance worth;
    realized_profit = p.realized_profit;
    unrealized_profit =
        sum_from nought (map (λ (v : PositionValuation). v.unrealized_profit) positions);
    positions = positions;
  })

-- A positive quote under the symbol of a position, of the very instrument of the position.
abbrev pub IsQuoted : Dict Text MarketPrice → Text × Position → Type 0
IsQuoted prices (symbol, position) =
    (quote : MarketPrice) × (lookup symbol prices ≡ some quote)
    × (quote.instrument ≡ position.instrument)
    × (nought <ℤ quote.price)

value_position_iff :
    (symbol : Text) (position : Position) (found : Option MarketPrice)
    → Returns (value_position symbol position found) ↔ (
        (quote : MarketPrice) × (found ≡ some quote)
        × (quote.instrument ≡ position.instrument)
        × (nought <ℤ quote.price))
unfolding market_value
value_position_iff symbol position none = (λ r. cc, λ q. cc)
value_position_iff symbol position (some quote) = (
  λ r. (
    quote,
    refl,
    ground (arith, instrument_beq_iff quote.instrument position.instrument),
    ground arith,
  ),
  λ q. quoted q,
)
  where
    quoted :
        ((q : MarketPrice) × (some quote ≡ some q)
          × (q.instrument ≡ position.instrument)
          × (nought <ℤ q.price))
        → Returns (value_position symbol position (some quote))
    quoted (q, same, own, positive) = (
      valued symbol position quote.price (mul_int quote.price position.quantity),
      ground (arith, instrument_beq_iff quote.instrument position.instrument),
    )

both_return :
    {A : Type 0} (r : Result A) (s : Result (List A))
    → Returns (do x ← r; xs ← s; ok (x ∷ xs)) ↔ (Returns r × Returns s)
both_return (ok x) (ok xs) = (λ _. ((x, refl), (xs, refl)), λ _. (x ∷ xs, refl))
both_return (ok x) (err e) = (λ h. cc, λ h. cc)
both_return (err e) s = (λ h. cc, λ h. cc)

result-Returns :
    {A B : Type 0} (f : A → B) (r : Result A) → Returns (do a ← r; ok (f a)) ↔ Returns r
result-Returns f (ok a) = (λ _. (a, refl), λ _. (f a, refl))
result-Returns f (err e) = (λ h. cc, λ h. cc)

value_positions_iff :
    (prices : Dict Text MarketPrice) (d : Dict Text Position)
    → Returns (value_positions prices d) ↔ All (IsQuoted prices) d
unfolding value_positions
value_positions_iff prices [] = (λ _. tt, λ _. ([], refl))
value_positions_iff prices ((symbol, position) ∷ d) =
    let found = lookup symbol prices in
    let (split, join) =
      both_return (value_position symbol position found) (value_positions prices d) in
    let (first, first') = value_position_iff symbol position found in
    let (rest, rest') = value_positions_iff prices d in
    (λ r. (first (split r).0, rest (split r).1), λ q. join (first' q.0, rest' q.1))

All-insert_sorted :
    (P : Text × Position → Type 0) (e : Text × Position) (d : Dict Text Position)
    → All P (insert_sorted e d) ↔ (P e × All P d)
unfolding insert_sorted
All-insert_sorted P e [] = (λ h. h, λ h. h)
All-insert_sorted P e (f ∷ d) = ground (arith, All-insert_sorted P e d)

All-sorted_positions :
    (P : Text × Position → Type 0) (d : Dict Text Position) → All P (sorted_positions d) ↔ All P d
unfolding sorted_positions
All-sorted_positions P [] = (λ h. h, λ h. h)
All-sorted_positions P (e ∷ d) =
    ground (arith, All-insert_sorted P e (sorted_positions d), All-sorted_positions P d)

-- A valuation returns exactly when every position has a positive quote, stored under its symbol, of
-- its own instrument.
pub value_iff :
    (prices : Dict Text MarketPrice) (p : Portfolio)
    → Returns (value prices p) ↔ All (IsQuoted prices) p.positions
unfolding value
value_iff prices p =
    let sorted = sorted_positions p.positions in
    let (ends, starts) = result-Returns _ (value_positions prices sorted) in
    let (quoted, quoted') = value_positions_iff prices sorted in
    let (back, there) = All-sorted_positions (IsQuoted prices) p.positions in
    (λ r. back (quoted (ends r)), λ q. starts (quoted' (there q)))
