-- ===== src/Tests/DomainRuns.antt =====
-- Runs of the domain objects, and their theorems at fixed inputs.
use broker_ai.Base.{◌≡◌, refl, [], ◌∷◌}
use broker_ai.Base.Int.{pos, negsuc}
use broker_ai.Base.Result.{Result, Error, ok, err}
use broker_ai.Decimal.{finite, non_finite, cents}
use broker_ai.Domain.Text.{strip, lstrip, rstrip, upper, is_alnum}
use broker_ai.Domain.Instrument.{
  Instrument, Exchange, Currency, AssetType, new_instrument, IsNormal, new_instrument-IsNormal,
  new_instrument-fixed,
}
use broker_ai.Base.Dict.{Dict}
use broker_ai.Base.Result.{Returns}
use broker_ai.Base.{◌↔◌, All, Text}
use broker_ai.Domain.Market.{MarketPrice}
use broker_ai.Domain.Valuation.{value, value_iff, IsQuoted}
use broker_ai.Domain.Order.{OrderSide, new_order}
use broker_ai.Domain.Portfolio.{withdraw, record_purchase, record_sale}
use broker_ai.Domain.Portfolio.Invariant.{IsValid, withdraw-IsValid, record_purchase-IsValid}
use broker_ai.Domain.Portfolio.Sale.{Sells, record_sale-IsSale}
use broker_ai.Tests.Samples.{asml, asml_symbol, asml-IsNormal, holding, holding-IsValid, noon}

-- " asml " and "ASML NV "
typed : Result Instrument
typed =
    new_instrument (b' ' ∷ b'a' ∷ b's' ∷ b'm' ∷ b'l' ∷ b' ' ∷ [])
      (b'A' ∷ b'S' ∷ b'M' ∷ b'L' ∷ b' ' ∷ b'N' ∷ b'V' ∷ b' ' ∷ []) Exchange.euronext_amsterdam
      Currency.eur AssetType.stock

typed-eq-asml : typed ≡ ok asml
unfolding typed new_instrument strip lstrip rstrip upper is_alnum
typed-eq-asml = refl

new_instrument-IsNormal_example : IsNormal asml
unfolding typed
new_instrument-IsNormal_example =
    new_instrument-IsNormal (b' ' ∷ b'a' ∷ b's' ∷ b'm' ∷ b'l' ∷ b' ' ∷ [])
      (b'A' ∷ b'S' ∷ b'M' ∷ b'L' ∷ b' ' ∷ b'N' ∷ b'V' ∷ b' ' ∷ []) Exchange.euronext_amsterdam
      Currency.eur AssetType.stock typed-eq-asml

new_instrument-fixed_example :
    new_instrument asml.symbol asml.name asml.exchange asml.currency asml.asset_type ≡ ok asml
new_instrument-fixed_example = new_instrument-fixed asml asml-IsNormal

refused :
    (new_instrument (b'A' ∷ b'.' ∷ []) asml.name asml.exchange asml.currency asml.asset_type
      ≡ err Error.invalid_symbol)
    × (new_order asml OrderSide.buy (negsuc 0) (finite (cents 100)) 1
        ≡ err Error.quantity_not_positive)
    × (new_order asml OrderSide.buy (pos 1) non_finite 1 ≡ err Error.not_finite)
unfolding new_instrument new_order strip lstrip rstrip upper is_alnum
refused = (refl, refl, refl)

withdraw-IsValid_example : IsValid (withdraw (finite (cents 20000)) holding).1
withdraw-IsValid_example = withdraw-IsValid (finite (cents 20000)) holding-IsValid

record_purchase-IsValid_example :
    IsValid (record_purchase asml (pos 2) (finite (cents 9500)) holding).1
record_purchase-IsValid_example =
    record_purchase-IsValid asml (pos 2) (finite (cents 9500)) holding-IsValid

record_sale-IsSale_example :
    IsValid (record_sale asml (pos 5) (finite (cents 9500)) holding).1
    × Sells asml (pos 5) holding (record_sale asml (pos 5) (finite (cents 9500)) holding)
record_sale-IsSale_example =
    record_sale-IsSale asml (pos 5) (finite (cents 9500)) holding holding-IsValid

-- The close of a day at 95.00.
abbrev closing : Dict Text MarketPrice
closing = (asml_symbol, record { instrument = asml; price = cents 9500; observed_at = noon }) ∷ []

value_iff_example : Returns (value closing holding) ↔ All (IsQuoted closing) holding.positions
value_iff_example = value_iff closing holding
