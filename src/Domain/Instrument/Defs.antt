-- ===== src/Domain/Instrument/Defs.antt =====
-- `Instrument` with its `__post_init__`, and `==` on instruments (all fields, as a dataclass has it).
use broker_ai.Base.{◌≡◌, ◌↔◌, Bool, true, false, ◌&&◌, not, Text, text_beq, text_beq_iff, Eq, arith}
use broker_ai.Base.Result.{Result, Error, ok, raise_if, ◌>>◌}
use broker_ai.Domain.Text.{strip, upper, is_alnum, is_empty}

pub data AssetType : Type 0 where
  stock : AssetType

pub data Exchange : Type 0 where
  euronext_amsterdam nasdaq new_york_stock_exchange nyse_arca : Exchange

pub data Currency : Type 0 where
  eur usd : Currency

pub record Instrument : Type 0 where
  pub symbol : Text
  pub name : Text
  pub exchange : Exchange
  pub currency : Currency
  pub asset_type : AssetType

-- The constructor: the fields have their annotated types, so the `isinstance` tests pass.
unfoldable pub new_instrument : Text → Text → Exchange → Currency → AssetType → Result Instrument
new_instrument symbol name exchange currency asset_type =
    let normalized_symbol = upper (strip symbol) in
    let normalized_name = strip name in
    do
      raise_if (is_empty normalized_symbol) Error.empty_symbol
      raise_if (not (is_alnum normalized_symbol)) Error.invalid_symbol
      raise_if (is_empty normalized_name) Error.empty_name
      ok (record {
        symbol = normalized_symbol;
        name = normalized_name;
        exchange = exchange;
        currency = currency;
        asset_type = asset_type;
      })

abbrev pub exchange_beq : Exchange → Exchange → Bool
exchange_beq Exchange.euronext_amsterdam Exchange.euronext_amsterdam = true
exchange_beq Exchange.nasdaq Exchange.nasdaq = true
exchange_beq Exchange.new_york_stock_exchange Exchange.new_york_stock_exchange = true
exchange_beq Exchange.nyse_arca Exchange.nyse_arca = true
exchange_beq _ _ = false

abbrev pub currency_beq : Currency → Currency → Bool
currency_beq Currency.eur Currency.eur = true
currency_beq Currency.usd Currency.usd = true
currency_beq _ _ = false

abbrev pub asset_type_beq : AssetType → AssetType → Bool
asset_type_beq AssetType.stock AssetType.stock = true

abbrev pub instrument_beq : Instrument → Instrument → Bool
instrument_beq i j =
    text_beq i.symbol j.symbol
    && text_beq i.name j.name
    && exchange_beq i.exchange j.exchange
    && currency_beq i.currency j.currency
    && asset_type_beq i.asset_type j.asset_type

exchange_beq_iff : (x y : Exchange) → (exchange_beq x y ≡ true) ↔ (x ≡ y)
exchange_beq_iff x y = ground arith

pub currency_beq_iff : (x y : Currency) → (currency_beq x y ≡ true) ↔ (x ≡ y)
currency_beq_iff x y = ground arith

asset_type_beq_iff : (x y : AssetType) → (asset_type_beq x y ≡ true) ↔ (x ≡ y)
asset_type_beq_iff x y = ground arith

pub instrument_beq_iff : (i j : Instrument) → (instrument_beq i j ≡ true) ↔ (i ≡ j)
instrument_beq_iff i j = ground (
  arith,
  text_beq_iff i.symbol j.symbol,
  text_beq_iff i.name j.name,
  exchange_beq_iff i.exchange j.exchange,
  currency_beq_iff i.currency j.currency,
  asset_type_beq_iff i.asset_type j.asset_type,
)

instance abbrev pub instrument_eq : Eq Instrument
instrument_eq = record { beq = instrument_beq; beq_iff = instrument_beq_iff }

-- What every constructed instrument has: a symbol that look-ups find under its own name.
pub record IsNormal (i : Instrument) : Type 0 where
  pub symbol_alnum : is_alnum i.symbol ≡ true
  pub symbol_upper : upper i.symbol ≡ i.symbol
  pub name_present : is_empty i.name ≡ false
  pub name_stripped : strip i.name ≡ i.name
