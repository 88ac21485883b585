-- ===== src/Domain/Instrument/Laws.antt =====
-- A constructed instrument is in normal form, and normal forms are fixed points of the constructor.
use broker_ai.Base.{◌≡◌, true, false, Text, arith}
use broker_ai.Base.Result.{ok}
use broker_ai.Domain.Text.{strip, upper, is_alnum, is_empty, strip_idem, upper_idem, strip_alnum}
use broker_ai.Domain.Instrument.Defs.{
  Instrument, Exchange, Currency, AssetType, new_instrument, IsNormal,
}

-- Every instrument that the constructor returns has an alphanumeric symbol in upper case and a
-- name that is not empty and has no space around it.
pub new_instrument-IsNormal :
    (symbol name : Text) (x : Exchange) (c : Currency) (t : AssetType) {i : Instrument}
    → new_instrument symbol name x c t ≡ ok i
    → IsNormal i
unfolding new_instrument
new_instrument-IsNormal symbol name x c t e =
    ground (arith, upper_idem (strip symbol), strip_idem name)

-- `symbol.strip().upper()`, as every look-up does it.
pub normal_symbol : {i : Instrument} → IsNormal i → upper (strip i.symbol) ≡ i.symbol
normal_symbol {i} n = rw (strip_alnum i.symbol n.symbol_alnum) n.symbol_upper

alnum_present : (s : Text) → is_alnum s ≡ true → is_empty s ≡ false
unfolding is_alnum
alnum_present s h = ground arith

-- An instrument in normal form is accepted again and comes back as it is.
pub new_instrument-fixed :
    (i : Instrument)
    → IsNormal i
    → new_instrument i.symbol i.name i.exchange i.currency i.asset_type ≡ ok i
unfolding new_instrument
new_instrument-fixed i n = ground (arith, normal_symbol n, alnum_present i.symbol n.symbol_alnum)
