-- ===== src/Data/Defs.antt =====
-- historical.py: daily bars and a dataset of one instrument. A trading date is its
-- day number.
use broker_ai.Base.{
  ℕ, Bool, true, false, not, ltb, leb, ◌==◌, ◌&&◌, ◌||◌, if◌then◌else◌, List, [], ◌∷◌, map, length,
  any_of,
}
use broker_ai.Base.Int.{ℤ, pos, pos_part, ltb_ℤ}
use broker_ai.Base.Result.{Result, Error, ok, raise_if, ◌>>◌, ◌>>=◌}
use broker_ai.Decimal.{Amount, Decimal, require_positive}
use broker_ai.Domain.Instrument.{Instrument}

pub record HistoricalBar : Type 0 where
  pub trading_date : ℕ
  pub open_price : Amount
  pub high : Amount
  pub low : Amount
  pub close : Amount
  pub volume : ℕ

-- `HistoricalBar.__post_init__`
unfoldable pub new_bar : ℕ → Decimal → Decimal → Decimal → Decimal → ℤ → Result HistoricalBar
new_bar trading_date open_price high low close volume = do
  o ← require_positive open_price
  h ← require_positive high
  l ← require_positive low
  c ← require_positive close
  raise_if (ltb_ℤ h o || ltb_ℤ h c || ltb_ℤ h l) Error.high_too_low
  raise_if (ltb_ℤ o l || ltb_ℤ c l || ltb_ℤ h l) Error.low_too_high
  raise_if (ltb_ℤ volume (pos 0)) Error.negative_amount
  ok (record {
    trading_date = trading_date;
    open_price = o;
    high = h;
    low = l;
    close = c;
    volume = pos_part volume;
  })

pub record HistoricalDataset : Type 0 where
  pub instrument : Instrument
  pub bars : List HistoricalBar

-- `sorted(dates)`
unfoldable pub insert_date : ℕ → List ℕ → List ℕ
insert_date d [] = d ∷ []
insert_date d (e ∷ ds) = if leb d e then d ∷ e ∷ ds else e ∷ insert_date d ds

unfoldable pub sort_dates : List ℕ → List ℕ
sort_dates [] = []
sort_dates (d ∷ ds) = insert_date d (sort_dates ds)

abbrev pub dates_beq : List ℕ → List ℕ → Bool
dates_beq [] [] = true
dates_beq (d ∷ ds) (e ∷ es) = d == e && dates_beq ds es
dates_beq _ _ = false

-- `len(dates) != len(set(dates))`
unfoldable pub has_duplicate : List ℕ → Bool
has_duplicate [] = false
has_duplicate (d ∷ ds) = any_of (λ e. d == e) ds || has_duplicate ds

abbrev pub dates_of : List HistoricalBar → List ℕ
dates_of = map (λ (b : HistoricalBar). b.trading_date)

-- `HistoricalDataset.__post_init__`
unfoldable pub new_dataset : Instrument → List HistoricalBar → Result HistoricalDataset
new_dataset instrument bars = do
  raise_if (ltb (length bars) 2) Error.too_few_bars
  raise_if (not (dates_beq (dates_of bars) (sort_dates (dates_of bars)))) Error.unsorted_bars
  raise_if (has_duplicate (dates_of bars)) Error.duplicate_bar
  ok (record { instrument = instrument; bars = bars })
