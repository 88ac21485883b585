-- ===== src/Data/Csv.antt =====
-- `load_csv`, on what `csv.DictReader` makes of the file. The constructors of dates, decimals and
-- integers from text are parameters; `none` is an exception that they raise.
use broker_ai.Base.{
  ℕ, Bool, false, not, ◌&&◌, Option, none, some, List, [], ◌∷◌, any_of, all_of, Text, text_beq,
  text_eq,
}
use broker_ai.Base.Int.{ℤ}
use broker_ai.Base.Result.{Result, Error, ok, err, raise_if, ◌>>◌, ◌>>=◌}
use broker_ai.Base.Dict.{Dict, lookup}
use broker_ai.Decimal.{Decimal}
use broker_ai.Domain.Instrument.{Instrument}
use broker_ai.Data.Defs.{HistoricalBar, HistoricalDataset, new_bar, new_dataset}

pub record Readers : Type 0 where
  pub date_of : Text → Option ℕ
  pub decimal_of : Text → Option Decimal
  pub int_of : Text → Option ℤ

-- The heading of a file, if it has a line, and the cells of the other lines by column.
pub record CsvFile : Type 0 where
  pub fieldnames : Option (List Text)
  pub rows : List (Dict Text Text)

abbrev pub date_column : Text
date_column = b'd' ∷ b'a' ∷ b't' ∷ b'e' ∷ []

abbrev pub open_column : Text
open_column = b'o' ∷ b'p' ∷ b'e' ∷ b'n' ∷ []

abbrev pub high_column : Text
high_column = b'h' ∷ b'i' ∷ b'g' ∷ b'h' ∷ []

abbrev pub low_column : Text
low_column = b'l' ∷ b'o' ∷ b'w' ∷ []

abbrev pub close_column : Text
close_column = b'c' ∷ b'l' ∷ b'o' ∷ b's' ∷ b'e' ∷ []

abbrev pub volume_column : Text
volume_column = b'v' ∷ b'o' ∷ b'l' ∷ b'u' ∷ b'm' ∷ b'e' ∷ []

abbrev pub required_columns : List Text
required_columns =
    date_column ∷ open_column ∷ high_column ∷ low_column ∷ close_column ∷ volume_column ∷ []

-- Equality of sets.
abbrev pub same_set : List Text → List Text → Bool
same_set xs ys = all_of (λ x. any_of (text_beq x) ys) xs && all_of (λ y. any_of (text_beq y) xs) ys

abbrev pub has_columns : Option (List Text) → Bool
has_columns none = false
has_columns (some names) = same_set names required_columns

-- A constructor on a cell, which is `None` if the line is too short.
abbrev pub cell : {A : Type 0} → (Text → Option A) → Text → Dict Text Text → Result A
cell {A} read column row = elim (lookup column row) [
  | none ↦ err Error.invalid_row
  | some t ↦ (elim (read t) [ none ↦ err Error.invalid_row | some a ↦ ok a ])
]

-- The exceptions of the constructor of a bar, each turned into one about the line.
abbrev pub about_line : {A : Type 0} → Result A → Result A
about_line (ok a) = ok a
about_line (err _) = err Error.invalid_row

module _ (readers : Readers) where
  abbrev pub bar_of : Dict Text Text → Result HistoricalBar
  bar_of row = about_line (do
    trading_date ← cell readers.date_of date_column row
    open_price ← cell readers.decimal_of open_column row
    high ← cell readers.decimal_of high_column row
    low ← cell readers.decimal_of low_column row
    close ← cell readers.decimal_of close_column row
    volume ← cell readers.int_of volume_column row
    new_bar trading_date open_price high low close volume)

  unfoldable pub bars_of : List (Dict Text Text) → Result (List HistoricalBar)
  bars_of [] = ok []
  bars_of (row ∷ rows) = do bar ← bar_of row; bars ← bars_of rows; ok (bar ∷ bars)

  -- `load_csv`, of a file that may not be read
  unfoldable pub load_csv : Option CsvFile → Instrument → Result HistoricalDataset
  load_csv none instrument = err Error.unreadable_file
  load_csv (some file) instrument = do
    raise_if (not (has_columns file.fieldnames)) Error.wrong_columns
    bars ← bars_of file.rows
    new_dataset instrument bars
