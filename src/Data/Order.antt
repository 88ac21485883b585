-- ===== src/Data/Order.antt =====
-- What the constructors of bars and datasets accept.
use broker_ai.Base.{
  ℕ, ◌≤◌, ◌<◌, ◌≡◌, ◌↔◌, refl, sym, ap, ◌∙◌, subst, arith, true, false, ◌==◌, List, [], ◌∷◌, length,
  any_of,
}
use broker_ai.Base.Int.{ℤ, ◌<ℤ◌, ◌≤ℤ◌}
use broker_ai.Base.Result.{ok, Returns}
use broker_ai.Decimal.{Decimal, nought}
use broker_ai.Domain.Instrument.{Instrument}
use broker_ai.Data.{
  HistoricalBar, new_bar, new_dataset, insert_date, sort_dates, dates_beq, has_duplicate, dates_of,
}

-- What the constructor of a bar guarantees.
pub record IsValidBar (b : HistoricalBar) : Type 0 where
  pub low_pos : nought <ℤ b.low
  pub low_le_open : b.low ≤ℤ b.open_price
  pub low_le_close : b.low ≤ℤ b.close
  pub open_le_high : b.open_price ≤ℤ b.high
  pub close_le_high : b.close ≤ℤ b.high

new_bar-IsValidBar :
    (d : ℕ) (o h l c : Decimal) (v : ℤ) {b : HistoricalBar}
    → new_bar d o h l c v ≡ ok b
    → IsValidBar b
unfolding new_bar
new_bar-IsValidBar d o h l c v e = ground arith

-- Every date is later than the one before it.
abbrev pub After : ℕ → List ℕ → Type 0
After d [] = Unit
After d (e ∷ ds) = (d < e) × After e ds

abbrev pub IsIncreasing : List ℕ → Type 0
IsIncreasing [] = Unit
IsIncreasing (d ∷ ds) = After d ds

-- No date is earlier than the one before it.
abbrev From : ℕ → List ℕ → Type 0
From d [] = Unit
From d (e ∷ ds) = (d ≤ e) × From e ds

abbrev IsSorted : List ℕ → Type 0
IsSorted [] = Unit
IsSorted (d ∷ ds) = From d ds

dates_beq_iff : (ds es : List ℕ) → (dates_beq ds es ≡ true) ↔ (ds ≡ es)
dates_beq_iff [] [] = ground arith
dates_beq_iff (d ∷ ds) (e ∷ es) = ground (arith, dates_beq_iff ds es)
dates_beq_iff [] (e ∷ es) = ground arith
dates_beq_iff (d ∷ ds) [] = ground arith

insert_date-From : (c d : ℕ) (ds : List ℕ) → c ≤ d → From c ds → From c (insert_date d ds)
unfolding insert_date
insert_date-From c d [] h f = (h, tt)
insert_date-From c d (e ∷ ds) h f = ground (arith, insert_date-From e d ds)

insert_date-IsSorted : (d : ℕ) (ds : List ℕ) → IsSorted ds → IsSorted (insert_date d ds)
unfolding insert_date
insert_date-IsSorted d [] s = tt
insert_date-IsSorted d (e ∷ ds) s = ground (arith, insert_date-From e d ds)

sort_dates-IsSorted : (ds : List ℕ) → IsSorted (sort_dates ds)
unfolding sort_dates
sort_dates-IsSorted [] = tt
sort_dates-IsSorted (d ∷ ds) = insert_date-IsSorted d (sort_dates ds) (sort_dates-IsSorted ds)

After-IsIncreasing : (d : ℕ) (ds : List ℕ) → After d ds → IsIncreasing ds
After-IsIncreasing d [] a = tt
After-IsIncreasing d (e ∷ ds) a = a.1

insert_date_first : (d : ℕ) (ds : List ℕ) → After d ds → insert_date d ds ≡ d ∷ ds
unfolding insert_date
insert_date_first d [] a = refl
insert_date_first d (e ∷ ds) a = ground arith

-- Sorting leaves increasing dates as they are.
sort_dates_fixed : (ds : List ℕ) → IsIncreasing ds → sort_dates ds ≡ ds
unfolding sort_dates
sort_dates_fixed [] a = refl
sort_dates_fixed (d ∷ ds) a =
    ap (λ es. insert_date d es) (sort_dates_fixed ds (After-IsIncreasing d ds a))
    ∙ insert_date_first d ds a

After-is_new : (c d : ℕ) (ds : List ℕ) → c ≤ d → After d ds → any_of (λ e. c == e) ds ≡ false
After-is_new c d [] h a = refl
After-is_new c d (e ∷ ds) h a = ground (arith, After-is_new c e ds)

IsIncreasing-has_duplicate : (ds : List ℕ) → IsIncreasing ds → has_duplicate ds ≡ false
unfolding has_duplicate
IsIncreasing-has_duplicate [] a = refl
IsIncreasing-has_duplicate (d ∷ ds) a =
    rw (After-is_new d d ds (omega arith) a)
      (IsIncreasing-has_duplicate ds (After-IsIncreasing d ds a))

From-After : (d : ℕ) (ds : List ℕ) → From d ds → has_duplicate (d ∷ ds) ≡ false → After d ds
unfolding has_duplicate
From-After d [] f once = tt
From-After d (e ∷ ds) f once = ground (arith, From-After e ds)

IsSorted-IsIncreasing : (ds : List ℕ) → IsSorted ds → has_duplicate ds ≡ false → IsIncreasing ds
IsSorted-IsIncreasing [] s once = tt
IsSorted-IsIncreasing (d ∷ ds) s once = From-After d ds s once

-- The tests on the dates accept just the strictly increasing ones.
dates_iff :
    (ds : List ℕ)
    → (dates_beq ds (sort_dates ds) ≡ true) × (has_duplicate ds ≡ false) ↔ IsIncreasing ds
dates_iff ds = (
  λ h.
      IsSorted-IsIncreasing ds
        (subst IsSorted (sym ((dates_beq_iff ds (sort_dates ds)).0 h.0)) (sort_dates-IsSorted ds))
        h.1,
  λ a. (
    (dates_beq_iff ds (sort_dates ds)).1 (sym (sort_dates_fixed ds a)),
    IsIncreasing-has_duplicate ds a,
  ),
)

-- A dataset is accepted exactly when it has at least two bars and each trading date is later than
-- the one before it.
pub new_dataset_iff :
    (i : Instrument) (bars : List HistoricalBar)
    → Returns (new_dataset i bars) ↔ (2 ≤ length bars) × IsIncreasing (dates_of bars)
unfolding new_dataset
new_dataset_iff i bars = (
  λ r. ground (arith, dates_iff (dates_of bars)),
  λ h. (record { instrument = i; bars = bars }, ground (arith, dates_iff (dates_of bars))),
)
