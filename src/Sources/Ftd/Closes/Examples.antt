-- ===== src/Sources/Ftd/Closes/Examples.antt =====
-- Rows at which the closes are read.
use mathlib.Core.List.{Memᴰ}
use delist_detection.Prelude.{
  ℕ, ◌-◌, ◌≤◌, ◌≡◌, refl, arith, Bool, true, false, Option, none, some, List, [], ◌∷◌, All,
  IsSortedBy, codes, text_eq, if◌then◌else◌,
}
use delist_detection.Vocabulary.TradingCalendar.{sub_trading_days-one}
use delist_detection.Vocabulary.TradingCalendar.Examples.{over_the_holiday}
use delist_detection.Sources.Ftd.{FtdRow, FtdIndex}
use delist_detection.Vocabulary.Identifiers.{upper}
use delist_detection.Sources.Ftd.Closes.{of_cusip, rows_at, close_through, close_age}
use delist_detection.Sources.Ftd.Closes.Aging.{IsCount, trading_days, close_age-IsCount}
use delist_detection.Sources.Ftd.Closes.Reading.{
  IsIndex, IsRead, IsPassed, held_of, is_read, close_through-latest,
}

abbrev row : ℕ → Option ℕ → FtdRow
row date price = record {
  date = date;
  cusip = codes "C1";
  symbol = codes "ACME";
  description = codes "ACME INC";
  price = price;
}

abbrev rows : List FtdRow
rows = row 739069 (some 18) ∷ row 739070 (some 20) ∷ row 739072 none ∷ row 739073 (some 20) ∷ []

close_age-IsCount_example :
    IsCount (trading_days 739070 (739075 - 739070)) 739075 (close_age 739072 739075)
close_age-IsCount_example = close_age-IsCount 739072 739075 739070 (omega arith) over_the_holiday

abbrev index : FtdIndex
index = record {
  rows_by_symbol = λ s. [];
  rows_by_cusip = λ c. if text_eq c (codes "C1") then rows else [];
  aliases = λ s. none;
  dates = 739069 ∷ 739070 ∷ 739072 ∷ 739073 ∷ [];
  file_periods = [];
  window_end = none;
}

rows_sorted : (b : Bool) → IsSortedBy (λ r. r.date) (if b then rows else [])
rows_sorted true = ground arith
rows_sorted false = tt

index-IsIndex : IsIndex index
index-IsIndex = record {
  cusips_sorted = λ c. rows_sorted (text_eq c (codes "C1"));
  symbols_sorted = λ s. tt;
}

close_is :
    close_through index (of_cusip (codes "c1")) 739072 1
    ≡ some (record { price = 20; row_date = 739070 })
unfolding close_through rows_at upper
close_is = rw (sub_trading_days-one 739072 739070 over_the_holiday) refl

close_through-latest_example :
    ((r : FtdRow) × Memᴰ r (held_of index (of_cusip (codes "c1")))
      × (is_read (of_cusip (codes "c1")) r ≡ true)
      × IsRead (record { price = 20; row_date = 739070 }) r)
    × All
        (IsPassed (of_cusip (codes "c1")) 739070 739072 (record { price = 20; row_date = 739070 }))
        (held_of index (of_cusip (codes "c1")))
    × (739070 ≤ 739070)
    × (739070 ≤ 739072)
close_through-latest_example =
    close_through-latest index (of_cusip (codes "c1")) 739072 1 739070
      (record { price = 20; row_date = 739070 }) index-IsIndex
      (sub_trading_days-one 739072 739070 over_the_holiday) close_is
