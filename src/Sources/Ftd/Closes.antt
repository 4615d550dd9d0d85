-- ===== src/Sources/Ftd/Closes.antt =====
-- The closes that sources/ftd.py reads from the rows an index holds.
pub mod Aging
pub mod Reading
mod Examples
use delist_detection.Prelude.{
  ℕ, ◌+◌, ◌-◌, Bool, true, false, not, Option, none, some, List, [], ◌∷◌, reverse, Text, ltb, ◌==◌,
  is_among, filter, or_else, ◌>>=◌, zero, suc, if◌then◌else◌,
}
use delist_detection.Vocabulary.TradingCalendar.{
  next_trading_day, previous_trading_day, add_trading_days, sub_trading_days,
}
use delist_detection.Sources.Ftd.{FtdRow, FtdIndex, by_cusip, by_symbol}

-- `r.price is not None and r.price > 0`
pub positive : Option ℕ → Option ℕ
positive none = none
positive (some p) = if ltb 0 p then some p else none

pub record Close : Type 0 where
  pub price : ℕ
  pub row_date : ℕ

-- The first of the rows that has a price.
first_priced : List FtdRow → Option Close
unfolding positive
first_priced [] = none
first_priced (r ∷ rs) =
    let rest = first_priced rs in
    elim (positive r.price) [
      | none ↦ rest
      | some p ↦ some (record { price = p; row_date = r.date })
    ]

-- Whose rows a close is read from: a CUSIP's, or a symbol's but for the CUSIPs to skip.
pub data Key : Type 0 where
  of_cusip : Text → Key
  of_symbol : Text → List Text → Key

pub rows_at : FtdIndex → Key → ℕ → ℕ → List FtdRow
unfolding by_cusip by_symbol
rows_at index (of_cusip cusip) lo hi = by_cusip index cusip (some lo) (some hi)
rows_at index (of_symbol symbol skip) lo hi =
    filter (λ r. not (is_among r.cusip skip)) (by_symbol index symbol (some lo) (some hi))

pub record LaggedClose : Type 0 where
  pub close : Close
  pub lagged : Bool

-- The close of a day; none where the calendar ends.
pub close_after : FtdIndex → Key → ℕ → (max_lag : ℕ) → Option LaggedClose
unfolding first_priced
close_after index key day max_lag = do
  first ← next_trading_day day
  last ← add_trading_days first max_lag
  close ← first_priced (rows_at index key first last)
  some (record { close = close; lagged = not (close.row_date == first) })

pub close_through : FtdIndex → Key → ℕ → (max_back : ℕ) → Option Close
unfolding first_priced
close_through index key day max_back = do
  lo ← sub_trading_days day max_back
  first_priced (reverse (rows_at index key lo day))

by_cusip_first {ℓ} : {A : Type ℓ} → (Key → Option A) → Option Text → Text → List Text → Option A
by_cusip_first read none symbol skip = read (of_symbol symbol skip)
by_cusip_first read (some cusip) symbol skip =
    or_else (read (of_cusip cusip)) (read (of_symbol symbol skip))

pub close_of : FtdIndex → ℕ → Option Text → Text → List Text → Option LaggedClose
unfolding by_cusip_first
close_of index day cusip symbol skip =
    by_cusip_first (λ key. close_after index key day 3) cusip symbol skip

pub close_known_on : FtdIndex → ℕ → Option Text → Text → List Text → Option Close
unfolding by_cusip_first
close_known_on index day cusip symbol skip =
    by_cusip_first (λ key. close_through index key day 10) cusip symbol skip

-- A count, the end of the calendar, or steps left undone.
pub data Age : Type 0 where
  aged : ℕ → Age
  past_calendar : Age
  unfinished : Age

one_more : Age → Age
one_more (aged n) = aged (n + 1)
one_more past_calendar = past_calendar
one_more unfinished = unfinished

-- The loop from `day` to the last trade, in at most `left` steps.
age_from : ℕ → (left : ℕ) → ℕ → Age
unfolding one_more
age_from last_trade zero day = if ltb day last_trade then unfinished else aged 0
age_from last_trade (suc left) day = elim (ltb day last_trade) [
  | false ↦ aged 0
  | true ↦ elim (next_trading_day day) [
    | none ↦ past_calendar
    | some next ↦ one_more (age_from last_trade left next)
  ]
]

-- A step is a day forward at least, so the days to the last trade are steps enough.
pub close_age : ℕ → ℕ → Age
unfolding age_from
close_age row_date last_trade = elim (previous_trading_day row_date) [
  | none ↦ past_calendar
  | some day ↦ age_from last_trade (last_trade - day) day
]
