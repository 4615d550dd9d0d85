-- ===== src/Sources/Ftd.antt =====
-- sources/ftd.py: SEC's fails-to-deliver rows, what they show, and what the index over them answers.
-- A price is in millionths of a dollar: the program reads it from a decimal text and only compares it.
pub mod Windows
pub mod Closes
pub mod Slices
pub mod Asking
mod Examples
use delist_detection.Prelude.{
  ℕ, ◌+◌, Bool, true, false, not, ◌&&◌, ◌||◌, Option, none, some, List, [], ◌∷◌, ◌++◌, Text, codes,
  ltb, leb, ◌==◌, starts_with, text_eq, any, filter, reverse, length, sort_with, sorted_by, text_le,
  max, min, if◌then◌else◌,
}
use delist_detection.Vocabulary.Identifiers.{upper, normalize_ticker}
use delist_detection.Vocabulary.TradingCalendar.{last_day}

pub record FtdRow : Type 0 where
  pub date : ℕ
  pub cusip : Text
  pub symbol : Text
  pub description : Text
  pub price : Option ℕ

-- `s.endswith(p)`
ends_with : Text → Text → Bool
ends_with s p = starts_with (reverse s) (reverse p)

pub is_deleted_symbol : Text → Bool
unfolding ends_with
is_deleted_symbol symbol = ltb 4 (length symbol) && ends_with symbol (codes "XXXX")

pub is_unassigned_symbol : Text → Bool
unfolding ends_with
is_unassigned_symbol symbol = ltb 4 (length symbol) && ends_with symbol (codes "ZZZZ")

-- `ch.isdigit()`
is_digit : ℕ → Bool
is_digit c = leb 48 c && leb c 57

pub is_trading_symbol : Text → Bool
unfolding is_deleted_symbol is_unassigned_symbol is_digit
is_trading_symbol symbol =
    ltb 0 (length symbol)
    && (not (is_deleted_symbol symbol)
        && (not (is_unassigned_symbol symbol) && not (any is_digit symbol)))

abbrev pub trading_min_rows : ℕ
trading_min_rows = 20

abbrev pub trading_min_days : ℕ
trading_min_days = 20

abbrev pub trading_min_prices : ℕ
trading_min_prices = 2

-- The rows' prices, each once.
pub prices_of : List FtdRow → List ℕ
prices_of [] = []
prices_of (r ∷ rs) =
    let rest = prices_of rs in
    elim r.price [ none ↦ rest | some p ↦ if any (λ q. q == p) rest then rest else p ∷ rest ]

pub first_day : FtdRow → List FtdRow → ℕ
first_day r [] = r.date
first_day r (s ∷ rs) = min r.date (first_day s rs)

pub last_day_of : FtdRow → List FtdRow → ℕ
last_day_of r [] = r.date
last_day_of r (s ∷ rs) = max r.date (last_day_of s rs)

-- The rows span at least so many days, from their first to their last.
pub spans_days : ℕ → List FtdRow → Bool
unfolding first_day last_day_of
spans_days days [] = false
spans_days days (r ∷ rs) = leb (first_day r rs + days) (last_day_of r rs)

pub trades_after : List FtdRow → ℕ → Bool
unfolding is_trading_symbol prices_of spans_days
trades_after rows after =
    let later = filter (λ r. ltb after r.date && is_trading_symbol r.symbol) rows in
    if ltb (length later) trading_min_rows
    then false
    else if not (spans_days trading_min_days later)
    then false
    else leb trading_min_prices (length (prices_of later))

pub same_price : Option ℕ → Option ℕ → Bool
same_price none none = true
same_price (some p) (some q) = p == q
same_price _ _ = false

-- From a row back through the earlier ones, the latest first, while they repeat the price.
settle : Option ℕ → FtdRow → List FtdRow → FtdRow
unfolding same_price
settle price r [] = r
settle price r (s ∷ earlier) =
    let back = settle price s earlier in if same_price s.price price then back else r

-- Of no row there is none: the program asks of one at least.
pub settled_last : List FtdRow → Option FtdRow
unfolding settle
settled_last rows = elim (reverse rows) [
  | [] ↦ none
  | r ∷ earlier ↦ some (settle r.price r earlier)
]

-- Whether a bound that may be open admits a day.
pub from_on : Option ℕ → ℕ → Bool
from_on none day = true
from_on (some lo) day = leb lo day

pub up_to : Option ℕ → ℕ → Bool
up_to none day = true
up_to (some hi) day = leb day hi

-- `rows[bisect_left(rows, lo):]` of rows sorted by date
dropped : Option ℕ → List FtdRow → List FtdRow
unfolding from_on
dropped lo [] = []
dropped lo (r ∷ rs) = let rest = dropped lo rs in if from_on lo r.date then r ∷ rs else rest

-- `rows[:bisect_right(rows, hi)]` of rows sorted by date
taken : Option ℕ → List FtdRow → List FtdRow
unfolding up_to
taken hi [] = []
taken hi (r ∷ rs) = let rest = taken hi rs in if up_to hi r.date then r ∷ rest else []

unfoldable pub slice : List FtdRow → Option ℕ → Option ℕ → List FtdRow
unfolding dropped taken
slice rows lo hi = taken hi (dropped lo rows)

-- What an index holds: its lists by key, each sorted by date, CUSIP and symbol, the class tickers'
-- spellings, every row's date in order, and the periods of the source's files, which begin by the run
-- date, with the last day of the run's window.
pub record FtdIndex : Type 0 where
  pub rows_by_symbol : Text → List FtdRow
  pub rows_by_cusip : Text → List FtdRow
  pub aliases : Text → Option Text
  pub dates : List ℕ
  pub file_periods : List (ℕ × ℕ)
  pub window_end : Option ℕ

unfoldable pub by_cusip : FtdIndex → Text → Option ℕ → Option ℕ → List FtdRow
unfolding slice
by_cusip index cusip lo hi = slice (index.rows_by_cusip (upper cusip)) lo hi

-- The order of `(date, cusip, symbol)`.
pub row_before : FtdRow → FtdRow → Bool
row_before r s =
    ltb r.date s.date
    || (r.date == s.date)
      && (text_le r.cusip s.cusip && (not (text_eq r.cusip s.cusip) || text_le r.symbol s.symbol))

-- The rows under a spelling, with those of the class ticker it may stand for.
pub rows_under : Option Text → FtdIndex → Text → List FtdRow
unfolding row_before
rows_under none index s = index.rows_by_symbol s
rows_under (some canon) index s =
    sort_with row_before (index.rows_by_symbol s ++ index.rows_by_symbol canon)

unfoldable pub by_symbol : FtdIndex → Text → Option ℕ → Option ℕ → List FtdRow
unfolding rows_under slice
by_symbol index symbol lo hi =
    let s = normalize_ticker symbol in slice (rows_under (index.aliases s) index s) lo hi

-- The rows of the CUSIPs that show the security trading.
unfoldable pub trading_rows : FtdIndex → List Text → Option ℕ → Option ℕ → List FtdRow
unfolding by_cusip is_deleted_symbol
trading_rows index [] lo hi = []
trading_rows index (c ∷ cusips) lo hi =
    filter (λ r. not (is_deleted_symbol r.symbol)) (by_cusip index c lo hi)
    ++ trading_rows index cusips lo hi

rows_of : FtdIndex → List Text → List FtdRow
unfolding by_cusip
rows_of index [] = []
rows_of index (c ∷ cusips) = by_cusip index c none none ++ rows_of index cusips

-- The day of the first row under a deleted symbol.
first_deleted : List FtdRow → Option ℕ
unfolding is_deleted_symbol
first_deleted [] = none
first_deleted (r ∷ rs) =
    let rest = first_deleted rs in if is_deleted_symbol r.symbol then some r.date else rest

pub symbol_deleted : FtdIndex → List Text → Bool
unfolding rows_of first_deleted
symbol_deleted index cusips =
    let rows = sorted_by (λ r. r.date) (rows_of index cusips) in
    elim (first_deleted rows) [
      | none ↦ false
      | some first ↦ not (any (λ r. ltb first r.date && not (is_deleted_symbol r.symbol)) rows)
    ]

-- The first of the index's dates from a day on.
first_from : ℕ → List ℕ → Option ℕ
first_from lo [] = none
first_from lo (d ∷ ds) = let rest = first_from lo ds in if leb lo d then some d else rest

pub data_covers : FtdIndex → ℕ → ℕ → Bool
unfolding first_from
data_covers index lo hi = elim index.file_periods [
  | [] ↦ elim (first_from lo index.dates) [ none ↦ false | some d ↦ leb d hi ]
  | _ ∷ _ ↦
      let hi : ℕ = elim index.window_end [ none ↦ hi | some end ↦ min hi end ] in
      leb lo hi && any (λ (p : ℕ × ℕ). leb p.0 hi && leb lo p.1) index.file_periods
]

-- The latest of the periods' ends, none past `end`, of the periods that begin by then.
latest_end : ℕ → List (ℕ × ℕ) → Option ℕ
latest_end end [] = none
latest_end end (p ∷ ps) =
    let rest = latest_end end ps in
    if leb p.0 end
    then some (elim rest [ none ↦ min p.1 end | some later ↦ max (min p.1 end) later ])
    else rest

unfoldable pub files_end : FtdIndex → Option ℕ
unfolding latest_end
files_end index =
    latest_end (elim index.window_end [ none ↦ last_day | some end ↦ end ]) index.file_periods

pub data_end : FtdIndex → Option ℕ
unfolding files_end
data_end index = elim (files_end index) [
  | some end ↦ some end
  | none ↦ elim (reverse index.dates) [ [] ↦ none | d ∷ _ ↦ some d ]
]
