-- ===== src/Identity/History/Backfill.antt =====
-- The sightings of identity/history.py that its ranges are built without: a ticker that a snapshot filled
-- back, and an old CUSIP's fails still settling.
use delist_detection.Prelude.{
  ℕ, ◌+◌, ◌-◌, Bool, false, not, ◌&&◌, ◌||◌, none, some, List, [], ◌∷◌, Text, ltb, leb, ◌==◌,
  text_eq, any, filter, length, if◌then◌else◌,
}
use delist_detection.Vocabulary.Identifiers.{bare_ticker}
use delist_detection.Sources.Ftd.{FtdRow, FtdIndex, trading_rows, settled_last}
use delist_detection.Identity.History.Ranges.{Sighting, Range, is_observation, is_ftd, holds}

-- 2004-01-31
abbrev pub backfill_start : ℕ
backfill_start = 731611

abbrev pub backfill_window_days : ℕ
backfill_window_days = 30

unfoldable pub is_backfilled : ℕ → Text → List Text → FtdIndex → Bool
is_backfilled as_of ticker cusips ftd =
    let rows =
      trading_rows ftd cusips (some (as_of - backfill_window_days))
        (some (as_of + backfill_window_days)) in
    let bare = bare_ticker ticker in
    let own = any (λ r. text_eq (bare_ticker r.symbol) bare) rows in
    let other = any (λ r. not (text_eq (bare_ticker r.symbol) bare)) rows in
    if ltb as_of backfill_start || length cusips == 0
    then false
    else if length rows == 0
    then false
    else not own && other

-- A CUSIP's rows, of which there is at least one.
pub record CusipRows : Type 0 where
  pub cusip : Text
  pub first : FtdRow
  pub others : List FtdRow

put : FtdRow → List CusipRows → List CusipRows
put r [] = record { cusip = r.cusip; first = r; others = [] } ∷ []
put r (g ∷ gs) =
    let rest = put r gs in
    if text_eq r.cusip g.cusip
    then record { cusip = g.cusip; first = r; others = g.first ∷ g.others } ∷ gs
    else g ∷ rest

-- The rows by CUSIP, each CUSIP's in their order.
pub by_cusip : List FtdRow → List CusipRows
unfolding put
by_cusip [] = []
by_cusip (r ∷ rs) = put r (by_cusip rs)

-- The date of the row that opens a CUSIP's last run of one price.
settled_on : CusipRows → ℕ
settled_on g = elim (settled_last (g.first ∷ g.others)) [ none ↦ g.first.date | some r ↦ r.date ]

-- A row of the CUSIP's last run, dated once a CUSIP that began later has begun.
settles : List CusipRows → CusipRows → FtdRow → Bool
unfolding settled_on
settles groups g r =
    leb (settled_on g) r.date
    && any
        (λ o.
          not (text_eq o.cusip g.cusip)
          && (ltb g.first.date o.first.date && leb o.first.date r.date))
        groups

-- One of the rows of the groups on the day under the ticker passes the test.
some_row : List CusipRows → (CusipRows → FtdRow → Bool) → ℕ → Text → Bool
some_row groups p day ticker =
    any
      (λ g.
        any (λ r. (r.date == day) && (text_eq (bare_ticker r.symbol) ticker && p g r))
          (g.first ∷ g.others))
      groups

-- `(day, ticker) in _settling_tail(cusips, ftd)`
unfoldable pub in_settling_tail : List Text → FtdIndex → ℕ → Text → Bool
unfolding by_cusip settles some_row
in_settling_tail cusips ftd day ticker =
    let groups = by_cusip (trading_rows ftd cusips none none) in
    if ltb (length groups) 2
    then false
    else some_row groups (settles groups) day ticker
      && not (some_row groups (λ g r. not (settles groups g r)) day ticker)

unfoldable pub is_sighted : List Text → FtdIndex → Sighting → Bool
unfolding is_backfilled in_settling_tail
is_sighted cusips ftd s =
    not (is_observation s.source && is_backfilled s.day s.value cusips ftd)
    && not (is_ftd s.source && in_settling_tail cusips ftd s.day (bare_ticker s.value))

unfoldable pub filtered_ticker_sightings : List Sighting → List Text → FtdIndex → List Sighting
unfolding is_sighted
filtered_ticker_sightings sightings cusips ftd = filter (is_sighted cusips ftd) sightings

-- `_in_ticker_history`
pub in_ticker_history : Text → ℕ → List Range → Bool
in_ticker_history ticker as_of ranges =
    any (λ r. text_eq (bare_ticker r.value) (bare_ticker ticker) && holds r as_of) ranges
