-- ===== src/Endings/LastTrade/Volume.antt =====
-- What `Dating`, endings/last_trade.py, dates by volume and rows: midas_last, midas_drop and unexplained.
use delist_detection.Prelude.{
  ℕ, ◌+◌, ◌-◌, Bool, not, ◌&&◌, ◌||◌, Option, none, some, List, [], ◌∷◌, Text, codes, is_among,
  text_eq, leb, any, filter, ◌>>=◌, if◌then◌else◌,
}
use delist_detection.Vocabulary.ExitKind.Row.{Source, midas, last_sighting, fails_rows}
use delist_detection.Vocabulary.ExitKind.LastTrades.{LastTrade, unconfirmed}
use delist_detection.Endings.LastTrade.Dating.{
  EdgarSubmission, Clients, filed_in, greatest, tickers_of, midas_start,
}
use delist_detection.Endings.TradingRecord.{
  TradingRecord, rows, trades_after, trades_until, has_cusips, held_on,
}
use delist_detection.Sources.Ftd.{FtdRow, first_day, last_day_of}

-- The volume's days of the tickers.
volume_days : (Text → ℕ → ℕ → Option ℕ) → ℕ → List Text → List ℕ
volume_days ask last_seen [] = []
volume_days ask last_seen (t ∷ ts) =
    let rest = volume_days ask last_seen ts in
    elim (ask t midas_start last_seen) [ none ↦ rest | some d ↦ d ∷ rest ]

pub midas_last : Clients → TradingRecord → Text → ℕ → Option ℕ
unfolding volume_days
midas_last c trading ticker last_seen = elim c.volume [
  | none ↦ none
  | some ask ↦
      greatest (volume_days ask last_seen (tickers_of trading ticker midas_start last_seen))
]

-- `FILED_BY_OTHERS`
abbrev filed_by_others : List Text
filed_by_others =
    codes "SC 13D"
    ∷ codes "SC 13D/A"
    ∷ codes "SC 13G"
    ∷ codes "SC 13G/A"
    ∷ codes "SCHEDULE 13D"
    ∷ codes "SCHEDULE 13D/A"
    ∷ codes "SCHEDULE 13G"
    ∷ codes "SCHEDULE 13G/A"
    ∷ codes "3"
    ∷ codes "3/A"
    ∷ codes "4"
    ∷ codes "4/A"
    ∷ codes "5"
    ∷ codes "5/A"
    ∷ codes "144"
    ∷ codes "144/A"
    ∷ codes "SC TO-T"
    ∷ codes "SC TO-T/A"
    ∷ codes "SC 14D1"
    ∷ codes "SC 14D1/A"
    ∷ codes "UPLOAD"
    ∷ []

-- A filing of the issuer's own within 180 days of the day.
pub is_near : ℕ → EdgarSubmission → Bool
is_near day f = not (is_among f.form filed_by_others) && filed_in (day - 180) (day + 180) f

pub midas_drop : Clients → List EdgarSubmission → Text → TradingRecord → ℕ → Option LastTrade
unfolding is_near
midas_drop c filings ticker trading last_seen = do
  day ← midas_last c trading ticker last_seen
  if not (has_cusips trading) || any (is_near day) filings || not (trades_after trading day)
      then none
      else some (record { day = some day; source = midas; flags = []; halt_feed_failed = [] })

-- The first row's day of the CUSIP held last.
first_of_last_cusip : FtdRow → List FtdRow → ℕ
first_of_last_cusip r rs =
    let held = held_on (last_day_of r rs) (r ∷ rs) in
    elim (filter (λ x. text_eq x.cusip held) (r ∷ rs)) [ [] ↦ 0 | x ∷ xs ↦ first_day x xs ]

worked_out_on : ℕ → Source → LastTrade
worked_out_on day source = record {
  day = some day;
  source = source;
  flags = unconfirmed ∷ [];
  halt_feed_failed = [];
}

-- The shown day, where it is none before the last CUSIP's first row.
shown_by : List FtdRow → Option ℕ → Option ℕ
unfolding first_of_last_cusip
shown_by rows none = none
shown_by [] (some shown) = none
shown_by (r ∷ rs) (some shown) = if leb (first_of_last_cusip r rs) shown then some shown else none

pub unexplained : Clients → TradingRecord → Text → ℕ → Option LastTrade
unfolding worked_out_on shown_by
unexplained c trading ticker last_seen = do
  until ← trades_until trading
  some (elim (shown_by (rows trading) until) [
    | some shown ↦ worked_out_on shown fails_rows
    | none ↦ elim (midas_last c trading ticker last_seen) [
      | some volume ↦ worked_out_on volume midas
      | none ↦ worked_out_on last_seen last_sighting
    ]
  ])
