-- ===== src/Endings/LastTrade/Entries.antt =====
-- The entry points of `Dating`, endings/last_trade.py: of_group, of_fallback and from_notice.
pub mod Results
mod Examples
use delist_detection.Prelude.{
  ℕ, ◌+◌, ◌-◌, Bool, true, false, not, ◌&&◌, ◌||◌, Option, none, some, List, [], ◌∷◌, Text, codes,
  is_among, text_eq, ltb, leb, map, max, is_some, sort_with, ◌>>=◌, if◌then◌else◌,
}
use delist_detection.Vocabulary.ExitKind.Row.{Source, last_sighting, unsourced, closing_day}
use delist_detection.Vocabulary.ExitKind.LastTrades.{
  LastTrade, unconfirmed, confirmed, effective_date,
}
use delist_detection.Vocabulary.TradingCalendar.{previous_trading_day, days_before, days_after}
use delist_detection.Endings.LastTrade.{Reading, no_reading, decide_last_trade, text_days}
use delist_detection.Endings.LastTrade.Dating.{
  EdgarSubmission, Form25, Clients, is_involuntary, issuer_form25_forms, is_8k, filed_in,
  eightk_window, closing_day_of, least, greatest, confirmations, decide, tickers_of,
}
use delist_detection.Endings.TradingRecord.{TradingRecord, trades_until}

abbrev pub Group : Type 0
Group = List (EdgarSubmission × Form25)

-- The group's filing days; a filing without one raises.
pub filing_days : Group → Option (List ℕ)
filing_days [] = some []
filing_days (g ∷ gs) = do day ← g.0.filing_date; days ← filing_days gs; some (day ∷ days)

-- The order of `(form != "25-NSE", filing_date)`.
exchange_first : EdgarSubmission × Form25 → EdgarSubmission × Form25 → Bool
exchange_first g h =
    let own = text_eq g.0.form (codes "25-NSE") in
    let other = text_eq h.0.form (codes "25-NSE") in
    own && not other
    || not (other && not own) && elim g.0.filing_date [
      | none ↦ true
      | some d ↦ elim h.0.filing_date [ none ↦ false | some e ↦ leb d e ]
    ]

-- The first notice that states a day.
first_notice : Group → Reading
first_notice [] = no_reading
first_notice (g ∷ gs) =
    let rest = first_notice gs in if is_some g.1.notice.day then g.1.notice else rest

-- The texts' days, else the trading day before a filing day, with more days behind it.
guessed : List ℕ → ℕ → List ℕ → Option (ℕ × List ℕ)
guessed (g ∷ guesses) filed more = some (g, guesses)
guessed [] filed more = elim (previous_trading_day filed) [
  | none ↦ none
  | some before ↦ some (before, more)
]

pub group_reading : Clients → List EdgarSubmission → Group → Text → TradingRecord → Option LastTrade
unfolding filing_days exchange_first first_notice guessed
group_reading c filings group ticker trading = do
  days ← filing_days group
  earliest ← least days
  latest ← greatest days
  latest_eff ← greatest (map effective_date days)
  let notice = first_notice (sort_with exchange_first group)
  from ← days_before earliest 60
  until ← days_after latest 15
  lo ← days_before earliest 75
  hi ← days_after latest_eff 10
  still ← days_after latest_eff 5
  let eightk = eightk_window c filings from until earliest
  let texts = text_days notice eightk
  guesses ← guessed texts latest (latest ∷ [])
  found ←
      confirmations c trading (tickers_of trading ticker lo hi) earliest lo hi still guesses.0
        guesses.1 texts
  decide notice eightk found

-- The group dates the ending, or rule 4 does not apply to it.
pub stands : LastTrade → EdgarSubmission × Form25 → Bool → Bool
stands lt winner continued =
    is_some lt.day
    || continued
    || is_among winner.0.form issuer_form25_forms
    || is_involuntary winner.1

closed_on : ℕ → LastTrade
closed_on filed = record {
  day = some filed;
  source = closing_day;
  flags = unconfirmed ∷ [];
  halt_feed_failed = [];
}

-- Rule 4's answer, else the earliest filing day.
pub else_filed : Option LastTrade → ℕ → List ℕ → LastTrade
unfolding closed_on
else_filed none filed failed = record (closed_on filed) { halt_feed_failed = failed }
else_filed (some got) filed failed = record got { halt_feed_failed = failed }

pub of_group :
    Clients
    → List EdgarSubmission
    → Group
    → EdgarSubmission × Form25
    → Text
    → TradingRecord
    → Bool
    → Option LastTrade
unfolding filing_days stands else_filed
of_group c filings group winner ticker trading continued = do
  lt ← group_reading c filings group ticker trading
  if stands lt winner continued then some lt else (do
    days ← filing_days group
    filed ← least days
    shown ← trades_until trading
    got ← closing_day_of c filings (filed - 10) filed shown
    some (else_filed got filed lt.halt_feed_failed))

pub single_reading :
    Clients → List EdgarSubmission → Text → ℕ → TradingRecord → ℕ → Option LastTrade
unfolding guessed
single_reading c filings ticker filed trading eightk_until = do
  from ← days_before filed 60
  until ← days_after eightk_until 5
  lo ← days_before filed 75
  hi ← days_after filed 10
  still ← days_after filed 5
  let eightk = eightk_window c filings from until filed
  let texts = text_days no_reading eightk
  guesses ← guessed texts filed []
  found ←
      confirmations c trading (tickers_of trading ticker lo hi) filed lo hi still guesses.0
        guesses.1 texts
  decide no_reading eightk found

-- The days of the completion 8-Ks filed around the last sighting.
completions_filed : List EdgarSubmission → ℕ → List ℕ
completions_filed [] last_seen = []
completions_filed (f ∷ fs) last_seen =
    let rest = completions_filed fs last_seen in
    if is_8k f
      && (is_among (codes "2.01") f.item_set || is_among (codes "5.01") f.item_set)
      && filed_in (last_seen - 30) (last_seen + 3) f
    then elim f.filing_date [ none ↦ rest | some day ↦ day ∷ rest ]
    else rest

-- A closing by the last sighting replaces the undated answer.
closed_by : LastTrade → ℕ → Option LastTrade → LastTrade
closed_by lt last_seen none = lt
closed_by lt last_seen (some got) = elim got.day [
  | none ↦ lt
  | some day ↦
      if leb day last_seen then record got { halt_feed_failed = lt.halt_feed_failed } else lt
]

completed : Clients → List EdgarSubmission → ℕ → LastTrade → Option LastTrade
unfolding completions_filed closed_by
completed c filings last_seen lt = elim (greatest (completions_filed filings last_seen)) [
  | none ↦ some lt
  | some done ↦ do
    got ← closing_day_of c filings (done - 10) (done + 3) none
    some (closed_by lt last_seen got)
]

-- An undated answer is the last sighting's day.
pub else_seen : LastTrade → ℕ → LastTrade
else_seen lt last_seen = elim lt.day [
  | some day ↦ lt
  | none ↦ record {
    day = some last_seen;
    source = unsourced;
    flags = unconfirmed ∷ [];
    halt_feed_failed = lt.halt_feed_failed;
  }
]

pub of_fallback :
    Clients
    → List EdgarSubmission
    → Text
    → (ended_by last_seen : ℕ) → TradingRecord
    → Bool
    → Option LastTrade
unfolding completed else_seen
of_fallback c filings ticker ended_by last_seen trading is_merger = do
  lt ← single_reading c filings ticker ended_by trading (max ended_by last_seen)
  closed ← if not (is_some lt.day) && is_merger then completed c filings last_seen lt else some lt
  some (else_seen closed last_seen)

pub is_last_sighting : Source → Bool
is_last_sighting last_sighting = true
is_last_sighting _ = false

-- The day is before the successor's first sighting, where there is one, and not after the Form 25 took
-- effect.
pub fits : Option ℕ → ℕ → Option ℕ → Bool
fits none effective before = false
fits (some day) effective none = leb day effective
fits (some day) effective (some first) = ltb day first && leb day effective

-- The row's Form 25 by its accession, if it has one; `fetch` gives what the notice says, where the filing
-- can be fetched.
pub from_notice : (Text → Option Form25) → Option Text → LastTrade → Option ℕ → ℕ → Option LastTrade
unfolding is_last_sighting fits
from_notice fetch none lt before effective = some lt
from_notice fetch (some accession) lt before effective =
    if not (is_last_sighting lt.source) then some lt else elim (fetch accession) [
      | none ↦ some lt
      | some f25 ↦ do
        got ← decide_last_trade f25.notice no_reading none none
        some (if confirmed got && fits got.day effective before then got else lt)
    ]
