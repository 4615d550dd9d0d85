-- ===== src/Endings/LastTrade/Entries/Results.antt =====
-- What the entry points of `Dating`, endings/last_trade.py, answer.
use delist_detection.Prelude.{
  ℕ, ◌-◌, ◌≤◌, ◌<◌, ◌≡◌, refl, Bool, true, false, Option, none, some, List, Text, arith,
}
use delist_detection.Vocabulary.ExitKind.LastTrades.{LastTrade, confirmed, worked_out}
use delist_detection.Endings.LastTrade.Closing.{IsWorkedOut, AreWorkedOut}
use delist_detection.Endings.LastTrade.Dating.{
  EdgarSubmission, Form25, Clients, closing_day_of-AreWorkedOut, least,
}
use delist_detection.Endings.LastTrade.Entries.{
  Group, filing_days, group_reading, stands, else_filed, closed_on, of_group, fits,
  is_last_sighting,
}
use delist_detection.Endings.TradingRecord.{TradingRecord, trades_until}

-- The notice's day replaces the last sighting's.
abbrev pub IsFromNotice : LastTrade → Option ℕ → ℕ → LastTrade → Type 0
IsFromNotice lt before effective new =
    (is_last_sighting lt.source ≡ true)
    × (confirmed new ≡ true)
    × (fits new.day effective before ≡ true)
    × ((d : ℕ) × (new.day ≡ some d) × (d ≤ effective) × ((b : ℕ) → before ≡ some b → d < b))

else_filed-IsWorkedOut :
    (got : Option LastTrade) (filed : ℕ) (failed : List ℕ)
    → AreWorkedOut filed (some got)
    → IsWorkedOut filed (else_filed got filed failed)
      × ((else_filed got filed failed).halt_feed_failed ≡ failed)
unfolding else_filed closed_on worked_out confirmed
else_filed-IsWorkedOut none filed failed h = (((filed, refl, omega arith), refl, refl), refl)
else_filed-IsWorkedOut (some got) filed failed h = (h, refl)

-- A group of Form 25s, filed on days of 0001-01-13 or later, that dates nothing, of a security that does not go on, won by a
-- voluntary Form 25 of the exchange: where the fails rows' last day reads, rule 4 always gives it a day, no later
-- than the earliest filing, worked out and unconfirmed; the halt feed's failures are kept.
pub of_group-IsWorkedOut :
    (c : Clients) (filings : List EdgarSubmission) (group : Group)
    (winner : EdgarSubmission × Form25) (ticker : Text) (trading : TradingRecord) (continued : Bool)
    (lt : LastTrade) (days : List ℕ) (filed : ℕ) (shown : Option ℕ)
    → group_reading c filings group ticker trading ≡ some lt
    → stands lt winner continued ≡ false
    → filing_days group ≡ some days
    → least days ≡ some filed
    → 13 ≤ filed
    → trades_until trading ≡ some shown
    → (new : LastTrade) × (of_group c filings group winner ticker trading continued ≡ some new)
      × IsWorkedOut filed new
      × (new.halt_feed_failed ≡ lt.halt_feed_failed)
unfolding of_group
of_group-IsWorkedOut c filings group winner ticker trading continued lt days filed shown read
      undated_ at_days at_filed past at_shown =
    let (got, e, worked) =
      closing_day_of-AreWorkedOut c filings (filed - 10) filed shown (omega (arith, past)) in
    let (dated, kept) = else_filed-IsWorkedOut got filed lt.halt_feed_failed worked in
    (
      else_filed got filed lt.halt_feed_failed,
      rw (read, undated_, at_days, at_filed, at_shown, e) refl,
      dated,
      kept,
    )
