-- ===== src/Endings/LastTrade/Entries/Examples.antt =====
-- A Form 25 group at which rule 4 of endings/last_trade.py applies.
use delist_detection.Prelude.{◌≡◌, refl, false, none, some, [], ◌∷◌, codes, arith}
use delist_detection.Vocabulary.TradingCalendar.Examples.{over_the_holiday}
use delist_detection.Vocabulary.TradingCalendar.{days_before, days_after}
use delist_detection.Vocabulary.ExitKind.LastTrades.{LastTrade, effective_date}
use delist_detection.Endings.LastTrade.{no_reading, decide_last_trade, undated}
use delist_detection.Endings.LastTrade.Closing.{IsWorkedOut}
use delist_detection.Endings.LastTrade.Dating.{
  EdgarSubmission, Form25, Clients, least, greatest, eightk_window, confirmations, decide,
  is_involuntary,
}
use delist_detection.Endings.LastTrade.Entries.{
  group_reading, guessed, filing_days, of_group, stands,
}
use delist_detection.Endings.LastTrade.Entries.Results.{of_group-IsWorkedOut}
use delist_detection.Endings.TradingRecord.{TradingRecord, trades_until, rows, last_row_trade_day}

-- An exchange's Form 25 with no stated day, and the 8-K that states the merger's completion.
abbrev exchange_filing : EdgarSubmission
exchange_filing = record {
  accession = codes "b";
  form = codes "25-NSE";
  filing_date = some 739072;
  item_set = [];
}

abbrev completion_filing : EdgarSubmission
completion_filing = record {
  accession = codes "c";
  form = codes "8-K";
  filing_date = some 739071;
  item_set = codes "2.01" ∷ [];
}

abbrev clients : Clients
clients = record {
  eightk_of = λ f. no_reading;
  completions_of = λ f. (739071, none) ∷ [];
  volume = none;
  halts = none;
}

abbrev trading : TradingRecord
trading = record {
  security_tickers = codes "ABC" ∷ [];
  sightings = [];
  cusips = [];
  fails = none;
  ticker = codes "ABC";
  known_from = none;
  known_until = none;
  expected_name = none;
}

abbrev winner : EdgarSubmission × Form25
winner = (exchange_filing, record { rule = codes "12d2-2(a)(3)"; notice = no_reading })

group_undated :
    group_reading clients (completion_filing ∷ []) (winner ∷ []) (codes "ABC") trading
    ≡ some undated
unfolding group_reading guessed eightk_window confirmations decide decide_last_trade least greatest
    days_before days_after effective_date
group_undated =
    let guesses : guessed [] 739072 (739072 ∷ []) ≡ some (739070, 739072 ∷ []) =
      rw (guessed, over_the_holiday) refl in
    rw (guesses) refl

of_group-IsWorkedOut_example :
    (new : LastTrade) × (of_group clients
        (completion_filing ∷ [])
        (winner ∷ [])
        winner
        (codes "ABC")
        trading
        false
      ≡ some new)
    × IsWorkedOut 739072 new
    × (new.halt_feed_failed ≡ undated.halt_feed_failed)
unfolding filing_days stands trades_until rows last_row_trade_day least is_involuntary
of_group-IsWorkedOut_example =
    of_group-IsWorkedOut clients (completion_filing ∷ []) (winner ∷ []) winner (codes "ABC") trading
      false undated (739072 ∷ []) 739072 none group_undated refl refl refl (omega arith) refl
