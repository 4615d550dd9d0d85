-- ===== src/Identity/History/Endings.antt =====
-- `Histories` of identity/history.py: which endings end their security, from which day a successor has a
-- ticker, and where each history ends.
pub mod Final
pub mod Starts
pub mod Successors
pub mod Examples
use delist_detection.Prelude.{
  ℕ, ◌+◌, ◌-◌, Bool, true, false, not, ◌&&◌, ◌||◌, Option, none, some, List, [], ◌∷◌, ◌++◌, Text,
  String, str_eq, ltb, leb, ◌==◌, text_eq, is_among, any, filter, length, or_else, sort_with,
  sorted_by, map, if◌then◌else◌,
}
use delist_detection.Vocabulary.CrspCodes.{CrspBucket, merger, exchange_transfer}
use delist_detection.Vocabulary.ExitKind.LastTrades.{LastTrade, confirmed, end_day}
use delist_detection.Vocabulary.TradingCalendar.{sub_trading_days}
use delist_detection.Sources.Ftd.{
  FtdRow, FtdIndex, trading_rows, by_symbol, files_end, is_trading_symbol, prices_of, spans_days,
}
use delist_detection.Identity.History.Ranges.{ftd, Sighting, sighting_before, is_ftd}
use delist_detection.Identity.History.Backfill.{filtered_ticker_sightings}

abbrev pub continuation_min_rows : ℕ
continuation_min_rows = 20

abbrev pub continuation_min_days : ℕ
continuation_min_days = 60

abbrev pub continuation_min_prices : ℕ
continuation_min_prices = 2

abbrev pub data_edge_trading_days : ℕ
data_edge_trading_days = 2

abbrev pub takeover_days : ℕ
takeover_days = 120

abbrev pub successor_ticker_lookback_days : ℕ
successor_ticker_lookback_days = 30

-- `CONTINUATION_BUCKETS`
pub continuation_bucket : CrspBucket → Bool
continuation_bucket merger = true
continuation_bucket exchange_transfer = true
continuation_bucket _ = false

-- The key apart: `delist_date` is a day of the calendar.
pub record Ending : Type 0 where
  pub sec_id : String
  pub delist_date : ℕ
  pub last_trade : LastTrade
  pub bucket : CrspBucket
  pub successor : Option String
  pub exchange : Text

pub real : Ending → Bool
real e = elim e.successor [ none ↦ true | some x ↦ not (str_eq x e.sec_id) ]

pub same_key : Ending → Ending → Bool
same_key e f = str_eq e.sec_id f.sec_id && (e.delist_date == f.delist_date)

pub record SecurityEnd : Type 0 where
  pub day : Option ℕ
  pub confirmed : Bool
  pub listed : Bool

-- What a security's history reads of it: its name, its own tickers, its dated sightings, its CUSIPs, and
-- whether it is listed today (unknown is not listed).
pub record Security : Type 0 where
  pub own_tickers : List Text
  pub sightings : List Sighting
  pub cusips : List Text
  pub listed : Bool
  pub described_by : Text → Bool

-- The observed securities, by sec_id; the CUSIPs that the run holds; the fails index; the endings in the run's order; and of each security
-- the run adds, its first day and its ticker.
pub record Inputs : Type 0 where
  pub sec_ids : List String
  pub security : String → Security
  pub held : List Text
  pub ftd : FtdIndex
  pub all_endings : List Ending
  pub added : String → Option (ℕ × Text)

-- The day each ticker is a successor's from.
abbrev pub Starts : Type 0
Starts = List (Text × ℕ)

-- `starts.get(ticker)`
pub start_on : Starts → Text → Option ℕ
start_on [] ticker = none
start_on (s ∷ starts) ticker =
    let rest = start_on starts ticker in if text_eq s.0 ticker then some s.1 else rest

-- `day < starts.get(ticker, "~")`
unfoldable pub before_start : Starts → Text → ℕ → Bool
unfolding start_on
before_start starts ticker day = elim (start_on starts ticker) [
  | none ↦ true
  | some start ↦ ltb day start
]

-- `starts[ticker] = day`
pub set_start : Starts → Text → ℕ → Starts
set_start [] ticker day = (ticker, day) ∷ []
set_start (s ∷ starts) ticker day =
    let rest = set_start starts ticker day in
    if text_eq s.0 ticker then (ticker, day) ∷ starts else s ∷ rest

pub keeps_trading : List FtdRow → List Text → ℕ → Starts → Bool
unfolding before_start
keeps_trading rows own after starts =
    let kept =
      filter
        (λ r. is_among r.symbol own && (ltb after r.date && before_start starts r.symbol r.date))
        rows in
    if ltb (length kept) continuation_min_rows
    then false
    else if not (spans_days continuation_min_days kept)
    then false
    else leb continuation_min_prices (length (prices_of kept))

module _ (i : Inputs) where
  -- `sid in securities`
  pub is_observed : String → Bool
  is_observed sid = any (str_eq sid) i.sec_ids

  -- The endings of the observed securities.
  pub endings : List Ending
  unfolding is_observed
  endings = filter (λ e. is_observed e.sec_id) i.all_endings

  -- `_own`
  pub own : String → List Sighting
  own sid = let s = i.security sid in filtered_ticker_sightings s.sightings s.cusips i.ftd

  -- The sightings of a successor, none where the run does not know it.
  pub successor_sightings : String → List Sighting
  successor_sightings x = if is_observed x then own x else elim (i.added x) [
    | none ↦ []
    | some (first, ticker) ↦ record { day = first; value = ticker; source = ftd } ∷ []
  ]

  anchor : Ending → ℕ
  anchor e = elim e.last_trade.day [
    | none ↦ e.delist_date
    | some day ↦ if confirmed e.last_trade then day else e.delist_date
  ]

  -- The window in which a successor's first sighting under a ticker takes it.
  pub window_from : Ending → ℕ
  unfolding anchor
  window_from e =
      if confirmed e.last_trade then anchor e else anchor e - successor_ticker_lookback_days

  pub window_to : Ending → ℕ
  window_to e = anchor e + takeover_days

  pub take_day : Ending → Starts → Sighting → Starts
  take_day e mine g =
      if leb (window_from e) g.day && (leb g.day (window_to e) && before_start mine g.value g.day)
      then set_start mine g.value g.day
      else mine

  take_days : Ending → Starts → List Sighting → Starts
  unfolding take_day
  take_days e mine [] = mine
  take_days e mine (g ∷ gs) = take_days e (take_day e mine g) gs

  -- The starts after an ending of the security.
  pub take_ending : Starts → Ending → Starts
  unfolding take_days successor_sightings
  take_ending mine e = elim e.successor [
    | none ↦ mine
    | some x ↦
        if str_eq x "" || str_eq x e.sec_id
        then mine
        else take_days e mine (sort_with sighting_before (successor_sightings x))
  ]

  take_endings : String → Starts → List Ending → Starts
  unfolding take_ending
  take_endings sid mine [] = mine
  take_endings sid mine (e ∷ es) =
      take_endings sid (if str_eq e.sec_id sid then take_ending mine e else mine) es

  -- `self._starts.get(sid, {})`
  pub starts_of : String → Starts
  unfolding take_endings
  starts_of sid = take_endings sid [] endings

  continues_after : String → ℕ → List Text → Bool
  continues_after sid after cusips =
      keeps_trading (trading_rows i.ftd cusips none none) (i.security sid).own_tickers after
        (starts_of sid)

  cusips_at : String → ℕ → List Text
  cusips_at sid day =
      filter (λ c. any (λ r. leb r.date day) (trading_rows i.ftd (c ∷ []) none none))
        (i.security sid).cusips

  -- `_ends`: whether the ending ends its security.
  pub ends : Ending → Bool
  unfolding continues_after cusips_at
  ends e = elim e.last_trade.day [
    | none ↦ real e
    | some day ↦
        let s = i.security e.sec_id in
        if not (real e)
        then false
        else if not (confirmed e.last_trade)
        then true
        else if not (continuation_bucket e.bucket)
        then not (s.listed && continues_after e.sec_id day (cusips_at e.sec_id day))
        else not (continues_after e.sec_id day s.cusips)
  ]

  -- `ends.get(key)`: the answer of the last ending of the key.
  ends_key_in : List Ending → Ending → Option Bool
  unfolding ends
  ends_key_in [] e = none
  ends_key_in (f ∷ fs) e = or_else (ends_key_in fs e) (if same_key e f then some (ends f) else none)

  pub ends_key : Ending → Bool
  unfolding ends_key_in
  ends_key e = elim (ends_key_in endings e) [ none ↦ false | some answer ↦ answer ]

  -- `going_on`, as a test of an ending's key.
  pub goes_on : Ending → Bool
  goes_on e = elim (ends_key_in endings e) [ none ↦ false | some answer ↦ not answer ]

  pub final_in : String → Option Ending → List Ending → Option Ending
  unfolding ends_key
  final_in sid last [] = last
  final_in sid last (e ∷ es) =
      final_in sid (if str_eq e.sec_id sid && ends_key e then some e else last) es

  -- `self._final.get(sid)`
  pub final_ending : String → Option Ending
  unfolding final_in
  final_ending sid = final_in sid none (sorted_by (λ e. e.delist_date) endings)

  unheld_in : (Text → Bool) → List Text → List ℕ
  unheld_in described [] = []
  unheld_in described (t ∷ ts) =
      map (λ r. r.date)
        (filter
          (λ r.
            not (is_among r.cusip i.held)
            && (is_trading_symbol r.symbol && described r.description))
          (by_symbol i.ftd t none none))
      ++ unheld_in described ts

  -- The days behind the edge's reach of the trading that the run has attached to no security.
  pub unheld_trading_days : Security → List ℕ
  unfolding unheld_in
  unheld_trading_days s = unheld_in s.described_by s.own_tickers

  -- A day of the list is on the edge or after it.
  reaches : ℕ → List ℕ → Bool
  reaches edge days = any (λ d. leb edge d) days

  pub at_data_edge : String → Bool
  unfolding unheld_trading_days reaches
  at_data_edge sid = elim (files_end i.ftd) [
    | none ↦ false
    | some last ↦
        let seen = map (λ s. s.day) (filter (λ s. is_ftd s.source) (own sid)) in
        let unheld = if is_observed sid then unheld_trading_days (i.security sid) else [] in
        elim (sub_trading_days last data_edge_trading_days) [
          | none ↦ false
          | some edge ↦ reaches edge (seen ++ unheld)
        ]
  ]

  -- Whether the listing is the security's own, an ending that ends it and the starts known.
  pub own_listing : Option Ending → Starts → Bool → Bool
  own_listing none starts listed = listed
  own_listing (some e) [] listed = listed
  own_listing (some e) (s ∷ starts) listed = false

  pub end_by : String → Option Ending → Bool → SecurityEnd
  unfolding at_data_edge
  end_by sid none listed = record {
    day = none;
    confirmed = false;
    listed = listed || at_data_edge sid;
  }
  end_by sid (some e) true = record { day = none; confirmed = false; listed = true }
  end_by sid (some e) false = record {
    day = some (end_day e.last_trade e.delist_date);
    confirmed = confirmed e.last_trade;
    listed = false;
  }

  -- `end`
  pub end_of : String → SecurityEnd
  unfolding own_listing end_by
  end_of sid =
      if is_observed sid
      then end_by sid (final_ending sid)
          (own_listing (final_ending sid) (starts_of sid) (i.security sid).listed)
      else record { day = none; confirmed = false; listed = false }
