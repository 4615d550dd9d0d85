-- ===== src/Endings/TradingRecord.antt =====
-- endings/trading_record.py: what a security's sightings and its own CUSIPs' fails rows say of its trading.
-- A price is in millionths of a dollar, as in the fails index; a blank day is `none`. What asks for a trading
-- day before the calendar's first one raises: the outer `none`.
use delist_detection.Prelude.{
  ℕ, ◌-◌, Bool, true, false, not, ◌&&◌, Option, none, some, List, [], ◌∷◌, ◌++◌, Text, text_eq,
  is_among, ltb, leb, ◌==◌, any, filter, map, sorted_by, or_else, max, min, if◌then◌else◌,
}
use delist_detection.Vocabulary.TradingCalendar.{previous_trading_day}
use delist_detection.Sources.Ftd.{
  FtdRow, FtdIndex, by_symbol, trading_rows, is_trading_symbol, settled_last, last_day_of,
}
use delist_detection.Sources.Ftd as Ftd
use delist_detection.Identity.History.Ranges.{Sighting, is_ftd}

-- `PLACEHOLDER_PRICE`
abbrev pub placeholder_price : ℕ
placeholder_price = 10000

is_priced : FtdRow → Bool
is_priced r = elim r.price [ none ↦ false | some p ↦ ltb placeholder_price p ]

is_own : List Text → FtdRow → Bool
is_own own r = is_among r.cusip own

-- The last of the days, which begin with `d`.
pub last_of : ℕ → List ℕ → ℕ
last_of d [] = d
last_of d (e ∷ ds) = last_of e ds

-- The first row of another CUSIP after the own first row's day, on or after the own last row's.
first_other : List Text → (first last : ℕ) → List FtdRow → Option ℕ
unfolding is_own
first_other own first last [] = none
first_other own first last (r ∷ rs) =
    let rest = first_other own first last rs in
    if not (is_own own r) && ltb first r.date && leb last r.date then some r.date else rest

-- The trading day before it.
day_before : Option ℕ → Option (Option ℕ)
day_before none = some none
day_before (some other) = elim (previous_trading_day other) [ none ↦ none | some p ↦ some (some p) ]

-- Of the rows under the ticker.
pub taken_in : List FtdRow → List Text → Option (Option ℕ)
unfolding is_own first_other day_before is_priced
taken_in rows own =
    let priced = filter is_priced rows in
    elim (map (λ (r : FtdRow). r.date) (filter (is_own own) priced)) [
      | [] ↦ some none
      | first ∷ later ↦ day_before (first_other own first (last_of first later) priced)
    ]

pub ticker_taken : FtdIndex → Text → List Text → ℕ → ℕ → Option (Option ℕ)
unfolding taken_in
ticker_taken fails ticker own lo hi = taken_in (by_symbol fails ticker (some lo) (some hi)) own

-- The CUSIP of the first row of the day.
pub held_on : ℕ → List FtdRow → Text
held_on day [] = []
held_on day (r ∷ rs) = let rest = held_on day rs in if r.date == day then r.cusip else rest

-- The row that opens the last one-price run of the CUSIP held last.
pub last_run : FtdRow → List FtdRow → Option FtdRow
unfolding held_on
last_run r rs =
    let held = held_on (last_day_of r rs) (r ∷ rs) in
    settled_last (sorted_by (λ x. x.date) (filter (λ x. text_eq x.cusip held) (r ∷ rs)))

unfoldable pub last_row_trade_day : List FtdRow → Option (Option ℕ)
unfolding last_run
last_row_trade_day [] = some none
last_row_trade_day (r ∷ rs) = elim (last_run r rs) [
  | none ↦ none
  | some opens ↦ elim (previous_trading_day opens.date) [ none ↦ none | some p ↦ some (some p) ]
]

-- The tickers are those of the security's eras and its line; `ticker` is blank where none is known.
pub record TradingRecord : Type 0 where
  pub security_tickers : List Text
  pub sightings : List Sighting
  pub cusips : List Text
  pub fails : Option FtdIndex
  pub ticker : Text
  pub known_from : Option ℕ
  pub known_until : Option ℕ
  pub expected_name : Option Text

-- An era of a security, as the record reads it.
pub record Era : Type 0 where
  pub ticker : Text
  pub name : Option Text
  pub first : ℕ
  pub last : ℕ

-- `min(e.first for e in eras)`, `max(e.last for e in eras)` and `eras[-1]`
pub first_known : List Era → Option ℕ
first_known [] = none
first_known (e ∷ es) =
    let later = first_known es in some (elim later [ none ↦ e.first | some day ↦ min e.first day ])

pub last_known : List Era → Option ℕ
last_known [] = none
last_known (e ∷ es) =
    let later = last_known es in some (elim later [ none ↦ e.last | some day ↦ max e.last day ])

pub last_era : List Era → Option Era
last_era [] = none
last_era (e ∷ es) = or_else (last_era es) (some e)

-- Its sightings are given.
pub observed : List Era → List Text → FtdIndex → List Text → List Sighting → TradingRecord
unfolding first_known last_known last_era
observed eras line_tickers fails cusips sightings = record {
  security_tickers = map (λ (e : Era). e.ticker) eras ++ line_tickers;
  sightings = sightings;
  cusips = cusips;
  fails = some fails;
  ticker = elim (last_era eras) [ none ↦ [] | some e ↦ e.ticker ];
  known_from = first_known eras;
  known_until = last_known eras;
  expected_name = elim (last_era eras) [ none ↦ none | some e ↦ e.name ];
}

pub own_tickers : TradingRecord → List Text
own_tickers t = elim t.ticker [
  | [] ↦ t.security_tickers
  | c ∷ s ↦ t.security_tickers ++ (c ∷ s) ∷ []
]

pub has_cusips : TradingRecord → Bool
has_cusips t = elim t.cusips [ [] ↦ false | _ ∷ _ ↦ true ]

-- `xs[-1]`, where there is one.
last_in {ℓ} : {A : Type ℓ} → List A → Option A
last_in [] = none
last_in (x ∷ xs) = or_else (last_in xs) (some x)

first_in {ℓ} : {A : Type ℓ} → List A → Option A
first_in [] = none
first_in (x ∷ xs) = some x

value_of : Option Sighting → Option Text
value_of none = none
value_of (some s) = some s.value

day_of : Option Sighting → Option ℕ
day_of none = none
day_of (some s) = some s.day

pub ticker_on : TradingRecord → ℕ → Option Text
unfolding last_in first_in value_of
ticker_on t day =
    or_else (value_of (last_in (filter (λ s. leb s.day day) t.sightings)))
      (value_of (first_in t.sightings))

pub last_seen : TradingRecord → Option ℕ
unfolding last_in day_of own_tickers
last_seen t =
    or_else (day_of (last_in (filter (λ s. is_among s.value (own_tickers t)) t.sightings)))
      t.known_until

pub seen_after : TradingRecord → ℕ → Bool
seen_after t day = any (λ x. ltb day x.day) t.sightings

pub seen_in_fails_after : TradingRecord → ℕ → Bool
unfolding own_tickers
seen_in_fails_after t day =
    any (λ x. ltb day x.day && is_ftd x.source && is_among x.value (own_tickers t)) t.sightings

-- The first sighting's day with `last_seen`, which may be blank.
pub span : TradingRecord → Option (ℕ × Option ℕ)
unfolding last_seen
span t = elim t.sightings [ [] ↦ none | s ∷ _ ↦ some (s.day, last_seen t) ]

-- `list(dict.fromkeys(ts))`: each once, at its first place.
pub each_once : List Text → List Text
each_once [] = []
each_once (t ∷ ts) = let rest = each_once ts in t ∷ filter (λ u. not (text_eq u t)) rest

pub tickers : TradingRecord → ℕ → ℕ → List Text
unfolding each_once
tickers t lo hi =
    each_once
      (map (λ (x : Sighting). x.value) (filter (λ x. leb lo x.day && leb x.day hi) t.sightings))

unfoldable pub rows : TradingRecord → List FtdRow
rows t = elim t.fails [ none ↦ [] | some fails ↦ trading_rows fails t.cusips none none ]

pub trades_after : TradingRecord → ℕ → Bool
unfolding rows
trades_after t day = Ftd.trades_after (rows t) day

pub traded_within : TradingRecord → ℕ → ℕ → Bool
unfolding rows
traded_within t day days =
    any (λ r. leb (day - days) r.date && leb r.date day && is_trading_symbol r.symbol) (rows t)

pub taken : TradingRecord → Text → ℕ → ℕ → Option (Option ℕ)
unfolding ticker_taken
taken t ticker lo hi = elim t.fails [
  | none ↦ some none
  | some fails ↦ ticker_taken fails ticker t.cusips lo hi
]

unfoldable pub trades_until : TradingRecord → Option (Option ℕ)
unfolding rows last_row_trade_day
trades_until t = last_row_trade_day (rows t)
