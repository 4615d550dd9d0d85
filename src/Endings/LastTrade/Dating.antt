-- ===== src/Endings/LastTrade/Dating.antt =====
-- `Dating` of endings/last_trade.py: an ending dated from a group of Form 25s, without one, from MIDAS
-- alone, or from a notice. What the run's EDGAR client and the two confirmations answer is given; the outer `none` is
-- where the program raises.
use delist_detection.Prelude.{
  ℕ, ◌+◌, ◌-◌, ◌≤◌, ◌≡◌, arith, inl, inr, Option-cases, Bool, false, not, ◌&&◌, ◌||◌, Option, none,
  some, List, [], ◌∷◌, ◌++◌, Text, codes, starts_with, is_in, is_among, text_eq, text_le, ltb, leb,
  ◌==◌, filter, map, max, min, is_some, sorted_by, ◌>>=◌, if◌then◌else◌,
}
use delist_detection.Vocabulary.ExitKind.LastTrades.{LastTrade}
use delist_detection.Vocabulary.TradingCalendar.{previous_trading_day}
use delist_detection.Endings.LastTrade.{Reading, no_reading, reading_rank, decide_last_trade}
use delist_detection.Endings.LastTrade.Closing.{
  Completion, closing_trade, AreWorkedOut, closing_trade-AreWorkedOut, closing_trade-some,
}
use delist_detection.Endings.TradingRecord.{TradingRecord, tickers, taken}

abbrev pub midas_start : ℕ
midas_start = 734503

pub record EdgarSubmission : Type 0 where
  pub accession : Text
  pub form : Text
  pub filing_date : Option ℕ
  pub item_set : List Text

-- A Form 25 by its rule, with what `notice_last_trade` reads of its notice.
pub record Form25 : Type 0 where
  pub rule : Text
  pub notice : Reading

pub record Halt : Type 0 where
  pub halt_date : ℕ
  pub halt_time : Text

-- The 3.01 reading of an 8-K's text, the completions it states, and the two adapters, each of which may be
-- missing: the last day with volume, and the deletion halt with the days of the feed that failed in asking.
pub record Clients : Type 0 where
  pub eightk_of : EdgarSubmission → Reading
  pub completions_of : EdgarSubmission → List Completion
  pub volume : Option (Text → ℕ → ℕ → Option ℕ)
  pub halts : Option (Text → ℕ → ℕ → Option Halt × List ℕ)

unfoldable pub is_involuntary : Form25 → Bool
is_involuntary f25 = is_in (codes "(b)") f25.rule

-- `ISSUER_FORM25_FORMS`
abbrev pub issuer_form25_forms : List Text
issuer_form25_forms = codes "25" ∷ codes "25/A" ∷ []

-- A missing time reads as midnight.
time_of : Text → Text
time_of [] = codes "00:00:00"
time_of (c ∷ s) = c ∷ s

-- Before 09:30:00 the halt is of the trading day before.
last_trade_from_halt : Halt → Option ℕ
unfolding time_of
last_trade_from_halt h =
    if not (text_le (codes "09:30:00") (time_of h.halt_time))
    then previous_trading_day h.halt_date
    else some h.halt_date

pub is_8k : EdgarSubmission → Bool
is_8k f = starts_with f.form (codes "8-K")

pub filed_in : ℕ → ℕ → EdgarSubmission → Bool
filed_in lo hi f = elim f.filing_date [ none ↦ false | some day ↦ leb lo day && leb day hi ]

-- `abs((d - anchor).days)`; it is asked of a filing that has a date.
distance : ℕ → EdgarSubmission → ℕ
distance anchor f = elim f.filing_date [ none ↦ 0 | some day ↦ (day - anchor) + (anchor - day) ]

-- A reading that is better than the best one so far.
pub beats : Reading → Reading → Bool
beats got best =
    is_some got.day
    && (not (is_some best.day) || ltb (reading_rank got.kind) (reading_rank best.kind))

-- The search stops at the first stated timing.
pub best_reading : Reading → List Reading → Reading
unfolding beats
best_reading best [] = best
best_reading best (got ∷ later) =
    let kept = best_reading best later in
    let taken_on = best_reading got later in
    if beats got best then (if reading_rank got.kind == 0 then got else taken_on) else kept

unfoldable pub eightk_window : Clients → List EdgarSubmission → ℕ → ℕ → ℕ → Reading
unfolding is_8k filed_in distance best_reading
eightk_window c filings lo hi anchor = best_reading no_reading (
    map c.eightk_of (
      sorted_by (distance anchor)
        (filter (λ f. is_8k f && is_among (codes "3.01") f.item_set && filed_in lo hi f) filings)))

-- `_closing_day`
all_completions : Clients → List EdgarSubmission → List Completion
all_completions c [] = []
all_completions c (f ∷ fs) = c.completions_of f ++ all_completions c fs

pub closing_day_of : Clients → List EdgarSubmission → ℕ → ℕ → Option ℕ → Option (Option LastTrade)
unfolding all_completions is_8k filed_in
closing_day_of c filings lo hi shown =
    closing_trade (all_completions c (filter (λ f. is_8k f && filed_in lo (hi + 10) f) filings)) lo
      hi shown

-- `min(xs)` and `max(xs)`, where there is one.
unfoldable pub least : List ℕ → Option ℕ
least [] = none
least (d ∷ ds) = let rest = least ds in some (elim rest [ none ↦ d | some e ↦ min d e ])

least_of : ℕ → List ℕ → ℕ
least_of d [] = d
least_of d (e ∷ ds) = min d (least_of e ds)

greatest_of : ℕ → List ℕ → ℕ
greatest_of d [] = d
greatest_of d (e ∷ ds) = max d (greatest_of e ds)

unfoldable pub greatest : List ℕ → Option ℕ
greatest [] = none
greatest (d ∷ ds) = let rest = greatest ds in some (elim rest [ none ↦ d | some e ↦ max d e ])

-- `read(t, until)`
volume_day : (Text → ℕ → ℕ → Option ℕ) → Text → (lo until still_trading : ℕ) → Option ℕ
volume_day ask t lo until still_trading = if ltb until lo then none else elim (ask t lo until) [
  | none ↦ none
  | some m ↦ if ltb m still_trading then some m else none
]

-- Whether a text's day stands before the day that is asked about.
stated_before : Option ℕ → ℕ → Bool
stated_before none m = false
stated_before (some first) m = ltb first m

-- Rule 3: from the day another CUSIP took the ticker, the day is that security's.
reaches : Option ℕ → ℕ → Option ℕ
reaches none m = none
reaches (some b) m = if leb b m then some b else none

-- The day asked again, up to the trading day before the tenure's end.
asked_before : (ℕ → Option ℕ) → Option ℕ → Option ℕ → ℕ → Option (Option ℕ)
asked_before read found none hi = some found
asked_before read found (some b) hi = elim (previous_trading_day b) [
  | none ↦ none
  | some p ↦ some (read (min hi p))
]

bounded_volume :
    TradingRecord → (ℕ → Option ℕ) → Text → (lo hi : ℕ) → Option ℕ → Option ℕ → Option (Option ℕ)
unfolding stated_before reaches asked_before
bounded_volume trading read t lo hi first_text none = some none
bounded_volume trading read t lo hi first_text (some m) =
    if stated_before first_text m
    then (do b ← taken trading t lo (hi + 5); asked_before read (some m) (reaches b m) hi)
    else some (some m)

-- The days of all the tickers.
volumes :
    TradingRecord
    → (Text → ℕ → ℕ → Option ℕ)
    → (lo hi still_trading : ℕ) → Option ℕ
    → List Text
    → Option (List ℕ)
unfolding volume_day bounded_volume
volumes trading ask lo hi still_trading first_text [] = some []
volumes trading ask lo hi still_trading first_text (t ∷ ts) = do
  let read : ℕ → Option ℕ = λ until. volume_day ask t lo until still_trading
  found ← bounded_volume trading read t lo hi first_text (read hi)
  rest ← volumes trading ask lo hi still_trading first_text ts
  some (elim found [ none ↦ rest | some m ↦ m ∷ rest ])

-- The first halt that is the security's own, with the feed's failed days so far.
halt_among :
    TradingRecord
    → (Text → ℕ → ℕ → Option Halt × List ℕ)
    → (lo hi from_ to_ : ℕ) → Option ℕ
    → List Text
    → Option (Option ℕ × List ℕ)
unfolding last_trade_from_halt stated_before reaches
halt_among trading ask lo hi from_ to_ first_text [] = some (none, [])
halt_among trading ask lo hi from_ to_ first_text (t ∷ ts) =
    let rest = halt_among trading ask lo hi from_ to_ first_text ts in
    let (halt, failed) = ask t from_ to_ in
    let past : Option (Option ℕ × List ℕ) = (do later ← rest; some (later.0, failed ++ later.1)) in
    elim halt [
      | none ↦ past
      | some h ↦ do
        day ← last_trade_from_halt h
        b ← if stated_before first_text day then taken trading t lo (hi + 5) else some none
        elim (reaches b day) [ some _ ↦ past | none ↦ some (some day, failed) ]
    ]

-- What the confirmations give: the volume's day, the halt's, and the feed's failed days.
pub record Confirmations : Type 0 where
  pub last_volume : Option ℕ
  pub halt : Option ℕ
  pub failed : List ℕ

-- MIDAS is asked where the filing is in its coverage.
volume_among :
    Clients
    → TradingRecord
    → List Text
    → (filed lo hi still_trading : ℕ) → Option ℕ
    → Option (Option ℕ)
unfolding volumes greatest
volume_among c trading ts filed lo hi still_trading first_text = elim c.volume [
  | none ↦ some none
  | some ask ↦
      if leb midas_start filed
      then (do days ← volumes trading ask lo hi still_trading first_text ts; some (greatest days))
      else some none
]

-- `guesses` begins with `g`.
halt_around :
    Clients
    → TradingRecord
    → List Text
    → (lo hi g : ℕ) → List ℕ
    → Option ℕ
    → Option (Option ℕ × List ℕ)
unfolding halt_among least_of greatest_of
halt_around c trading ts lo hi g guesses first_text = elim c.halts [
  | none ↦ some (none, [])
  | some ask ↦
      halt_among trading ask lo hi (least_of g guesses - 2) (greatest_of g guesses + 2) first_text
        ts
]

unfoldable pub confirmations :
    Clients
    → TradingRecord
    → List Text
    → (filed lo hi still_trading g : ℕ) → (guesses texts : List ℕ) → Option Confirmations
unfolding volume_among halt_around least
confirmations c trading ts filed lo hi still_trading g guesses texts = do
  let first_text = least texts
  found ← volume_among c trading ts filed lo hi still_trading first_text
  asked ← elim found [
    | some _ ↦ some (none, [])
    | none ↦ halt_around c trading ts lo hi g guesses first_text
  ]
  some (record { last_volume = found; halt = asked.0; failed = asked.1 })

-- `_decide`
unfoldable pub decide : Reading → Reading → Confirmations → Option LastTrade
decide notice eightk c = do
  lt ← decide_last_trade notice eightk c.last_volume c.halt
  some (elim c.failed [ [] ↦ lt | d ∷ ds ↦ record lt { halt_feed_failed = d ∷ ds } ])

-- `_tickers`: `ticker` first.
pub tickers_of : TradingRecord → Text → ℕ → ℕ → List Text
tickers_of trading ticker lo hi =
    ticker ∷ filter (λ t. not (text_eq t ticker)) (tickers trading lo hi)

-- Rule 4's reading of a window is made, and its answer is worked out by the window's end.
pub closing_day_of-AreWorkedOut :
    (c : Clients) (filings : List EdgarSubmission) (lo hi : ℕ) (shown : Option ℕ)
    → 3 ≤ lo
    → (got : Option LastTrade) × (closing_day_of c filings lo hi shown ≡ some got)
      × AreWorkedOut hi (some got)
unfolding closing_day_of
closing_day_of-AreWorkedOut c filings lo hi shown past =
    let found = all_completions c (filter (λ f. is_8k f && filed_in lo (hi + 10) f) filings) in
    let worked = closing_trade-AreWorkedOut found lo hi shown in
    elim (Option-cases (closing_trade found lo hi shown)) [
      | inl off ↦
          let on = closing_trade-some found lo hi shown past in absurd (ground (arith, on, off))
      | inr (got, e) ↦ (got, e, rw e at worked)
    ]
