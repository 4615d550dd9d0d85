-- ===== src/Endings/LastTrade.antt =====
-- endings/last_trade.py: the choice of an ending's last trade among what its sources say, rule 4's closing
-- day, and a day at a handoff. A reading of a text (a notice, an 8-K) is its day with how it was said; the
-- reading itself, by regular expressions, is not modelled. Where the program asks for a trading day before
-- the calendar's first one it raises: `none`.

pub mod Priority
pub mod Handing
pub mod Closing
pub mod Dating
pub mod Entries
pub mod Volume
mod Examples
use delist_detection.Prelude.{
  ℕ, ◌+◌, Bool, false, not, ◌&&◌, Option, none, some, List, [], ◌∷◌, ◌++◌, reverse, Text, codes,
  starts_with, is_among, text_eq, ltb, ◌==◌, any, filter, min, ◌>>=◌, if◌then◌else◌,
}
use delist_detection.Vocabulary.ExitKind.Row.{
  Source, midas, nasdaq_halt, ex99_notice, eightk_301, last_sighting, unsourced,
}
use delist_detection.Vocabulary.ExitKind.LastTrades.{
  LastTrade, unconfirmed, conflict, no_day, is_exchange_print,
}
use delist_detection.Vocabulary.TradingCalendar.{previous_trading_day, next_trading_day}

-- What a text says of the last trade: the day, and the kind of wording.
pub record Reading : Type 0 where
  pub day : Option ℕ
  pub kind : Text

abbrev pub no_reading : Reading
no_reading = record { day = none; kind = [] }

-- `OPEN_KINDS`
abbrev open_kinds : List Text
open_kinds =
    codes "8k_open"
    ∷ codes "8k_open_closing"
    ∷ codes "8k_open_effective"
    ∷ codes "8k_open_clock"
    ∷ []

-- `EXPLICIT_KINDS`
abbrev pub explicit_kinds : List Text
explicit_kinds =
    codes "8k_open"
    ∷ codes "8k_open_closing"
    ∷ codes "8k_close"
    ∷ codes "8k_close_closing"
    ∷ codes "8k_close_effective"
    ∷ codes "8k_open_effective"
    ∷ codes "8k_close_clock"
    ∷ codes "8k_open_clock"
    ∷ codes "8k_last_day"
    ∷ []

-- `HALT_AT_OPEN_KINDS`
abbrev pub halt_at_open_kinds : List Text
halt_at_open_kinds = codes "8k_last_day" ∷ open_kinds

-- `BARE_NOTICE_KINDS`
abbrev pub bare_notice_kinds : List Text
bare_notice_kinds = codes "notice_a" ∷ codes "notice_nasdaq" ∷ []

-- `_RANK.get(kind, 9)`
unfoldable pub reading_rank : Text → ℕ
reading_rank kind =
    if is_among kind explicit_kinds
    then 0
    else if text_eq kind (codes "8k_suspended")
    then 1
    else if text_eq kind (codes "8k_suspended_unconfirmed")
    then 2
    else 9

-- `_confirmed`
pub is_sure : Text → Bool
is_sure [] = false
is_sure (c ∷ kind) = not (starts_with (reverse (c ∷ kind)) (reverse (codes "unconfirmed")))

-- The days that the texts state.
days_of : Option ℕ → List ℕ
days_of none = []
days_of (some d) = d ∷ []

pub text_days : Reading → Reading → List ℕ
unfolding days_of
text_days notice eightk = days_of notice.day ++ days_of eightk.day

-- A text states another day than the one taken.
pub disagrees : List ℕ → ℕ → Bool
disagrees texts day = any (λ d. not (d == day)) texts

pub pick : List ℕ → ℕ → Source → List Text → LastTrade
unfolding disagrees
pick texts day source extra = record {
  day = some day;
  source = source;
  flags = extra ++ (if disagrees texts day then conflict ∷ [] else []);
  halt_feed_failed = [];
}

-- A halt: the 8-K's day where it puts the halt at the open of the halt's day.
pub halted : List ℕ → Reading → ℕ → Option LastTrade
unfolding pick
halted texts eightk halt = elim eightk.day [
  | none ↦ some (pick texts halt nasdaq_halt [])
  | some e ↦
      if is_among eightk.kind halt_at_open_kinds
      then elim (previous_trading_day halt) [
        | none ↦ none
        | some p ↦
            some (if e == p then pick texts e eightk_301 [] else pick texts halt nasdaq_halt [])
      ]
      else some (pick texts halt nasdaq_halt [])
]

-- The notice's own day, but for a bare date that an 8-K's stated timing disagrees with.
pub by_notice : List ℕ → Reading → Reading → ℕ → LastTrade
unfolding pick
by_notice texts notice eightk n = elim eightk.day [
  | none ↦ pick texts n ex99_notice []
  | some e ↦
      if is_among notice.kind bare_notice_kinds
        && is_among eightk.kind explicit_kinds
        && not (e == n)
      then pick texts e eightk_301 []
      else pick texts n ex99_notice []
]

abbrev pub undated : LastTrade
undated = record { day = none; source = unsourced; flags = no_day ∷ []; halt_feed_failed = [] }

-- Of the texts alone: a sure notice, a sure 8-K, then the unsure ones.
pub by_texts : List ℕ → Reading → Reading → LastTrade
unfolding by_notice pick is_sure
by_texts texts notice eightk = elim notice.day [
  | some n ↦ if is_sure notice.kind then by_notice texts notice eightk n else elim eightk.day [
    | some e ↦
        if is_sure eightk.kind
        then pick texts e eightk_301 []
        else pick texts n ex99_notice (unconfirmed ∷ [])
    | none ↦ pick texts n ex99_notice (unconfirmed ∷ [])
  ]
  | none ↦ elim eightk.day [
    | some e ↦ pick texts e eightk_301 (if is_sure eightk.kind then [] else unconfirmed ∷ [])
    | none ↦ undated
  ]
]

-- The volume and the halt are those of MIDAS and of Nasdaq's feed.
pub decide_last_trade : Reading → Reading → Option ℕ → Option ℕ → Option LastTrade
unfolding text_days pick halted by_texts
decide_last_trade notice eightk volume halt =
    let texts = text_days notice eightk in
    elim volume [
      | some m ↦ some (pick texts m midas [])
      | none ↦ elim halt [
        | some h ↦ halted texts eightk h
        | none ↦ some (by_texts texts notice eightk)
      ]
    ]

pub handoff_day : ℕ → ℕ → Option ℕ
handoff_day a_last b_first = elim (previous_trading_day b_first) [
  | none ↦ none
  | some p ↦ some (min a_last p)
]

-- The day is after `p`, and there is one.
pub is_past : Option ℕ → ℕ → Bool
is_past none p = false
is_past (some day) p = ltb p day

pub before_successor : LastTrade → ℕ → Option LastTrade
unfolding is_past
before_successor lt b_first = elim (previous_trading_day b_first) [
  | none ↦ none
  | some p ↦ some (
      if not (is_exchange_print lt.source) && is_past lt.day p
      then record lt { day = some p; source = last_sighting }
      else lt)
]

-- A row that the handoff stage writes, and one that it keeps.
pub at_handoff : Option LastTrade → ℕ → ℕ → Option LastTrade
unfolding handoff_day before_successor
at_handoff none a_last b_first = elim (handoff_day a_last b_first) [
  | none ↦ none
  | some day ↦
      some (record { day = some day; source = last_sighting; flags = []; halt_feed_failed = [] })
]
at_handoff (some lt) a_last b_first = elim lt.day [
  | none ↦ elim (handoff_day a_last b_first) [
    | none ↦ none
    | some day ↦ some (record lt {
      day = some day;
      source = last_sighting;
      flags = filter (λ f. not (text_eq f no_day)) lt.flags;
    })
  ]
  | some day ↦ before_successor lt b_first
]

pub anchor_day : LastTrade → ℕ → Option ℕ → Option ℕ → ℕ
anchor_day lt delist_date filed anchor_8k = elim lt.day [
  | some day ↦ day
  | none ↦ elim filed [
    | some day ↦ day
    | none ↦ elim anchor_8k [ some day ↦ day | none ↦ delist_date ]
  ]
]

pub first_day_after : ℕ → Option ℕ
first_day_after day = next_trading_day day
