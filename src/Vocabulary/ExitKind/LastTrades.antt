-- ===== src/Vocabulary/ExitKind/LastTrades.antt =====
-- An ending's last trade: its facts, and what a row publishes of it.
use delist_detection.Prelude.{
  ℕ, ◌+◌, ◌≤◌, ◌≡◌, refl, Bool, true, false, not, ◌&&◌, Option, none, some, List, [], ◌∷◌, arith,
  is_among, Text, codes, leb, starts_with, filter, is_some, if◌then◌else◌,
}
use delist_detection.Vocabulary.ExitKind.Row.{
  Row, Source, midas, nasdaq_halt, ex99_notice, eightk_301, closing_day,
}
use delist_detection.Vocabulary.ExitKind.Flags.{flag_tokens, flag_name}

abbrev pub unconfirmed : Text
unconfirmed = codes "last_trade_date_unconfirmed"

abbrev pub conflict : Text
conflict = codes "last_trade_date_conflict"

abbrev pub no_day : Text
no_day = codes "no_last_trade_date"

abbrev dating_flags : List Text
dating_flags = unconfirmed ∷ conflict ∷ no_day ∷ []

-- `EXCHANGE_PRINTS`
unfoldable pub is_exchange_print : Source → Bool
is_exchange_print midas = true
is_exchange_print nasdaq_halt = true
is_exchange_print ex99_notice = true
is_exchange_print eightk_301 = true
is_exchange_print _ = false

abbrev form25_effective_days : ℕ
form25_effective_days = 10

pub record LastTrade : Type 0 where
  pub day : Option ℕ
  pub source : Source
  pub flags : List Text
  pub halt_feed_failed : List ℕ

unfoldable pub confirmed : LastTrade → Bool
confirmed lt = is_some lt.day && not (is_among unconfirmed lt.flags)

unfoldable pub worked_out : LastTrade → Bool
worked_out lt = elim lt.source [ closing_day ↦ true | _ ↦ false ]

-- `effective is None or self.day <= effective`; the day is there where this is asked.
not_later : Option ℕ → Option ℕ → Bool
not_later day none = true
not_later none (some effective) = false
not_later (some day) (some effective) = leb day effective

unfoldable pub print_confirmed : LastTrade → Option ℕ → Bool
unfolding confirmed is_exchange_print not_later
print_confirmed lt effective =
    confirmed lt && is_exchange_print lt.source && not_later lt.day effective

unfoldable pub end_day : LastTrade → ℕ → ℕ
end_day lt delist_date = elim lt.day [ some day ↦ day | none ↦ delist_date ]

unfoldable pub effective_date : ℕ → ℕ
effective_date filing_date = filing_date + form25_effective_days

unfoldable pub cites_form25 : Row → Bool
cites_form25 row = is_some row.delist_filing_date && starts_with row.delist_filing_form (codes "25")

unfoldable pub effective_of : Row → Option ℕ
unfolding effective_date cites_form25
effective_of row = elim row.delist_filing_date [
  | some filed ↦ if cites_form25 row then some (effective_date filed) else none
  | none ↦ none
]

unfoldable pub of_row : Row → LastTrade
of_row row = record {
  day = row.last_trade_date;
  source = row.last_trade_date_source;
  flags = filter (λ t. is_among (flag_name t) dating_flags) (flag_tokens row);
  halt_feed_failed = [];
}

pub published : Row → Option ℕ
unfolding of_row
published row = (of_row row).day

unfoldable pub end_day_of : Row → ℕ
unfolding end_day of_row
end_day_of row = end_day (of_row row) row.delist_date

-- A day that an exchange print confirms is published, is the day the security's history ends on, is
-- flagged by no token `last_trade_date_unconfirmed`, and is not after the day the row's Form 25 took
-- effect.
pub print_confirmed-published :
    (row : Row)
    → print_confirmed (of_row row) (effective_of row) ≡ true
    → (published row ≡ some (end_day_of row))
      × (is_among unconfirmed (of_row row).flags ≡ false)
      × ((e : ℕ) → effective_of row ≡ some e → end_day_of row ≤ e)
unfolding print_confirmed published end_day_of
print_confirmed-published row h = (ground arith, ground arith, λ e k. ground arith)

not_later-day :
    (o : Option ℕ) (day : ℕ) (effective : Option ℕ)
    → o ≡ some day
    → not_later (some day) effective ≡ true
    → not_later o effective ≡ true
not_later-day o day effective e h = rw e h

pub print_confirmed-parts :
    (lt : LastTrade) (day : ℕ) (effective : Option ℕ)
    → lt.day ≡ some day
    → confirmed lt ≡ true
    → is_exchange_print lt.source ≡ true
    → ((e : ℕ) → effective ≡ some e → day ≤ e)
    → print_confirmed lt effective ≡ true
unfolding print_confirmed not_later
print_confirmed-parts lt day none e sure print by =
    rw (sure, print) (not_later-day lt.day day none e refl)
print_confirmed-parts lt day (some last) e sure print by =
    let le = by last refl in
    rw (sure, print) (not_later-day lt.day day (some last) e (ground (arith, le)))
