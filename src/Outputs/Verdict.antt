-- ===== src/Outputs/Verdict.antt =====
-- outputs/verdict.py: the reasons for which an ending or a seed is uncertain. A reason is its code with its
-- detail; the published text joins the two.
pub mod Confirmed
pub mod Securities
mod Examples
use delist_detection.Prelude.{
  ℕ, Bool, true, false, not, ◌&&◌, ◌||◌, Option, none, some, List, [], ◌∷◌, ◌++◌, Text, codes,
  starts_with, is_among, text_eq, any, filter, map, ltb, leb, ◌==◌, text_le, sort_with, is_some,
  if◌then◌else◌,
}
use delist_detection.Vocabulary.ExitKind.Row.{Row, Source, midas, nasdaq_halt}
use delist_detection.Vocabulary.ExitKind.Kinds.{ExitKind, exchange, is_continuation, ending_fields}
use delist_detection.Vocabulary.ExitKind.Flags.{flag_tokens, flag_name, flag_names}
use delist_detection.Vocabulary.ExitKind.Reasons.{
  merger_relabel, resolved_from_continued_filings, rests_on_continued_filings,
  names_successor_registration, linked_by_timing,
}
use delist_detection.Vocabulary.ExitKind.LastTrades.{
  conflict, confirmed, is_exchange_print, cites_form25, effective_of, end_day_of, of_row,
}
use delist_detection.Endings.Rewrites.{gate_flags}
use delist_detection.Outputs.Dlret.{DlretMethod, assumed_par, pending_recovery, pending_terms}

-- A delistings.csv row: its cells of vocabulary/exit_kind.py, and those that only the verdict reads. What
-- `_unpriced_gate` answers of the row's prices, which are floats, is a field.
pub record EndingRow : Type 0 where
  pub row : Row
  pub reason : Text
  pub resolution_source : Text
  pub cik : Text
  pub dlret_method : DlretMethod
  pub unpriced_gate : Bool

-- Blank is no filing, and no doubt.
pub record ContinuationReading : Type 0 where
  pub filing : Text
  pub doubt : Text

pub data Reason : Type 0 where
  security_uncertain : Reason
  continuation_not_one_for_one : Text → Reason
  issuer_from_todays_ticker_map continued_filings_rule resolved_from_continued no_evidence_default :
      Reason
  unknown_exit_kind kind_by_filing_history_only exchange_without_successor : Reason
  assumed_par_after_failed_gate value_pending_distributions value_pending_terms : Reason
  value_incomplete_contingent_right value_incomplete_closing_dividend : Reason
  handoff_unchecked : Text → Reason
  continuation_by_timing_only no_last_trade_date : Reason
  last_trade_not_exchange_print : Source → Reason
  last_trade_date_unconfirmed last_trade_date_text_conflict : Reason
  last_trade_after_form25_effective : ℕ → Reason
  no_history : Reason
  history_after_last_trade : ℕ → Reason
  earlier_ending : ℕ → Reason
  not_placed seen_under_two_names outside_security_history : Reason

-- `Verdict.confirmed`
pub is_confirmed : List Reason → Bool
is_confirmed [] = true
is_confirmed (r ∷ rs) = false

-- The reasons whose test holds, `if b: reasons.append(r)` after each other.
pub raised : List (Bool × Reason) → List Reason
raised [] = []
raised ((b, r) ∷ cs) = let rest = raised cs in if b then r ∷ rest else rest

pub is_blank : Text → Bool
is_blank [] = true
is_blank (c ∷ s) = false

-- `name in flag_names(row)`
pub has_flag : Text → Row → Bool
has_flag name row = is_among name (flag_names row)

pub own_form25 : EndingRow → Bool
unfolding is_blank
own_form25 r =
    cites_form25 r.row
    && not (has_flag (codes "handoff_continuation") r.row && is_blank r.resolution_source)

pub settles_relabel : EndingRow → Bool
settles_relabel r =
    merger_relabel r.reason
    && (own_form25 r && starts_with r.row.delist_filing_form (codes "25-NSE"))

pub successor_registration : EndingRow → ContinuationReading → Bool
successor_registration r reading =
    is_continuation r.row && (names_successor_registration r.reason && is_blank reading.doubt)

pub issuer_by_form25 : EndingRow → (issuer_cik : Text) → (named : Bool) → Bool
issuer_by_form25 r issuer_cik named =
    named
    && (own_form25 r
        && (not (is_blank issuer_cik)
            && (text_eq r.cik issuer_cik && not (has_flag (codes "member_name_mismatch") r.row))))

-- `DELINQUENT_ONLY`
abbrev pub delinquent_only : Text
delinquent_only = codes "Delinquent filer (NT 10-K/Q in the prior year), no merger evidence"

pub rests_on_delinquency : Text → Bool
rests_on_delinquency reason = starts_with reason delinquent_only

is_exchange : Option ExitKind → Bool
is_exchange (some exchange) = true
is_exchange _ = false

is_assumed_par : DlretMethod → Bool
is_assumed_par assumed_par = true
is_assumed_par _ = false

is_pending_recovery : DlretMethod → Bool
is_pending_recovery pending_recovery = true
is_pending_recovery _ = false

is_pending_terms : DlretMethod → Bool
is_pending_terms pending_terms = true
is_pending_terms _ = false

-- `flags & GATE_FLAGS`
has_gate_flag : Row → Bool
has_gate_flag row = any (λ f. has_flag f row) gate_flags

-- `EXCHANGE_PRINTS` that are measured, not worded: `MEASURED`
pub is_measured : Source → Bool
is_measured midas = true
is_measured nasdaq_halt = true
is_measured _ = false

-- The tests of what the row rests on, each with its reason.
pub evidence_tests :
    EndingRow → (issuer_cik : Text) → ContinuationReading → (named : Bool) → List (Bool × Reason)
unfolding is_blank is_exchange is_assumed_par is_pending_recovery is_pending_terms has_gate_flag
evidence_tests r issuer_cik reading named =
    let continues = is_continuation r.row in
    let sure = not (is_blank reading.filing) && continues in
    let kind = (ending_fields r.row).exit_kind in
    (continues && not (is_blank reading.doubt), (continuation_not_one_for_one reading.doubt))
    ∷ (
      has_flag (codes "resolved_by_current_ticker_map") r.row
          && not (issuer_by_form25 r issuer_cik named),
      issuer_from_todays_ticker_map,
    )
    ∷ (rests_on_continued_filings r.reason && not sure, continued_filings_rule)
    ∷ (
      resolved_from_continued_filings r.reason
          && (not (settles_relabel r) && not (successor_registration r reading)),
      resolved_from_continued,
    )
    ∷ (has_flag (codes "no_evidence_default") r.row, no_evidence_default)
    ∷ (not (is_some kind), unknown_exit_kind)
    ∷ (rests_on_delinquency r.reason, kind_by_filing_history_only)
    ∷ (is_exchange kind && not continues, exchange_without_successor)
    ∷ (
      is_assumed_par r.dlret_method && (has_gate_flag r.row && not r.unpriced_gate),
      assumed_par_after_failed_gate,
    )
    ∷ (is_pending_recovery r.dlret_method, value_pending_distributions)
    ∷ (is_pending_terms r.dlret_method, value_pending_terms)
    ∷ (
      has_flag (codes "contingent_right_unvalued") r.row && not continues,
      value_incomplete_contingent_right,
    )
    ∷ (
      has_flag (codes "closing_dividend_unstated") r.row && not continues,
      value_incomplete_closing_dividend,
    )
    ∷ []

pub evidence_reasons :
    EndingRow → (issuer_cik : Text) → ContinuationReading → (named : Bool) → List Reason
unfolding evidence_tests
evidence_reasons r issuer_cik reading named = raised (evidence_tests r issuer_cik reading named)

-- The tokens that say a handoff could not be checked.
pub unchecked : Row → List Reason
unchecked row = map handoff_unchecked (
    sort_with text_le
      (filter (λ t. text_eq (flag_name t) (codes "handoff_unchecked")) (flag_tokens row)))

pub after_effective : ℕ → Option ℕ → List (Bool × Reason)
after_effective day none = []
after_effective day (some effective) =
    (ltb effective day, last_trade_after_form25_effective effective) ∷ []

-- The tests of a last trade on a day, each with its reason.
pub last_trade_tests : Row → ℕ → List (Bool × Reason)
unfolding after_effective is_measured
last_trade_tests row day =
    let lt = of_row row in
    (not (is_exchange_print lt.source), last_trade_not_exchange_print lt.source)
    ∷ (not (confirmed lt), last_trade_date_unconfirmed)
    ∷ (has_flag conflict row && not (is_measured lt.source), last_trade_date_text_conflict)
    ∷ after_effective day (effective_of row)

pub last_trade_by : Row → Option ℕ → List Reason
unfolding last_trade_tests
last_trade_by row none = no_last_trade_date ∷ []
last_trade_by row (some day) = raised (last_trade_tests row day)

-- Each part of `LastTrade.print_confirmed` that fails is a reason of its own.
pub last_trade_reasons : Row → List Reason
unfolding last_trade_by
last_trade_reasons row = last_trade_by row (of_row row).day

-- `_own_reasons`
pub own_reasons :
    EndingRow → (issuer_cik : Text) → ContinuationReading → (named : Bool) → List Reason
unfolding unchecked is_blank
own_reasons r issuer_cik reading named =
    let sure = not (is_blank reading.filing) && is_continuation r.row in
    evidence_reasons r issuer_cik reading named
    ++ (if is_continuation r.row
        then raised ((linked_by_timing r.reason && not sure, continuation_by_timing_only) ∷ [])
        else unchecked r.row ++ last_trade_reasons r.row)

-- A ticker interval; a blank end is none.
pub record Interval : Type 0 where
  pub valid_from : ℕ
  pub valid_to : Option ℕ

-- `not r["valid_to"] or r["valid_to"] > end`
pub runs_past : ℕ → Interval → Bool
runs_past end i = elim i.valid_to [ none ↦ true | some to ↦ ltb end to ]

-- `_covered`
pub covered : List Interval → ℕ → Bool
covered intervals day =
    any (λ i. leb i.valid_from day && elim i.valid_to [ none ↦ true | some to ↦ leb day to ])
      intervals

-- `_history_reasons`
pub history_reasons : Row → List Interval → (last : Bool) → List Reason
unfolding runs_past
history_reasons row [] last = no_history ∷ []
history_reasons row (i ∷ is) last =
    if not last || is_continuation row
    then []
    else raised (
        (any (runs_past (end_day_of row)) (i ∷ is), history_after_last_trade (end_day_of row)) ∷ [])

-- A security that has a verdict, and it is confirmed.
pub is_sure : Option (List Reason) → Bool
is_sure none = false
is_sure (some reasons) = is_confirmed reasons

-- An ending's verdict in `decide`: `own` are its own reasons, `last_day` its security's last ending's date.
pub ending_reasons :
    EndingRow
    → (security : Option (List Reason)) → (own : List Reason) → List Interval
    → (last_day : ℕ) → List Reason
ending_reasons r security own intervals last_day =
    let is_last = r.row.delist_date == last_day in
    raised ((not (is_sure security), security_uncertain) ∷ [])
    ++ (own
        ++ (history_reasons r.row intervals is_last
            ++ raised ((not is_last, earlier_ending last_day) ∷ [])))

-- `_seed_reasons`, of a seed with a sec_id or none.
pub seed_reasons :
    (placed : Bool)
    → (in_history : Bool) → (names_on_day : ℕ) → (security : Option (List Reason)) → List Reason
seed_reasons false in_history names_on_day security = not_placed ∷ []
seed_reasons true in_history names_on_day security = raised (
    (ltb 1 names_on_day, seen_under_two_names)
    ∷ (not in_history, outside_security_history)
    ∷ (not (is_sure security), security_uncertain)
    ∷ [])
