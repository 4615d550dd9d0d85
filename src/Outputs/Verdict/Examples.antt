-- ===== src/Outputs/Verdict/Examples.antt =====
-- A merger that the exchange's own Form 25 and a measured last trade back.
use delist_detection.Prelude.{◌≡◌, refl, ap, ◌∙◌, true, false, some, List, [], ◌∷◌, codes}
use delist_detection.Vocabulary.CrspCodes.{merger}
use delist_detection.Vocabulary.ExitKind.Row.{midas}
use delist_detection.Vocabulary.ExitKind.Kinds.{is_continuation, ending_fields}
use delist_detection.Vocabulary.ExitKind.Flags.{flag_names, flag_tokens}
use delist_detection.Vocabulary.ExitKind.Reasons.{
  rests_on_continued_filings, resolved_from_continued_filings,
}
use delist_detection.Vocabulary.ExitKind.LastTrades.{
  of_row, is_exchange_print, confirmed, effective_of, end_day_of,
}
use delist_detection.Outputs.Dlret.{cash_only}
use delist_detection.Outputs.Verdict.{
  EndingRow, ContinuationReading, Reason, Interval, is_confirmed, is_sure, raised, has_flag,
  evidence_reasons, rests_on_delinquency, last_trade_reasons, history_reasons, runs_past,
  own_reasons, ending_reasons,
}
use delist_detection.Outputs.Verdict.Confirmed.{IsBacked, ending_reasons-IsBacked}

abbrev merged : EndingRow
merged = record {
  row = record {
    sec_id = "S1";
    successor_sec_id = "";
    delist_date = 735102;
    bucket = merger;
    crsp_code = some 233;
    review_flags = [];
    last_trade_date = some 735100;
    last_trade_date_source = midas;
    delist_filing_date = some 735102;
    delist_filing_form = codes "25-NSE";
  };
  reason = codes "Merger";
  resolution_source = codes "edgar";
  cik = codes "7";
  dlret_method = cash_only;
  unpriced_gate = false;
}

abbrev nothing_read : ContinuationReading
nothing_read = record { filing = []; doubt = [] }

abbrev intervals : List Interval
intervals = record { valid_from = 734000; valid_to = some 735100 } ∷ []

no_continuation : is_continuation merged.row ≡ false
unfolding is_continuation
no_continuation = refl

own_is : own_reasons merged (codes "7") nothing_read true ≡ []
unfolding own_reasons evidence_reasons raised is_continuation has_flag flag_names flag_tokens
    rests_on_continued_filings resolved_from_continued_filings ending_fields rests_on_delinquency
    last_trade_reasons of_row is_exchange_print confirmed effective_of
own_is = refl

beside_own : ending_reasons merged (some []) [] intervals 735102 ≡ []
unfolding ending_reasons raised is_sure is_confirmed history_reasons is_continuation runs_past
    end_day_of of_row
beside_own = refl

no_reasons :
    ending_reasons merged
      (some [])
      (own_reasons merged (codes "7") nothing_read true)
      intervals
      735102
    ≡ []
no_reasons =
    ap (λ (own : List Reason). ending_reasons merged (some []) own intervals 735102) own_is
    ∙ beside_own

ending_reasons-IsBacked_example : (is_sure (some []) ≡ true) × IsBacked merged intervals 735102
ending_reasons-IsBacked_example =
    ending_reasons-IsBacked merged (some []) (codes "7") nothing_read true intervals 735102
      no_continuation no_reasons
