-- ===== src/Outputs/Dlret/Examples.antt =====
-- Value inputs at which `decide` of outputs/dlret.py is tested, on numbers in hundredths.
use delist_detection.Prelude.{◌≡◌, ◌≢◌, refl, true, false, none, some}
use delist_detection.Floats.{is_valid}
use delist_detection.Floats.Hundredths.{hundredths, hundredths-IsFloats}
use delist_detection.Vocabulary.CrspCodes
use delist_detection.Vocabulary.CrspCodes.{is_bucket}
use delist_detection.Outputs.Dlret.{
  ValueInputs, EndingValue, decide, table_dlret, nasdaq, medium, low, high, kind_of, blank_in_table,
  is_shumway, is_unread, is_unpriced, confidence_of, grade_of, assumed_par, cash_only,
  shumway_nasdaq, pending_terms,
}
use delist_detection.Outputs.Dlret.Methods.{decide-table}
use delist_detection.Outputs.Dlret.Fills.{IsUnmeasured, decide-mark}

-- Cash of 12.00 for a last close of 10.00.
abbrev cash_merger : ValueInputs hundredths
cash_merger = record {
  bucket = CrspCodes.merger;
  exchange = nasdaq;
  last_trade_close = some (some (1000, 0));
  payout_per_share = some (some (1200, 0));
  stock_ratio = none;
  acquirer_price = none;
  recovery = none;
  print = none;
  plan_value = none;
  payout_confidence = some high;
  deregistered = false;
  wind_down = false;
  terms_read = true;
}

abbrev cash_value : EndingValue hundredths
cash_value = record {
  method = cash_only;
  value = some (120, 100);
  terminal_value = some (some (1200, 0));
  confidence = high;
  firm_month = some (120, 100);
}

cash_merger_lem : decide hundredths cash_merger ≡ some cash_value
unfolding decide is_bucket is_valid is_unpriced is_unread confidence_of grade_of is_shumway
cash_merger_lem = refl

-- Half of a stock leg.
abbrev half_merger : ValueInputs hundredths
half_merger = record cash_merger { stock_ratio = some (some (50, 0)) }

-- No consideration is known, and whether anything states it.
abbrev unpriced_merger : ValueInputs hundredths
unpriced_merger = record cash_merger { payout_per_share = none }

abbrev unread_merger : ValueInputs hundredths
unread_merger = record unpriced_merger { terms_read = false }

abbrev par_value : EndingValue hundredths
par_value = record {
  method = assumed_par;
  value = some (0, 0);
  terminal_value = some (some (1000, 0));
  confidence = low;
  firm_month = some (0, 0);
}

abbrev unread_value : EndingValue hundredths
unread_value = record {
  method = pending_terms;
  value = none;
  terminal_value = none;
  confidence = low;
  firm_month = some (0, 0);
}

unpriced_merger_lem : decide hundredths unpriced_merger ≡ some par_value
unfolding decide is_bucket is_valid is_unpriced is_unread confidence_of grade_of is_shumway
unpriced_merger_lem = refl

unread_merger_lem : decide hundredths unread_merger ≡ some unread_value
unfolding decide is_bucket is_valid is_unpriced is_unread confidence_of grade_of is_shumway
unread_merger_lem = refl

-- A drop that nothing prices.
abbrev unpriced_drop : ValueInputs hundredths
unpriced_drop = record unpriced_merger { bucket = CrspCodes.compliance_failure }

abbrev marked_value : EndingValue hundredths
marked_value = record {
  method = shumway_nasdaq;
  value = some (0, 55);
  terminal_value = none;
  confidence = medium;
  firm_month = some (0, 55);
}

unpriced_drop_lem : decide hundredths unpriced_drop ≡ some marked_value
unfolding decide is_bucket is_valid is_unpriced is_unread confidence_of grade_of is_shumway
unpriced_drop_lem = refl

decide-table_example : kind_of cash_only ≢ none
unfolding table_dlret blank_in_table
decide-table_example =
    decide-table hundredths hundredths-IsFloats cash_merger cash_value (some (120, 100))
      cash_merger_lem refl refl

decide-mark_example : IsUnmeasured hundredths unpriced_drop × (unpriced_drop.wind_down ≡ false)
unfolding is_shumway
decide-mark_example = decide-mark hundredths unpriced_drop marked_value unpriced_drop_lem refl
