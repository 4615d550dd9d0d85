-- ===== src/Vocabulary/ExitKind/Examples.antt =====
-- Rows at which the readers of vocabulary/exit_kind.py are tested.
use delist_detection.Prelude.{◌≡◌, refl, true, some, List, [], ◌∷◌, ◌++◌, Text, codes}
use delist_detection.Vocabulary.CrspCodes
use delist_detection.Vocabulary.CrspCodes.{compliance_failure}
use delist_detection.Vocabulary.CrspCodes.LeadingDigit.{bucket_for_code-by_leading_digit}
use delist_detection.Vocabulary.ExitKind.Row.{Row, midas, fails_rows}
use delist_detection.Vocabulary.ExitKind.Kinds.{
  is_real_ending, is_distress, is_distress-is_distress_code,
}
use delist_detection.Vocabulary.ExitKind.Endings.{
  last_endings, lookup, assign, put, IsLastEnding, lookup-last_endings_lem,
}
use delist_detection.Vocabulary.ExitKind.Reasons.{
  continuation_reason, successor_registration_reason, names_successor_registration,
  names_successor_registration-written, eight_k12b, form_text,
}

abbrev dropped_row : Row
dropped_row = record {
  sec_id = "S1";
  successor_sec_id = "";
  delist_date = 735000;
  bucket = compliance_failure;
  crsp_code = some 552;
  review_flags = codes "halt_feed_failed:2013-05-01;gate";
  last_trade_date = some 734990;
  last_trade_date_source = midas;
  delist_filing_date = some 734985;
  delist_filing_form = codes "25-NSE";
}

-- An earlier ending of the same security, and a later row that is none.
abbrev earlier_row : Row
earlier_row = record dropped_row { delist_date = 734000; last_trade_date_source = fails_rows }

abbrev continuing_row : Row
continuing_row = record dropped_row { delist_date = 736000; successor_sec_id = "S1" }

abbrev wound_down_row : Row
wound_down_row = record dropped_row { bucket = CrspCodes.liquidation; crsp_code = some 400 }

abbrev two_tokens : List Text
two_tokens = codes "halt_feed_failed:2013-05-01" ∷ codes "gate" ∷ []

lookup-last_endings_lem_example :
    IsLastEnding "S1" (continuing_row ∷ dropped_row ∷ earlier_row ∷ []) dropped_row
unfolding last_endings lookup is_real_ending assign put
lookup-last_endings_lem_example =
    (lookup-last_endings_lem "S1" (continuing_row ∷ dropped_row ∷ earlier_row ∷ [])).0 dropped_row
      refl

is_distress-is_distress_code_example : is_distress dropped_row ≡ true
is_distress-is_distress_code_example =
    is_distress-is_distress_code dropped_row 552 refl (rw bucket_for_code-by_leading_digit)

names_successor_registration-written_example :
    (names_successor_registration (
        successor_registration_reason
          (form_text eight_k12b true ++ (codes " " ++ codes "2015-10-02"))
          (codes "text"))
      ≡ true)
    × (names_successor_registration (
          continuation_reason
            (form_text eight_k12b true ++ (codes " " ++ codes "2015-10-02"))
            (codes "text"))
        ≡ true)
names_successor_registration-written_example =
    names_successor_registration-written eight_k12b true (codes "2015-10-02") (codes "text")
