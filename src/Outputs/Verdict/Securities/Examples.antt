-- ===== src/Outputs/Verdict/Securities/Examples.antt =====
-- A security whose one introduction is within its history.
use delist_detection.Prelude.{◌≡◌, refl, true, false, none, some, [], ◌∷◌, codes}
use delist_detection.Outputs.Verdict.{covered, is_blank}
use delist_detection.Days.{isoformat, of_ordinal}
use delist_detection.Outputs.Verdict.Securities.{
  SecurityRow, Tables, raised_if, outside_reasons, is_outside, is_introduction, overlapping,
  clashes, linked, closed_without_ending, bankruptcy_reasons, security_reasons,
}
use delist_detection.Outputs.Verdict.Securities.Placed.{IsPlaced, security_reasons-IsPlaced}

abbrev acme : SecurityRow
acme = record { sec_id = "S1"; is_placeholder = false; issuer_cik = codes "7"; observed = true }

abbrev tables : Tables
tables = record {
  ticker_history =
      record {
        sec_id = "S1";
        ticker = codes "ACME";
        interval = record { valid_from = 730120; valid_to = none };
      }
      ∷ record {
        sec_id = "S2";
        ticker = codes "ACME";
        interval = record { valid_from = 720000; valid_to = some 730119 };
      }
      ∷ [];
  observation_map =
      record {
        sec_id = some "S1";
        as_of = 730120;
        era = codes "ACME@2000-01-01";
        after_delisting = false;
      }
      ∷ [];
  delistings = [];
  has_evidence = λ sid. false;
  settled = λ sid. none;
}

acme_is : security_reasons tables acme ≡ []
unfolding security_reasons raised_if is_blank outside_reasons is_outside is_introduction isoformat
    of_ordinal overlapping clashes linked closed_without_ending bankruptcy_reasons covered
acme_is = refl

security_reasons-IsPlaced_example : IsPlaced tables acme
security_reasons-IsPlaced_example = security_reasons-IsPlaced tables acme acme_is
