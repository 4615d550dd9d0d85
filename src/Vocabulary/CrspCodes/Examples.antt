-- ===== src/Vocabulary/CrspCodes/Examples.antt =====
-- Inputs at which the buckets of vocabulary/crsp_codes.py are tested.
use delist_detection.Prelude.{◌≡◌, refl, none, some}
use delist_detection.Vocabulary.CrspCodes.{
  bucket_for_code, compliance_failure, exchange_transfer, unknown, lookup, dlst_code_to_bucket,
  range_bucket,
}
use delist_detection.Vocabulary.CrspCodes.LeadingDigit.{bucket_for_code-by_leading_digit}

up_migration : bucket_for_code (some 502) ≡ exchange_transfer
unfolding bucket_for_code lookup dlst_code_to_bucket range_bucket
up_migration = refl

no_code : bucket_for_code none ≡ unknown
unfolding bucket_for_code
no_code = refl

bucket_for_code-by_leading_digit_example : bucket_for_code (some 585) ≡ compliance_failure
bucket_for_code-by_leading_digit_example = bucket_for_code-by_leading_digit 585
