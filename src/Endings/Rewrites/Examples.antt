-- ===== src/Endings/Rewrites/Examples.antt =====
-- A merger at which the rewrites of endings/rewrites.py are tested.
use delist_detection.Prelude.{arith, ◌≡◌, ◌≢◌, ◌⊎◌, refl, Option, none, some, [], ◌∷◌, codes}
use delist_detection.Vocabulary.CrspCodes
use delist_detection.Vocabulary.CrspCodes.{exchange_transfer}
use delist_detection.Vocabulary.CrspCodes.LeadingDigit.{bucket_for_code-by_leading_digit}
use delist_detection.Vocabulary.ExitKind.Flags.{flag_name}
use delist_detection.Endings.Rewrites.{
  Delisting, Terms, Payouts, key_of, ok, err, needs_reason, needs_payouts, successor_link, r1,
  continuation, continued_into, drop_from, reclassify, is_transfer, replaced, reclassified_flags,
}
use delist_detection.Endings.Rewrites.Kinds.{HasBucket, continuation_refusals}
use delist_detection.Endings.Rewrites.Flags.{IsSettled}
use delist_detection.Endings.Rewrites.Steps.{continues, here, next, Keeps, Reach-Keeps}

abbrev merged : Delisting
merged = record {
  sec_id = "S1";
  delist_date = 735000;
  crsp_code = some 233;
  bucket = CrspCodes.merger;
  confidence = codes "high";
  reason = codes "Completed acquisition";
  successor_sec_id = none;
  flags = codes "merger_at_par" ∷ codes "successor_unknown" ∷ codes "kept" ∷ [];
  rewrites = [];
}

abbrev linked : Terms
linked = record {
  successor = "S2";
  rule = successor_link;
  reason = some (codes "Continuation");
  confidence = some (codes "medium");
  flag = some (codes "linked");
  how = codes "cik";
  evidence = [];
  successor_from = [];
}

abbrev held : Payouts
held = ("S1", 735000) ∷ ("S9", 735000) ∷ []

-- No run's merger values at hand.
abbrev payouts_unknown : Option Payouts
payouts_unknown = none

merged-HasBucket : HasBucket merged
merged-HasBucket = rw bucket_for_code-by_leading_digit

goes_through :
    continuation merged linked (some held)
    ≡ ok (continued_into merged linked, drop_from (some held) (key_of merged))
unfolding continuation CrspCodes.is_bucket
goes_through = refl

own_flag : (f : _) → linked.flag ≡ some f → IsSettled f
unfolding flag_name
own_flag f e = rw f_is (refl, refl)
  where
    f_is : f ≡ codes "linked"
    f_is = ground arith

continuation_refusals_example :
    (continuation merged linked payouts_unknown ≡ err needs_reason)
      × (merged.bucket ≢ exchange_transfer)
      × ((linked.reason ≡ none) ⊎ (linked.confidence ≡ none))
    ⊎ (continuation merged linked payouts_unknown ≡ err needs_payouts)
      × (merged.bucket ≡ CrspCodes.merger)
      × (payouts_unknown ≡ none)
      × (linked.reason ≢ none)
      × (linked.confidence ≢ none)
    ⊎ ((d' : Delisting) × (payouts' : Option Payouts) × (continuation merged linked payouts_unknown
          ≡ ok (d', payouts')))
      × ((merged.bucket ≡ exchange_transfer) ⊎ (linked.reason ≢ none) × (linked.confidence ≢ none))
      × ((merged.bucket ≢ CrspCodes.merger) ⊎ (payouts_unknown ≢ none))
continuation_refusals_example = continuation_refusals merged linked payouts_unknown

-- The merger read as a price deficiency.
abbrev failed : Delisting
failed = record merged {
  crsp_code = some 552;
  bucket = CrspCodes.compliance_failure;
  reason = codes "Price";
  rewrites =
      record { rule = r1; successor = ""; how = []; evidence = []; successor_from = [] } ∷ [];
}

reads_price : reclassify merged 552 r1 (codes "Price") none ≡ ok failed
unfolding reclassify is_transfer CrspCodes.is_bucket replaced reclassified_flags
reads_price = rw bucket_for_code-by_leading_digit

Reach-Keeps_example : Keeps merged (continued_into merged linked)
Reach-Keeps_example =
    Reach-Keeps (
      next here (continues linked (some held) (drop_from (some held) (key_of merged)) goes_through))
