-- ===== src/Endings/Classifier/Items.antt =====
-- Which buckets the item sets of endings/classifier.py fall in.
use delist_detection.Prelude.{
  ℕ, ◌≡◌, Bool, false, not, ◌&&◌, ◌||◌, Option, none, some, List, Text, codes, is_among, arith,
}
use delist_detection.Vocabulary.CrspCodes
use delist_detection.Vocabulary.CrspCodes.{bucket_for_code, is_bucket}
use delist_detection.Vocabulary.CrspCodes.LeadingDigit.{bucket_for_code-by_leading_digit}
use delist_detection.Endings.Classifier.{class_from, classify_items}

-- Two of an acquisition, a delisting notice and a change in control, or a change in control with changed
-- rights.
abbrev pub is_merger_set : (has_201 has_301 has_303 has_501 : Bool) → Bool
is_merger_set has_201 has_301 has_303 has_501 =
    has_201 && has_301 || has_501 && (has_201 || has_301 || has_303)

-- A code of the merger bucket.
abbrev pub is_merger_code : Option ℕ → Bool
is_merger_code none = false
is_merger_code (some code) = is_bucket (bucket_for_code (some code)) CrspCodes.merger

-- An item set reads as a merger exactly if it is such a set and tells of no bankruptcy.
class_from-merger :
    (has_103 has_201 has_204 has_301 has_303 has_501 : Bool)
    → is_merger_code (class_from has_103 has_201 has_204 has_301 has_303 has_501).code
      ≡ (not has_103 && is_merger_set has_201 has_301 has_303 has_501)
unfolding class_from is_bucket
class_from-merger has_103 has_201 has_204 has_301 has_303 has_501 = ground (
  arith,
  bucket_for_code-by_leading_digit 470,
  bucket_for_code-by_leading_digit 231,
  bucket_for_code-by_leading_digit 233,
  bucket_for_code-by_leading_digit 200,
  bucket_for_code-by_leading_digit 570,
)

abbrev pub has : List Text → Text → Bool
has items item = is_among item items

-- An item set is coded as a merger exactly if it has two of the items 2.01, 3.01 and 5.01, or 5.01 and
-- 3.03, and no 1.03.
pub classify_items-merger :
    (items : List Text)
    → is_merger_code (classify_items items).code ≡ (
        not (has items (codes "1.03"))
        && is_merger_set
            (has items (codes "2.01"))
            (has items (codes "3.01"))
            (has items (codes "3.03"))
            (has items (codes "5.01")))
unfolding classify_items
classify_items-merger items =
    class_from-merger (has items (codes "1.03")) (has items (codes "2.01"))
      (has items (codes "2.04")) (has items (codes "3.01")) (has items (codes "3.03"))
      (has items (codes "5.01"))
