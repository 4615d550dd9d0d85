-- ===== src/Endings/Classifier.antt =====
-- endings/classifier.py: the code of an 8-K item set, `_classify_items`.
pub mod Items
mod Examples
use delist_detection.Prelude.{
  ℕ, Bool, ◌&&◌, ◌||◌, Option, none, some, List, Text, codes, is_among, if◌then◌else◌,
}

pub record ItemClass : Type 0 where
  pub code : Option ℕ
  pub reason : Text

class_of : Option ℕ → Text → ItemClass
class_of code reason = record { code = code; reason = reason }

-- The answer from the answers to `"1.03" in items` and so on.
pub class_from : (has_103 has_201 has_204 has_301 has_303 has_501 : Bool) → ItemClass
unfolding class_of
class_from has_103 has_201 has_204 has_301 has_303 has_501 =
    if has_103
    then class_of (some 470) (codes "Bankruptcy (8-K item 1.03)")
    else if has_201 && has_301 && has_501
    then class_of (some 231) (codes "M&A 2.01+3.01+5.01 (acquired by external acquirer)")
    else if has_201 && has_501
    then class_of (some 233) (codes "M&A 2.01+5.01 (subsidiary buyback / parent acquisition)")
    else if has_501 && (has_201 || has_301 || has_303)
    then class_of (some 231) (
        codes "M&A change in control (5.01) with delisting/rights change, closing 8-K without 2.01")
    else if has_201 && has_301
    then class_of (some 200) (codes "M&A 2.01+3.01 (acquisition with delisting)")
    else if has_204 && has_301
    then class_of (some 470)
        (codes "3.01 + 2.04 without a change in control (distress/Ch.11 lead-in)")
    else if has_301
    then class_of (some 570) (codes "Compliance failure (3.01 alone, no M&A indicators)")
    else class_of none (codes "No conclusive 8-K items")

pub classify_items : List Text → ItemClass
unfolding class_from
classify_items items =
    class_from (is_among (codes "1.03") items) (is_among (codes "2.01") items)
      (is_among (codes "2.04") items) (is_among (codes "3.01") items)
      (is_among (codes "3.03") items) (is_among (codes "5.01") items)
