-- ===== src/Endings/Classifier/Examples.antt =====
-- An item set at which `_classify_items` of endings/classifier.py is tested.
use delist_detection.Prelude.{List, [], ◌∷◌, Text, codes}

abbrev closing : List Text
closing = codes "2.01" ∷ codes "3.01" ∷ codes "9.01" ∷ []
