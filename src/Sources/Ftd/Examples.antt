-- ===== src/Sources/Ftd/Examples.antt =====
-- Rows and windows at which the fails index is tested.

use delist_detection.Prelude.{ℕ, ◌≡◌, refl, true, false, Option, none, some, List, [], ◌∷◌, codes}
use delist_detection.Sources.Ftd.{FtdRow, settled_last, is_deleted_symbol}

abbrev row : ℕ → Option ℕ → FtdRow
row date price = record {
  date = date;
  cusip = codes "C1";
  symbol = codes "ACME";
  description = codes "ACME INC";
  price = price;
}

abbrev rows : List FtdRow
rows = row 739069 (some 18) ∷ row 739070 (some 20) ∷ row 739072 none ∷ row 739073 (some 20) ∷ []

deleted_is : is_deleted_symbol (codes "ORLYXXXX") ≡ true
unfolding is_deleted_symbol
deleted_is = refl

real_is : is_deleted_symbol (codes "XXXX") ≡ false
unfolding is_deleted_symbol
real_is = refl

settled_is : settled_last rows ≡ some (row 739073 (some 20))
unfolding settled_last
settled_is = refl
