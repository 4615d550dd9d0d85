-- ===== src/Sources/Ftd/Windows/Examples.antt =====
-- Windows at which their merging is tested.
use delist_detection.Prelude.{ℕ, ◌≤◌, ◌≡◌, arith, true, not, ◌||◌, List, [], ◌∷◌}
use delist_detection.Sources.Ftd.Windows.{Window, covered, merge, has}
use delist_detection.Sources.Ftd.Windows.Merging.{has-merge}
use delist_detection.Sources.Ftd.Windows.Coverage.{covered-merge}

abbrev windows : List Window
windows = record { lo = 10; hi = 20 } ∷ record { lo = 40; hi = 50 } ∷ []

has-merge_example : has 30 (merge windows 21 39) ≡ true
unfolding has
has-merge_example = has-merge windows 21 39 30

covered-merge_example :
    (covered (merge windows 21 39) 21 39 ≡ true)
    × ((not (covered windows 12 18) || covered (merge windows 21 39) 12 18) ≡ true)
covered-merge_example =
    covered-merge windows 21 39 12 18 (omega arith, omega arith, omega arith) (omega arith)
      (omega arith)

in_windows : (d : ℕ) → 12 ≤ d → d ≤ 18 → has d windows ≡ true
unfolding has
in_windows d low high = ground (arith, low, high)
