-- ===== src/Identity/History/Rows/Examples.antt =====
-- Rows of a ticker that a successor took.
use mathlib.Core.List.{Memᴰ}
use delist_detection.Prelude.{ℕ, ◌≡◌, refl, true, false, none, some, List, [], ◌∷◌, String}
use delist_detection.Identity.History.Ranges.{observation, Sighting, Range, holds}
use delist_detection.Identity.History.Endings.{before_start}
use delist_detection.Identity.History.Rows.{HistoryRow, ticker_ranges, clip_row}
use delist_detection.Identity.History.Rows.Apart.{ticker_ranges-own}
use delist_detection.Identity.History.Rows.Takeovers.{is_kept_by, clip_row-keeps}
use delist_detection.Identity.History.Endings.Examples.{aon, sighting}
use delist_detection.Identity.History.Ranges.{by_end}
use delist_detection.Identity.History.Ranges.Examples.{aon_ranges}

abbrev aon_range : (to : ℕ) → Range
aon_range to = record { value = aon; valid_from = 735000; valid_to = some to; source = observation }

-- The old line's fails run on under the ticker, which is another's from 735103 on.
abbrev seen : List Sighting
seen = sighting 735000 aon ∷ sighting 735102 aon ∷ sighting 735103 aon ∷ []

aon_holds : holds (aon_range 735102) 735050 ≡ true
unfolding holds
aon_holds = refl

aon_there : Memᴰ (aon_range 735102) (ticker_ranges seen false none ((aon, 735103) ∷ []))
unfolding ticker_ranges by_end before_start
aon_there = rw aon_ranges (Memᴰ.head refl)

ticker_ranges-own_example : before_start ((aon, 735103) ∷ []) aon 735050 ≡ true
ticker_ranges-own_example =
    ticker_ranges-own seen false none ((aon, 735103) ∷ []) (aon_range 735102) 735050 aon_there
      aon_holds

abbrev seen_before : List Sighting
seen_before = sighting 735000 aon ∷ sighting 735102 aon ∷ []

abbrev row : String → Range → HistoryRow
row sid range = record { sec_id = sid; range = range; exchange = none }

abbrev rows : List HistoryRow
rows =
    row "OLD" (aon_range 735110)
    ∷ row "NEW" (record { value = aon; valid_from = 735103; valid_to = none; source = observation })
    ∷ []

clip_row-keeps_example :
    is_kept_by
      (clip_row rows (λ sid. seen_before) (λ sid. none) (row "OLD" (aon_range 735110)))
      (sighting 735102 aon)
    ≡ true
unfolding holds
clip_row-keeps_example =
    clip_row-keeps rows (λ sid. seen_before) (λ sid. none) (row "OLD" (aon_range 735110))
      (sighting 735102 aon) (Memᴰ.tail (Memᴰ.head refl)) refl
