-- ===== src/Identity/History/Ranges/Examples.antt =====
-- Sightings at which the ranges are tested.
use mathlib.Core.List.{Memᴰ}
use delist_detection.Prelude.{◌≡◌, refl, none, some, List, [], ◌∷◌, codes, false, filter}
use delist_detection.Identity.History.Ranges.{
  observation, ftd, Sighting, Range, holds, value_on, ranges_from_sightings, items_of, by_end,
  sighting_before, is_observation, is_kept, is_observed, by_day, runs, ranges, chosen,
}
use delist_detection.Identity.History.Ranges.Timeline.{IsHistory, ranges_from_sightings-IsHistory}
use delist_detection.Identity.History.Ranges.ValueOn.{value_on-ranges_from_sightings}

-- A class observed with its separator and then under another ticker; one stray fails row.
abbrev hubbell : List Sighting
hubbell =
    record { day = 40; value = codes "HUBB"; source = ftd }
    ∷ record { day = 10; value = codes "HUB-B"; source = observation }
    ∷ record { day = 20; value = codes "HUB-B"; source = ftd }
    ∷ record { day = 25; value = codes "XXX"; source = ftd }
    ∷ record { day = 30; value = codes "HUBB"; source = ftd }
    ∷ record { day = 30; value = codes "HUB-B"; source = ftd }
    ∷ record { day = 60; value = codes "HUBB"; source = ftd }
    ∷ []

abbrev hubbell_ranges : List Range
hubbell_ranges =
    record { value = codes "HUB-B"; valid_from = 10; valid_to = some 39; source = observation }
    ∷ record { value = codes "HUBB"; valid_from = 40; valid_to = some 50; source = ftd }
    ∷ []

-- Two days: the last day's fails row is past the end.
hubbell_is : ranges_from_sightings hubbell (some 50) false ≡ hubbell_ranges
unfolding ranges_from_sightings items_of by_end sighting_before is_observation is_kept is_observed
    by_day runs ranges chosen
hubbell_is = refl

ranges_from_sightings-IsHistory_example :
    IsHistory hubbell (some 50) (ranges_from_sightings hubbell (some 50) false)
ranges_from_sightings-IsHistory_example = ranges_from_sightings-IsHistory hubbell (some 50) false

value_on-ranges_from_sightings_example :
    (filter (λ y. holds y 45) (ranges_from_sightings hubbell (some 50) false)
      ≡ record { value = codes "HUBB"; valid_from = 40; valid_to = some 50; source = ftd } ∷ [])
    × (value_on (ranges_from_sightings hubbell (some 50) false) 45 ≡ some (codes "HUBB"))
unfolding ranges_from_sightings items_of by_end sighting_before is_observation is_kept is_observed
    by_day runs ranges chosen holds
value_on-ranges_from_sightings_example =
    value_on-ranges_from_sightings hubbell (some 50) false
      (record { value = codes "HUBB"; valid_from = 40; valid_to = some 50; source = ftd }) 45
      (Memᴰ.tail (Memᴰ.head refl)) refl

-- Two days of one ticker.
abbrev pub aon_seen : List Sighting
aon_seen =
    record { day = 735000; value = codes "AON"; source = observation }
    ∷ record { day = 735102; value = codes "AON"; source = observation }
    ∷ []

pub aon_ranges :
    ranges_from_sightings aon_seen none false
    ≡ record {
      value = codes "AON";
      valid_from = 735000;
      valid_to = some 735102;
      source = observation;
    }
      ∷ []
unfolding ranges_from_sightings items_of by_end sighting_before is_observation is_kept is_observed
    by_day runs ranges chosen
aon_ranges = refl
