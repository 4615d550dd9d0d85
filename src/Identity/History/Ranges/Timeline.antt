-- ===== src/Identity/History/Ranges/Timeline.antt =====
-- The ranges of `ranges_from_sightings` (identity/history.py) in their order.
use mathlib.Core.List.{Memᴰ}
use delist_detection.Prelude.{
  ℕ, ◌-◌, ◌≤◌, ◌<◌, ◌≡◌, ◌≢◌, refl, sym, ◌∙◌, ap, Bool, true, false, Option, none, some, List, [],
  ◌∷◌, arith, Text, filter, All, All-filter, All-filter_of, All-zip, All-self,
}
use delist_detection.Identity.History.Ranges.{
  Sighting, by_end, items_of, is_kept, is_observed, by_day, Run, runs, Range, range_of, range_to,
  last_to, ranges, ranges_from_sightings,
}
use delist_detection.Identity.History.Ranges.Days.{
  by_day-AreDays, by_day-IsOf, items_of-IsSortedBy, All-items_of, filter-IsSortedBy,
}
use delist_detection.Identity.History.Ranges.Runs.{IsShown, IsRun, AreRuns, runs-AreRuns}

-- An end, where there is one, that is not before the day.
abbrev pub IsFrom : ℕ → Option ℕ → Type 0
IsFrom day none = Unit
IsFrom day (some to) = day ≤ to

-- A range that is not inverted.
abbrev pub IsDated : Range → Type 0
IsDated r = IsFrom r.valid_from r.valid_to

-- Each range begins the day after the one before it ends, under another value.
abbrev pub IsTimeline : List Range → Type 0
IsTimeline [] = Unit
IsTimeline (r ∷ []) = IsDated r
IsTimeline (r ∷ s ∷ rest) =
    (r.valid_to ≡ some (s.valid_from - 1))
    × (r.valid_from < s.valid_from)
    × (r.value ≢ s.value)
    × IsTimeline (s ∷ rest)

-- The last run ends no later than the end.
abbrev EndsBy : Option ℕ → List Run → Type 0
EndsBy none rs = Unit
EndsBy (some last) rs = All (λ r. r.last ≤ last) rs

last_of : (last : Option ℕ) (r : Run) (rest : List Run) → EndsBy last (r ∷ rest) → EndsBy last rest
last_of none r rest h = tt
last_of (some e) r rest h = h.1

-- No run's range is inverted, so each run has one.
ranges_one :
    (P : Sighting → Type 0) (observed : Text → Bool) (last : Option ℕ) (open_ended : Bool) (r : Run)
    → IsRun P observed r
    → EndsBy last (r ∷ [])
    → ranges last open_ended (r ∷ []) ≡ range_to r (last_to last open_ended r) ∷ []
unfolding ranges range_of last_to
ranges_one P observed none true r h e = refl
ranges_one P observed none false r h e = let le = h.0 in ground (arith, le)
ranges_one P observed (some last) open_ended r h e =
    let le = h.0 in let by = e.0 in ground (arith, le, by)

ranges_cons :
    (P : Sighting → Type 0) (observed : Text → Bool) (last : Option ℕ) (open_ended : Bool)
    (r s : Run) (rest : List Run)
    → IsRun P observed r
    → r.last < s.first
    → ranges last open_ended (r ∷ s ∷ rest)
      ≡ range_to r (some (s.first - 1)) ∷ ranges last open_ended (s ∷ rest)
unfolding ranges range_of
ranges_cons P observed last open_ended r s rest h later = let le = h.0 in ground (arith, le, later)

last_to_lem :
    (P : Sighting → Type 0) (observed : Text → Bool) (last : Option ℕ) (open_ended : Bool) (r : Run)
    → IsRun P observed r
    → EndsBy last (r ∷ [])
    → IsFrom r.first (last_to last open_ended r)
unfolding last_to
last_to_lem P observed none true r h e = tt
last_to_lem P observed none false r h e = h.0
last_to_lem P observed (some last) open_ended r h e =
    let le = h.0 in let by = e.0 in ground (arith, le, by)

-- The ranges of the runs from `r` on.
abbrev IsTimelineFrom : (P : Sighting → Type 0) → (Text → Bool) → Run → List Range → Type 0
IsTimelineFrom P observed r [] = ⊥
IsTimelineFrom P observed r (x ∷ rest) =
    (x.valid_from ≡ r.first)
    × (x.value ≡ r.value)
    × IsTimeline (x ∷ rest)
    × All (λ y. IsShown P observed y.value y.valid_from) (x ∷ rest)

module _ (P : Sighting → Type 0) (observed : Text → Bool) (last : Option ℕ)
    (open_ended : Bool) where
  one-IsTimelineFrom :
      (r : Run)
      → IsRun P observed r
      → EndsBy last (r ∷ [])
      → IsTimelineFrom P observed r (range_to r (last_to last open_ended r) ∷ [])
  unfolding range_to last_to
  one-IsTimelineFrom r h e = (refl, refl, last_to_lem P observed last open_ended r h e, (h.1, tt))

  cons-IsTimelineFrom :
      (r s : Run) (xs : List Range)
      → IsRun P observed r
      → r.last < s.first
      → r.value ≢ s.value
      → IsTimelineFrom P observed s xs
      → IsTimelineFrom P observed r (range_to r (some (s.first - 1)) ∷ xs)
  unfolding range_to
  cons-IsTimelineFrom r s [] h later other k = absurd k
  cons-IsTimelineFrom r s (x ∷ xs) h later other k =
      let le = h.0 in
      let from = k.0 in
      (
        refl,
        refl,
        (
          ap (λ (d : ℕ). some (d - 1)) (sym from),
          omega (arith, le, later, from),
          (λ e. other (e ∙ k.1)),
          k.2,
        ),
        (h.1, k.3),
      )

  ranges-IsTimelineFrom :
      (r : Run) (rest : List Run)
      → AreRuns P observed (r ∷ rest)
      → EndsBy last (r ∷ rest)
      → IsTimelineFrom P observed r (ranges last open_ended (r ∷ rest))
  ranges-IsTimelineFrom r [] h e =
      rw (ranges_one P observed last open_ended r h e) (one-IsTimelineFrom r h e)
  ranges-IsTimelineFrom r (s ∷ rest) h e =
      rw (ranges_cons P observed last open_ended r s rest h.0 h.1) (
        cons-IsTimelineFrom r s (ranges last open_ended (s ∷ rest)) h.0 h.1 h.2
          (ranges-IsTimelineFrom s rest h.3 (last_of last r (s ∷ rest) e)))

-- A sighting of the list, up to the end.
abbrev pub IsSighting : List Sighting → Option ℕ → Sighting → Type 0
IsSighting sightings last s = Memᴰ s sightings × (by_end last s ≡ true)

by_end_lem : (last : ℕ) (s : Sighting) → by_end (some last) s ≡ true → s.day ≤ last
unfolding by_end
by_end_lem last s h = ground arith

AreRuns-head :
    (P : Sighting → Type 0) (observed : Text → Bool) (r : Run) (rest : List Run)
    → AreRuns P observed (r ∷ rest)
    → IsRun P observed r × AreRuns P observed rest
AreRuns-head P observed r [] h = (h, tt)
AreRuns-head P observed r (s ∷ rest) h = (h.0, h.3)

AreRuns-EndsBy :
    (sightings : List Sighting) (observed : Text → Bool) (last : Option ℕ) (rs : List Run)
    → AreRuns (IsSighting sightings last) observed rs
    → EndsBy last rs
AreRuns-EndsBy sightings observed none rs h = tt
AreRuns-EndsBy sightings observed (some last) [] h = tt
AreRuns-EndsBy sightings observed (some last) (r ∷ rest) h =
    let (run, tail) = AreRuns-head (IsSighting sightings (some last)) observed r rest h in
    let (s, (member, early), day, value) = run.2 in
    let le = by_end_lem last s early in
    (omega (arith, le, day), AreRuns-EndsBy sightings observed (some last) rest tail)

-- What `ranges_from_sightings` promises.
pub record IsHistory (sightings : List Sighting) (last : Option ℕ) (rs : List Range) : Type 0 where
  pub timeline : IsTimeline rs
  pub shown :
      All
        (λ r.
          (s : Sighting) × IsSighting sightings last s
          × (s.day ≡ r.valid_from)
          × (s.value ≡ r.value))
        rs

runs-IsHistory :
    (sightings : List Sighting) (observed : Text → Bool) (last : Option ℕ) (open_ended : Bool)
    (rs : List Run)
    → AreRuns (IsSighting sightings last) observed rs
    → IsHistory sightings last (ranges last open_ended rs)
unfolding ranges
runs-IsHistory sightings observed last open_ended [] h = record { timeline = tt; shown = tt }
runs-IsHistory sightings observed last open_ended (r ∷ rest) h =
    of_from (ranges last open_ended (r ∷ rest)) (
      ranges-IsTimelineFrom (IsSighting sightings last) observed last open_ended r rest h
        (AreRuns-EndsBy sightings observed last (r ∷ rest) h))
  where
    of_from :
        (xs : List Range)
        → IsTimelineFrom (IsSighting sightings last) observed r xs
        → IsHistory sightings last xs
    of_from [] k = absurd k
    of_from (x ∷ xs) k = record { timeline = k.2; shown = k.3 }

-- Whatever is sighted: each range begins the day after the one before it ends, under another value, the
-- last one does not end before it begins, and each begins on a day when its value was sighted, no later
-- than the end.
pub ranges_from_sightings-IsHistory :
    (sightings : List Sighting) (last : Option ℕ) (open_ended : Bool)
    → IsHistory sightings last (ranges_from_sightings sightings last open_ended)
unfolding ranges_from_sightings
ranges_from_sightings-IsHistory sightings last open_ended =
    let items = items_of last sightings in
    let kept = filter (is_kept items) items in
    let of_list = All-items_of (IsSighting sightings last) last sightings (
      All-zip (λ s. Memᴰ s sightings) (λ s. by_end last s ≡ true) (filter (by_end last) sightings)
        (All-filter_of (λ s. Memᴰ s sightings) (by_end last) sightings (All-self sightings))
        (All-filter (by_end last) sightings)) in
    runs-IsHistory sightings (is_observed items) last open_ended
      (runs (is_observed items) (by_day kept))
      (runs-AreRuns (IsSighting sightings last) (is_observed items) (by_day kept)
        (by_day-AreDays kept
          (filter-IsSortedBy (is_kept items) items (items_of-IsSortedBy last sightings)))
        (by_day-IsOf (IsSighting sightings last) kept
          (All-filter_of (IsSighting sightings last) (is_kept items) items of_list)))
