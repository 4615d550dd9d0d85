-- ===== src/Identity/History/Ranges/Days.antt =====
-- The days and the runs of a set of sightings.
use delist_detection.Prelude.{
  ℕ, ◌+◌, ◌≤◌, ◌<◌, ◌≡◌, refl, Bool, true, false, Option, List, [], ◌∷◌, inl, inr, arith, Text,
  ◌==◌, any, filter, All, All-filter_of, All-sort_with, sort_with, IsSortedBy, sort_with-IsSortedBy,
  Bool-cases, if_ind, if◌then◌else◌,
}
use delist_detection.Identity.History.Ranges.{
  Sighting, sighting_before, same, distinct, by_end, items_of, DaySightings, put, by_day, chosen,
  best, preferred,
}

before_le : (s t : Sighting) → sighting_before s t ≡ true → s.day ≤ t.day
unfolding sighting_before
before_le s t h = ground arith

not_before_le : (s t : Sighting) → sighting_before s t ≡ false → t.day ≤ s.day
unfolding sighting_before
not_before_le s t h = ground arith

module _ {κ} (P : Sighting → Type κ) where
  All-distinct : (ss : List Sighting) → All P ss → All P (distinct ss)
  unfolding distinct
  All-distinct [] h = tt
  All-distinct (s ∷ ss) h = elim (Bool-cases (any (same s) (distinct ss))) [
    | inl there ↦ rw there (All-distinct ss h.1)
    | inr new ↦ rw new (h.0, All-distinct ss h.1)
  ]

distinct-IsSortedBy :
    (ss : List Sighting) → IsSortedBy (λ s. s.day) ss → IsSortedBy (λ s. s.day) (distinct ss)
unfolding distinct
distinct-IsSortedBy [] h = tt
distinct-IsSortedBy (s ∷ ss) h = elim (Bool-cases (any (same s) (distinct ss))) [
  | inl there ↦ rw there (distinct-IsSortedBy ss h.1)
  | inr new ↦ rw new (All-distinct (λ t. s.day ≤ t.day) ss h.0, distinct-IsSortedBy ss h.1)
]

pub filter-IsSortedBy :
    (p : Sighting → Bool) (ss : List Sighting)
    → IsSortedBy (λ s. s.day) ss
    → IsSortedBy (λ s. s.day) (filter p ss)
filter-IsSortedBy p [] h = tt
filter-IsSortedBy p (s ∷ ss) h = elim (Bool-cases (p s)) [
  | inl kept ↦ rw kept (All-filter_of (λ t. s.day ≤ t.day) p ss h.0, filter-IsSortedBy p ss h.1)
  | inr dropped ↦ rw dropped (filter-IsSortedBy p ss h.1)
]

pub items_of-IsSortedBy :
    (last : Option ℕ) (ss : List Sighting) → IsSortedBy (λ s. s.day) (items_of last ss)
unfolding items_of
items_of-IsSortedBy last ss =
    distinct-IsSortedBy (sort_with sighting_before (filter (by_end last) ss)) (
      sort_with-IsSortedBy sighting_before (λ s. s.day) before_le not_before_le
        (filter (by_end last) ss))

pub All-items_of {κ} :
    (P : Sighting → Type κ) (last : Option ℕ) (ss : List Sighting)
    → All P (filter (by_end last) ss)
    → All P (items_of last ss)
unfolding items_of
All-items_of P last ss h =
    All-distinct P (sort_with sighting_before (filter (by_end last) ss))
      (All-sort_with sighting_before P (filter (by_end last) ss) h)

-- Days in strict order.
abbrev pub AreDays : List DaySightings → Type 0
AreDays [] = Unit
AreDays (g ∷ []) = Unit
AreDays (g ∷ k ∷ gs) = (g.day < k.day) × AreDays (k ∷ gs)

-- No day is before `d`.
abbrev pub FromDay : ℕ → List DaySightings → Type 0
FromDay d [] = Unit
FromDay d (g ∷ gs) = d ≤ g.day

FromDay-put : (d : ℕ) (s : Sighting) (gs : List DaySightings) → d ≤ s.day → FromDay d (put s gs)
unfolding put
FromDay-put d s [] h = h
FromDay-put d s (g ∷ gs) h = ground arith

FromDay-by_day : (d : ℕ) (ss : List Sighting) → All (λ s. d ≤ s.day) ss → FromDay d (by_day ss)
unfolding by_day
FromDay-by_day d [] h = tt
FromDay-by_day d (s ∷ ss) h = FromDay-put d s (by_day ss) h.0

AreDays-put :
    (s : Sighting) (gs : List DaySightings) → AreDays gs → FromDay s.day gs → AreDays (put s gs)
unfolding put
AreDays-put s [] h k = tt
AreDays-put s (g ∷ []) h k = ground arith
AreDays-put s (g ∷ j ∷ gs) h k = ground arith

pub by_day-AreDays : (ss : List Sighting) → IsSortedBy (λ s. s.day) ss → AreDays (by_day ss)
unfolding by_day
by_day-AreDays [] h = tt
by_day-AreDays (s ∷ ss) h =
    AreDays-put s (by_day ss) (by_day-AreDays ss h.1) (FromDay-by_day s.day ss h.0)

module _ (P : Sighting → Type 0) where
  -- A day's sightings satisfy `P` and are of that day.
  abbrev pub IsOf : DaySightings → Type 0
  IsOf g = (P g.first × (g.first.day ≡ g.day)) × All (λ s. P s × (s.day ≡ g.day)) g.others

  put-IsOf : (s : Sighting) (gs : List DaySightings) → P s → All IsOf gs → All IsOf (put s gs)
  unfolding put
  put-IsOf s [] p h = (((p, refl), tt), tt)
  put-IsOf s (g ∷ gs) p h = elim (Bool-cases (s.day == g.day)) [
    | inl same_day ↦ rw same_day (((p, ground arith), h.0), h.1)
    | inr other ↦ rw other (((p, refl), tt), h)
  ]

  pub by_day-IsOf : (ss : List Sighting) → All P ss → All IsOf (by_day ss)
  unfolding by_day
  by_day-IsOf [] h = tt
  by_day-IsOf (s ∷ ss) h = put-IsOf s (by_day ss) h.0 (by_day-IsOf ss h.1)

  best-All :
      (observed : Text → Bool) (running : Option Text) (s : Sighting) (ts : List Sighting)
      → P s
      → All P ts
      → P (best observed running s ts)
  unfolding best
  best-All observed running s [] p h = p
  best-All observed running s (t ∷ ts) p h =
      best-All observed running (if preferred observed running t s then t else s) ts
        (if_ind P (preferred observed running t s) t s (λ _. h.0) (λ _. p)) h.1

-- The day's value is one that was sighted on the day.
pub chosen-lem :
    (P : Sighting → Type 0) (observed : Text → Bool) (running : Option Text) (g : DaySightings)
    → IsOf P g
    → (s : Sighting) × P s × (s.day ≡ g.day) × (s.value ≡ chosen observed running g)
unfolding chosen
chosen-lem P observed running g h =
    let b = best observed running g.first g.others in
    let (p, day) =
      best-All (λ s. P s × (s.day ≡ g.day)) observed running g.first g.others h.0 h.1 in
    (b, p, day, refl)

pub AreDays-tail :
    (g : DaySightings) (gs : List DaySightings)
    → AreDays (g ∷ gs)
    → AreDays gs × FromDay (g.day + 1) gs
AreDays-tail g [] h = (tt, tt)
AreDays-tail g (k ∷ gs) h = let below = h.0 in (h.1, omega (arith, below))
