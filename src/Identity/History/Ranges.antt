-- ===== src/Identity/History/Ranges.antt =====
-- `ranges_from_sightings` of identity/history.py: dated sightings of a ticker or a CUSIP as consecutive
-- ranges of one value. A set of sightings is a sorted list without repeats.
pub mod Timeline
pub mod Days
pub mod Runs
pub mod ValueOn
pub mod Examples
use delist_detection.Prelude.{
  ℕ, ◌+◌, ◌-◌, ◌*◌, Bool, true, false, not, ◌&&◌, ◌||◌, Option, none, some, List, [], ◌∷◌, ◌++◌,
  Text, is_in, codes, ltb, leb, ◌==◌, text_eq, text_le, any, filter, length, sort_with,
  if◌then◌else◌,
}

-- `OBSERVATION`, `FTD`, `SPAN`
pub data Source : Type 0 where
  observation ftd span : Source

pub record Sighting : Type 0 where
  pub day : ℕ
  pub value : Text
  pub source : Source

pub record Range : Type 0 where
  pub value : Text
  pub valid_from : ℕ
  pub valid_to : Option ℕ
  pub source : Source

unfoldable pub holds : Range → ℕ → Bool
holds r day = leb r.valid_from day && elim r.valid_to [ none ↦ true | some to ↦ leb day to ]

-- The value of the first range that holds the day.
pub value_on : List Range → ℕ → Option Text
value_on [] day = none
value_on (r ∷ rs) day = let later = value_on rs day in if holds r day then some r.value else later

unfoldable pub is_observation : Source → Bool
is_observation observation = true
is_observation _ = false

unfoldable pub is_ftd : Source → Bool
is_ftd ftd = true
is_ftd _ = false

-- The sources' texts, in alphabetical order: "ftd", "observation", "span".
source_rank : Source → ℕ
source_rank ftd = 0
source_rank observation = 1
source_rank span = 2

-- The order of `(day, value, source)`.
unfoldable pub sighting_before : Sighting → Sighting → Bool
unfolding source_rank
sighting_before s t =
    ltb s.day t.day
    || (s.day == t.day)
      && (text_le s.value t.value
          && (not (text_eq s.value t.value) || leb (source_rank s.source) (source_rank t.source)))

same : Sighting → Sighting → Bool
unfolding source_rank
same s t =
    (s.day == t.day) && (text_eq s.value t.value && (source_rank s.source == source_rank t.source))

-- The elements of a list once each.
distinct : List Sighting → List Sighting
unfolding same
distinct [] = []
distinct (s ∷ ss) = let rest = distinct ss in if any (same s) rest then rest else s ∷ rest

-- `end is None or x[0] <= end`
unfoldable pub by_end : Option ℕ → Sighting → Bool
by_end none s = true
by_end (some last) s = leb s.day last

-- `ftd_counts[v]`
ftd_count : Text → List Sighting → ℕ
unfolding is_ftd
ftd_count v items = length (filter (λ s. text_eq s.value v && is_ftd s.source) items)

-- `v in obs_values`
is_observed : List Sighting → Text → Bool
is_observed items v = any (λ s. text_eq s.value v && is_observation s.source) items

-- A sighting that is no noise.
is_kept : List Sighting → Sighting → Bool
unfolding ftd_count is_observed
is_kept items s =
    is_observation s.source || (ltb 1 (ftd_count s.value items) || is_observed items s.value)

-- A day's sightings, of which there is at least one.
pub record DaySightings : Type 0 where
  pub day : ℕ
  pub first : Sighting
  pub others : List Sighting

-- A sighting put before the days of the later ones.
put : Sighting → List DaySightings → List DaySightings
put s [] = record { day = s.day; first = s; others = [] } ∷ []
put s (g ∷ gs) =
    if s.day == g.day
    then record { day = g.day; first = s; others = g.first ∷ g.others } ∷ gs
    else record { day = s.day; first = s; others = [] } ∷ g ∷ gs

-- `by_day`, its days in order, of sightings in order.
pub by_day : List Sighting → List DaySightings
unfolding put
by_day [] = []
by_day (s ∷ ss) = put s (by_day ss)

flag : Bool → ℕ
flag true = 1
flag false = 0

-- The first four parts of the key that picks a day's value, as one number.
rank : (Text → Bool) → Option Text → Sighting → ℕ
unfolding flag
rank observed running s =
    8 * flag (not (is_observation s.source))
    + 4 * flag (not (observed s.value))
    + 2 * flag (elim running [ none ↦ true | some v ↦ not (text_eq s.value v) ])
    + flag (not (is_in (codes "-") s.value))

preferred : (Text → Bool) → Option Text → Sighting → Sighting → Bool
unfolding rank
preferred observed running s t =
    ltb (rank observed running s) (rank observed running t)
    || (rank observed running s == rank observed running t) && not (text_le t.value s.value)

-- `min`, which keeps the first of equals.
best : (Text → Bool) → Option Text → Sighting → List Sighting → Sighting
unfolding preferred
best observed running s [] = s
best observed running s (t ∷ ts) =
    best observed running (if preferred observed running t s then t else s) ts

pub chosen : (Text → Bool) → Option Text → DaySightings → Text
unfolding best
chosen observed running g = (best observed running g.first g.others).value

-- The day has an observation of the value.
observes : DaySightings → Text → Bool
observes g v = any (λ s. text_eq s.value v && is_observation s.source) (g.first ∷ g.others)

-- A run of days of one value, and whether one of its sightings of the value is an observation.
pub record Run : Type 0 where
  pub value : Text
  pub first : ℕ
  pub last : ℕ
  pub observed : Bool

opened : (Text → Bool) → Option Text → DaySightings → Run
unfolding observes
opened observed running g =
    let v = chosen observed running g in
    record { value = v; first = g.day; last = g.day; observed = observes g v }

extended : Run → DaySightings → Run
unfolding observes
extended r g = record r { last = g.day; observed = r.observed || observes g r.value }

-- The runs from the one running on.
runs_on : (Text → Bool) → Run → List DaySightings → List Run
unfolding opened extended
runs_on observed r [] = r ∷ []
runs_on observed r (g ∷ gs) = elim (text_eq (chosen observed (some r.value) g) r.value) [
  | true ↦ runs_on observed (extended r g) gs
  | false ↦ r ∷ runs_on observed (opened observed (some r.value) g) gs
]

pub runs : (Text → Bool) → List DaySightings → List Run
unfolding runs_on
runs observed [] = []
runs observed (g ∷ gs) = runs_on observed (opened observed none g) gs

-- Where the last run's range ends.
last_to : Option ℕ → Bool → Run → Option ℕ
last_to (some last) open_ended r = some last
last_to none open_ended r = if open_ended then none else some r.last

range_to : Run → Option ℕ → Range
range_to r to = record {
  value = r.value;
  valid_from = r.first;
  valid_to = to;
  source = if r.observed then observation else ftd;
}

-- Never an inverted range.
range_of : Run → Option ℕ → List Range
unfolding range_to
range_of r none = range_to r none ∷ []
range_of r (some t) = if ltb t r.first then [] else range_to r (some t) ∷ []

ranges : Option ℕ → Bool → List Run → List Range
unfolding last_to range_of
ranges last open_ended [] = []
ranges last open_ended (r ∷ []) = range_of r (last_to last open_ended r)
ranges last open_ended (r ∷ s ∷ rest) =
    range_of r (some (s.first - 1)) ++ ranges last open_ended (s ∷ rest)

-- The set of the sightings up to the end.
pub items_of : Option ℕ → List Sighting → List Sighting
unfolding distinct
items_of last sightings = distinct (sort_with sighting_before (filter (by_end last) sightings))

pub ranges_from_sightings : List Sighting → (last : Option ℕ) → (open_ended : Bool) → List Range
unfolding is_observed is_kept by_day runs ranges
ranges_from_sightings sightings last open_ended =
    let items = items_of last sightings in
    let kept = filter (is_kept items) items in
    ranges last open_ended (runs (is_observed items) (by_day kept))
