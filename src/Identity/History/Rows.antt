-- ===== src/Identity/History/Rows.antt =====
-- identity/history.py: the rows of ticker_history and cusip_history, and their review.
pub mod Clipping
pub mod Apart
pub mod Takeovers
mod Examples
use delist_detection.Prelude.{
  ℕ, ◌+◌, ◌-◌, Bool, true, false, not, ◌&&◌, Option, none, some, List, [], ◌∷◌, ◌++◌, Text, String,
  str_eq, ltb, leb, ◌==◌, text_eq, any, map, filter, sorted_by, if◌then◌else◌,
}
use delist_detection.Vocabulary.TradingCalendar.{last_day}
use delist_detection.Identity.History.Ranges.{Sighting, Range, by_end, ranges_from_sightings}
use delist_detection.Identity.History.Endings.{Starts, start_on, before_start}

-- A row of ticker_history; its ticker and its days are a range's.
pub record HistoryRow : Type 0 where
  pub sec_id : String
  pub range : Range
  pub exchange : Option Text

-- `valid_to is None or valid_to >= start`
runs_into : ℕ → Option ℕ → Bool
runs_into start none = true
runs_into start (some to) = leb start to

-- A range ended the day before a successor took its ticker, where it runs into that day; none where it
-- would begin no earlier.
clip_at : ℕ → Range → Option Range
unfolding runs_into
clip_at start rg =
    if runs_into start rg.valid_to
    then if leb start rg.valid_from then none else some (record rg { valid_to = some (start - 1) })
    else some rg

pub clip_range : Starts → Range → Option Range
unfolding clip_at
clip_range starts rg = elim (start_on starts rg.value) [
  | none ↦ some rg
  | some start ↦ clip_at start rg
]

pub clip_ranges : Starts → List Range → List Range
unfolding clip_range
clip_ranges starts [] = []
clip_ranges starts (rg ∷ rgs) =
    let rest = clip_ranges starts rgs in
    elim (clip_range starts rg) [ none ↦ rest | some r ↦ r ∷ rest ]

same_day : Option ℕ → ℕ → Bool
same_day none day = false
same_day (some d) day = d == day

exchange_of : Option ℕ → Option Text → (Text → Option Text) → Range → Option Text
unfolding same_day
exchange_of last end_exchange exchange_today rg =
    if elim last [ none ↦ false | some day ↦ same_day rg.valid_to day ]
    then end_exchange
    else elim rg.valid_to [ none ↦ exchange_today rg.value | some to ↦ none ]

-- The ranges of `_security_rows`, of the sightings no successor's.
pub ticker_ranges : List Sighting → (listed : Bool) → (last : Option ℕ) → Starts → List Range
unfolding clip_ranges
ticker_ranges sightings listed last starts = clip_ranges starts (
    ranges_from_sightings
      (filter (λ s. by_end last s && before_start starts s.value s.day) sightings) last listed)

pub security_rows :
    String
    → List Sighting
    → (listed : Bool) → (last : Option ℕ) → (end_exchange : Option Text)
    → (exchange_today : Text → Option Text) → Starts
    → List HistoryRow
unfolding exchange_of
security_rows sec_id sightings listed last end_exchange exchange_today starts =
    map
      (λ rg. record {
        sec_id = sec_id;
        range = rg;
        exchange = exchange_of last end_exchange exchange_today rg;
      })
      (ticker_ranges sightings listed last starts)

-- cusip_history's ranges, from the CUSIP's sightings.
pub cusip_ranges : List Sighting → (listed : Bool) → (last : Option ℕ) → List Range
cusip_ranges sightings listed last =
    ranges_from_sightings (filter (by_end last) sightings) last listed

-- The first days of the other securities' rows of the ticker, behind the row's first day and no later than
-- `to`.
later_starts : List HistoryRow → HistoryRow → ℕ → List ℕ
later_starts rows r to =
    map (λ s. s.range.valid_from)
      (filter
        (λ s.
          text_eq s.range.value r.range.value
          && (not (str_eq s.sec_id r.sec_id)
              && (ltb r.range.valid_from s.range.valid_from && leb s.range.valid_from to)))
        rows)

-- The least of the days.
least : List ℕ → Option ℕ
least days = elim (sorted_by (λ d. d) days) [ [] ↦ none | d ∷ _ ↦ some d ]

-- A sighting of the row's ticker on the day or after it.
still_seen : List Sighting → HistoryRow → ℕ → Bool
still_seen sightings r day = any (λ g. text_eq g.value r.range.value && leb day g.day) sightings

-- The row, ended the day before.
pub ended_before : HistoryRow → ℕ → HistoryRow
ended_before r day = record r { range = record (r.range) { valid_to = some (day - 1) } }

clip_to : List HistoryRow → List Sighting → HistoryRow → ℕ → HistoryRow
unfolding later_starts least still_seen ended_before
clip_to rows sightings r to = elim (least (later_starts rows r to)) [
  | none ↦ r
  | some later ↦ if still_seen sightings r later then r else ended_before r later
]

pub clip_row :
    List HistoryRow → (String → List Sighting) → (String → Option ℕ) → HistoryRow → HistoryRow
unfolding clip_to same_day
clip_row rows sightings ends r = elim r.range.valid_to [
  | none ↦ r
  | some to ↦
      let clipped = clip_to rows (sightings r.sec_id) r to in
      if same_day (ends r.sec_id) to then r else clipped
]

-- `_clip_at_takeovers`
pub clip_at_takeovers :
    List HistoryRow → (String → List Sighting) → (String → Option ℕ) → List HistoryRow
unfolding clip_row
clip_at_takeovers rows sightings ends = map (clip_row rows sightings ends) rows

-- 9999-12-31 stands for no end.
pub overlaps : Range → Range → Bool
overlaps a b =
    let to : Range → ℕ = λ r. elim r.valid_to [ none ↦ last_day | some d ↦ d ] in
    leb a.valid_from (to b) && leb b.valid_from (to a)

pub data Problem : Type 0 where
  ticker_range_overlap ticker_shared : Problem

-- What is reviewed: the security and the ticker of the first row, the problem, and the two rows its reason
-- names.
pub record ReviewItem : Type 0 where
  pub sec_id : String
  pub ticker : Text
  pub problem : Problem
  pub first : HistoryRow
  pub second : HistoryRow

pairs_with : HistoryRow → List HistoryRow → List (HistoryRow × HistoryRow)
pairs_with r rs = map (λ s. (r, s)) rs

pairs : List HistoryRow → List (HistoryRow × HistoryRow)
unfolding pairs_with
pairs [] = []
pairs (r ∷ rs) = pairs_with r rs ++ pairs rs

-- The first rows of each key, in order.
firsts : (HistoryRow → HistoryRow → Bool) → List HistoryRow → List HistoryRow
firsts same [] = []
firsts same (r ∷ rs) = r ∷ filter (λ s. not (same r s)) (firsts same rs)

-- The items of one group's rows, in the order of their first days.
items_in : Problem → (HistoryRow → HistoryRow → Bool) → List HistoryRow → List ReviewItem
unfolding pairs
items_in problem is_problem rows =
    map
      (λ (p : HistoryRow × HistoryRow). record {
        sec_id = p.0.sec_id;
        ticker = p.0.range.value;
        problem = problem;
        first = p.0;
        second = p.1;
      })
      (filter (λ (p : HistoryRow × HistoryRow). is_problem p.0 p.1)
        (pairs (sorted_by (λ r. r.range.valid_from) rows)))

items_by :
    Problem
    → (HistoryRow → HistoryRow → Bool)
    → (HistoryRow → HistoryRow → Bool)
    → List HistoryRow
    → List HistoryRow
    → List ReviewItem
unfolding items_in
items_by problem same is_problem rows [] = []
items_by problem same is_problem rows (r ∷ rs) =
    items_in problem is_problem (filter (same r) rows) ++ items_by problem same is_problem rows rs

pub same_security : HistoryRow → HistoryRow → Bool
same_security r s = str_eq r.sec_id s.sec_id

pub same_ticker : HistoryRow → HistoryRow → Bool
same_ticker r s = text_eq r.range.value s.range.value

pub own_overlaps : HistoryRow → HistoryRow → Bool
unfolding overlaps
own_overlaps r s = overlaps r.range s.range

pub is_shared : HistoryRow → HistoryRow → Bool
unfolding overlaps
is_shared r s = not (str_eq r.sec_id s.sec_id) && overlaps r.range s.range

pub ticker_range_review : List HistoryRow → List ReviewItem
unfolding firsts items_by own_overlaps is_shared
ticker_range_review rows =
    items_by ticker_range_overlap same_security own_overlaps rows (firsts same_security rows)
    ++ items_by ticker_shared same_ticker is_shared rows (firsts same_ticker rows)
