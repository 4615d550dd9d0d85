-- ===== src/Sources/Ftd/Slices.antt =====
-- What a slice of an index's rows holds.
use delist_detection.Prelude.{
  ℕ, ◌≤◌, ◌≡◌, refl, sym, ap, ◌∙◌, Bool, true, false, ◌&&◌, inl, inr, Option, none, some, List, [],
  ◌∷◌, arith, filter, All, All-map, All-filter, All-filter_of, IsSortedBy, Bool-cases,
  if◌then◌else◌,
}
use delist_detection.Sources.Ftd.{FtdRow, from_on, up_to, dropped, taken, slice}

dropped-all :
    (lo : Option ℕ) (rs : List FtdRow)
    → All (λ r. from_on lo r.date ≡ true) rs
    → filter (λ r. from_on lo r.date) rs ≡ rs
dropped-all lo [] h = refl
dropped-all lo (r ∷ rs) h = rw (h.0) (ap (λ (ss : List FtdRow). r ∷ ss) (dropped-all lo rs h.1))

from_on-later : (lo : Option ℕ) (d e : ℕ) → d ≤ e → from_on lo d ≡ true → from_on lo e ≡ true
unfolding from_on
from_on-later none d e h k = refl
from_on-later (some lo) d e h k = ground (arith, h, k)

up_to-later : (hi : Option ℕ) (d e : ℕ) → d ≤ e → up_to hi d ≡ false → up_to hi e ≡ false
unfolding up_to
up_to-later none d e h k = k
up_to-later (some hi) d e h k = ground (arith, h, k)

dropped-filter :
    (lo : Option ℕ) (rs : List FtdRow)
    → IsSortedBy (λ r. r.date) rs
    → dropped lo rs ≡ filter (λ r. from_on lo r.date) rs
unfolding dropped
dropped-filter lo [] h = refl
dropped-filter lo (r ∷ rs) h = elim (Bool-cases (from_on lo r.date)) [
  | inl on ↦ rw on (
      ap (λ (ss : List FtdRow). r ∷ ss)
        (sym (
          dropped-all lo rs (
            All-map (λ s. r.date ≤ s.date) (λ s. from_on lo s.date ≡ true)
              (λ s k. from_on-later lo r.date s.date k on) rs h.0))))
  | inr before ↦ rw before (dropped-filter lo rs h.1)
]

taken-none :
    (hi : Option ℕ) (rs : List FtdRow)
    → All (λ r. up_to hi r.date ≡ false) rs
    → filter (λ r. up_to hi r.date) rs ≡ []
taken-none hi [] h = refl
taken-none hi (r ∷ rs) h = rw (h.0) (taken-none hi rs h.1)

taken-filter :
    (hi : Option ℕ) (rs : List FtdRow)
    → IsSortedBy (λ r. r.date) rs
    → taken hi rs ≡ filter (λ r. up_to hi r.date) rs
unfolding taken
taken-filter hi [] h = refl
taken-filter hi (r ∷ rs) h = elim (Bool-cases (up_to hi r.date)) [
  | inl by ↦ rw by (ap (λ (ss : List FtdRow). r ∷ ss) (taken-filter hi rs h.1))
  | inr past ↦ rw past (
      sym (
        taken-none hi rs (
          All-map (λ s. r.date ≤ s.date) (λ s. up_to hi s.date ≡ false)
            (λ s k. up_to-later hi r.date s.date k past) rs h.0)))
]

pub kept-IsSortedBy :
    (p : FtdRow → Bool) (rs : List FtdRow)
    → IsSortedBy (λ r. r.date) rs
    → IsSortedBy (λ r. r.date) (filter p rs)
kept-IsSortedBy p [] h = tt
kept-IsSortedBy p (r ∷ rs) h = elim (Bool-cases (p r)) [
  | inl kept ↦ rw kept (All-filter_of (λ s. r.date ≤ s.date) p rs h.0, kept-IsSortedBy p rs h.1)
  | inr out ↦ rw out (kept-IsSortedBy p rs h.1)
]

filter-filter :
    (p q : FtdRow → Bool) (rs : List FtdRow) → filter q (filter p rs) ≡ filter (λ r. p r && q r) rs
filter-filter p q [] = refl
filter-filter p q (r ∷ rs) = elim (Bool-cases (p r)) [
  | inl on ↦ rw on (ap (λ (ss : List FtdRow). if q r then r ∷ ss else ss) (filter-filter p q rs))
  | inr out ↦ rw out (filter-filter p q rs)
]

-- Of rows sorted by date, a slice is the rows dated in the span, a bound left out being open.
pub slice-filter :
    (rows : List FtdRow) (lo hi : Option ℕ)
    → IsSortedBy (λ r. r.date) rows
    → slice rows lo hi ≡ filter (λ r. from_on lo r.date && up_to hi r.date) rows
unfolding slice
slice-filter rows lo hi h =
    ap (taken hi) (dropped-filter lo rows h)
    ∙ taken-filter hi (filter (λ r. from_on lo r.date) rows)
        (kept-IsSortedBy (λ r. from_on lo r.date) rows h)
    ∙ filter-filter (λ r. from_on lo r.date) (λ r. up_to hi r.date) rows

pub slice-IsSortedBy :
    (rows : List FtdRow) (lo hi : Option ℕ)
    → IsSortedBy (λ r. r.date) rows
    → IsSortedBy (λ r. r.date) (slice rows lo hi)
slice-IsSortedBy rows lo hi h =
    rw (slice-filter rows lo hi h)
      (kept-IsSortedBy (λ r. from_on lo r.date && up_to hi r.date) rows h)

in_span : (lo hi d : ℕ) → (from_on (some lo) d && up_to (some hi) d) ≡ true → (lo ≤ d) × (d ≤ hi)
unfolding from_on up_to
in_span lo hi d h = (ground arith, ground arith)

pub slice-dates :
    (rows : List FtdRow) (lo hi : ℕ)
    → IsSortedBy (λ r. r.date) rows
    → All (λ r. (lo ≤ r.date) × (r.date ≤ hi)) (slice rows (some lo) (some hi))
slice-dates rows lo hi h = rw (slice-filter rows (some lo) (some hi) h) (
    All-map (λ r. (from_on (some lo) r.date && up_to (some hi) r.date) ≡ true)
      (λ r. (lo ≤ r.date) × (r.date ≤ hi)) (λ r k. in_span lo hi r.date k)
      (filter (λ r. from_on (some lo) r.date && up_to (some hi) r.date) rows)
      (All-filter (λ r. from_on (some lo) r.date && up_to (some hi) r.date) rows))
