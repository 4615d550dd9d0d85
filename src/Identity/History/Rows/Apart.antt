-- ===== src/Identity/History/Rows/Apart.antt =====
-- A security's ranges after `_security_rows` (identity/history.py) has clipped them.
use mathlib.Core.List.{Memᴰ}
use delist_detection.Prelude.{
  ℕ, ◌-◌, ◌≤◌, ◌<◌, ◌≡◌, ◌∙◌, ap, Bool, true, ◌&&◌, Option, some, List, [], ◌∷◌, Text, arith, inl,
  inr, All, All-map, All-mem, filter, Option-cases,
}
use delist_detection.Identity.History.Ranges.{Range, Sighting, by_end, holds, ranges_from_sightings}
use delist_detection.Identity.History.Ranges.Timeline.{IsTimeline, ranges_from_sightings-IsHistory}
use delist_detection.Identity.History.Ranges.ValueOn.{later}
use delist_detection.Identity.History.Endings.{Starts, before_start}
use delist_detection.Identity.History.Rows.{clip_range, clip_ranges, ticker_ranges}
use delist_detection.Identity.History.Rows.Clipping.{
  EndsBefore, OfSome, OfSome-map, IsOwn, clip_range-IsOwn, clip_ranges-All,
}

-- Each range ends before any later one begins.
abbrev pub AreApart : List Range → Type 0
AreApart [] = Unit
AreApart (r ∷ rs) = All (λ s. EndsBefore r.valid_to s.valid_from) rs × AreApart rs

EndsBefore-path : (o : Option ℕ) (to day : ℕ) → o ≡ some to → to < day → EndsBefore o day
EndsBefore-path o to day e h = rw e h

ends_before :
    (r s x : Range)
    → r.valid_to ≡ some (s.valid_from - 1)
    → r.valid_from < s.valid_from
    → s.valid_from ≤ x.valid_from
    → EndsBefore r.valid_to x.valid_from
ends_before r s x e h k =
    EndsBefore-path r.valid_to (s.valid_from - 1) x.valid_from e (omega (arith, h, k))

IsTimeline-AreApart : (rs : List Range) → IsTimeline rs → AreApart rs
IsTimeline-AreApart [] h = tt
IsTimeline-AreApart (r ∷ []) h = (tt, tt)
IsTimeline-AreApart (r ∷ s ∷ rs) h = (
  (
    ends_before r s s h.0 h.1 (omega arith),
    All-map (λ x. s.valid_from < x.valid_from) (λ x. EndsBefore r.valid_to x.valid_from)
        (λ x k. ends_before r s x h.0 h.1 (omega (arith, k))) rs (later s rs h.3),
  ),
  IsTimeline-AreApart (s ∷ rs) h.3,
)

clip_ranges-AreApart :
    (starts : Starts) (rgs : List Range) → AreApart rgs → AreApart (clip_ranges starts rgs)
unfolding clip_ranges
clip_ranges-AreApart starts [] h = tt
clip_ranges-AreApart starts (rg ∷ rgs) h = elim (Option-cases (clip_range starts rg)) [
  | inl nothing ↦ rw (nothing, clip_ranges) (clip_ranges-AreApart starts rgs h.1)
  | inr (r, e) ↦
      let own : IsOwn starts rg r = rw e at (clip_range-IsOwn starts rg) in
      rw (e, clip_ranges)
        (
          clip_ranges-All (λ s. EndsBefore r.valid_to s.valid_from) starts rgs
              (All-map (λ s. EndsBefore rg.valid_to s.valid_from)
                (λ s. OfSome (λ t. EndsBefore r.valid_to t.valid_from) (clip_range starts s))
                (λ s k.
                  OfSome-map (IsOwn starts s) (λ t. EndsBefore r.valid_to t.valid_from)
                    (clip_range starts s) (λ t c. rw (c.1) (own.2 s.valid_from k))
                    (clip_range-IsOwn starts s))
                rgs h.0),
          clip_ranges-AreApart starts rgs h.1,
        )
]

-- A security's ranges after the clip: each ends before any later one begins, so no day has two tickers.
pub ticker_ranges-AreApart :
    (sightings : List Sighting) (listed : Bool) (last : Option ℕ) (starts : Starts)
    → AreApart (ticker_ranges sightings listed last starts)
unfolding ticker_ranges
ticker_ranges-AreApart sightings listed last starts =
    let own = filter (λ s. by_end last s && before_start starts s.value s.day) sightings in
    clip_ranges-AreApart starts (ranges_from_sightings own last listed) (
      IsTimeline-AreApart (ranges_from_sightings own last listed)
        (ranges_from_sightings-IsHistory own last listed).timeline)

IsOwn-path :
    (starts : Starts) (rg r : Range) (day : ℕ)
    → r.value ≡ rg.value
    → before_start starts rg.value day ≡ true
    → before_start starts r.value day ≡ true
IsOwn-path starts rg r day e h = ap (λ (v : Text). before_start starts v day) e ∙ h

all_of : (P : Range → Type 0) (rgs : List Range) → ((r : Range) → P r) → All P rgs
all_of P [] f = tt
all_of P (r ∷ rs) f = (f r, all_of P rs f)

-- A day that one of a security's ranges holds is before the day from which the range's ticker is a
-- successor's.
pub ticker_ranges-own :
    (sightings : List Sighting) (listed : Bool) (last : Option ℕ) (starts : Starts) (r : Range)
    (day : ℕ)
    → Memᴰ r (ticker_ranges sightings listed last starts)
    → holds r day ≡ true
    → before_start starts r.value day ≡ true
unfolding ticker_ranges
ticker_ranges-own sightings listed last starts r day there held =
    let own = filter (λ s. by_end last s && before_start starts s.value s.day) sightings in
    let rgs = ranges_from_sightings own last listed in
    let P : Range → Type 0 =
      λ x. (d : ℕ) → holds x d ≡ true → before_start starts x.value d ≡ true in
    All-mem P (clip_ranges starts rgs)
      (clip_ranges-All P starts rgs (
        all_of (λ x. OfSome P (clip_range starts x)) rgs
          (λ x.
            OfSome-map (IsOwn starts x) P (clip_range starts x)
              (λ y c d k. IsOwn-path starts x y d c.0 (c.3 d k)) (clip_range-IsOwn starts x))))
      there day held
