-- ===== src/Identity/History/Ranges/ValueOn.antt =====
-- `value_on` of identity/history.py over the ranges of sightings.
use mathlib.Core.List.{Memᴰ}
use delist_detection.Prelude.{
  ℕ, ◌-◌, ◌≤◌, ◌<◌, ◌≡◌, refl, sym, ◌∙◌, ap, filter, Bool, true, false, Option, some, List, [], ◌∷◌,
  arith, All, All-map, All-mem,
}
use delist_detection.Identity.History.Ranges.{
  Sighting, Range, holds, value_on, ranges_from_sightings,
}
use delist_detection.Identity.History.Ranges.Timeline.{IsTimeline, ranges_from_sightings-IsHistory}

pub IsTimeline-tail : (r : Range) (rs : List Range) → IsTimeline (r ∷ rs) → IsTimeline rs
IsTimeline-tail r [] h = tt
IsTimeline-tail r (s ∷ rest) h = h.3

-- Every later range begins after the first one.
pub later :
    (r : Range) (rs : List Range) → IsTimeline (r ∷ rs) → All (λ x. r.valid_from < x.valid_from) rs
later r [] h = tt
later r (s ∷ rest) h =
    let below = h.1 in
    (
      below,
      All-map (λ x. s.valid_from < x.valid_from) (λ x. r.valid_from < x.valid_from)
          (λ x k. omega (arith, below, k)) rest (later s rest h.3),
    )

held_from : (r : Range) (day : ℕ) → holds r day ≡ true → r.valid_from ≤ day
unfolding holds
held_from r day h = ground arith

ended : (r : Range) (to day : ℕ) → r.valid_to ≡ some to → to < day → holds r day ≡ false
unfolding holds
ended r to day e h = rw (e, holds) (ground arith)

held_to : (r : Range) (to day : ℕ) → r.valid_to ≡ some to → holds r day ≡ true → day ≤ to
unfolding holds
held_to r to day e h = let on = rw (e, holds) at h in ground (arith, on)

not_yet : (r : Range) (day : ℕ) → day < r.valid_from → holds r day ≡ false
unfolding holds
not_yet r day h = ground (arith, h)

kept-head :
    (r : Range) (rs : List Range) (day : ℕ)
    → holds r day ≡ true
    → filter (λ y. holds y day) (r ∷ rs) ≡ r ∷ filter (λ y. holds y day) rs
kept-head r rs day h = rw h refl

dropped-head :
    (r : Range) (rs : List Range) (day : ℕ)
    → holds r day ≡ false
    → filter (λ y. holds y day) (r ∷ rs) ≡ filter (λ y. holds y day) rs
dropped-head r rs day h = rw h refl

-- A day that a later range holds, the first one does not.
not_held :
    (r : Range) (rs : List Range) (x : Range) (day : ℕ)
    → IsTimeline (r ∷ rs)
    → Memᴰ x rs
    → holds x day ≡ true
    → holds r day ≡ false
not_held r [] x day h m k = elim m [ ]
not_held r (s ∷ rest) x day h m k = ended r (s.valid_from - 1) day h.0 (
    let from : s.valid_from ≤ x.valid_from = first_from m in
    let low = held_from x day k in let below = h.1 in omega (arith, from, low, below))
  where
    first_from : Memᴰ x (s ∷ rest) → s.valid_from ≤ x.valid_from
    first_from (Memᴰ.head e) = rw e (omega arith)
    first_from (Memᴰ.tail n) =
        let k = All-mem (λ y. s.valid_from < y.valid_from) rest (later s rest h.3) n in
        omega (arith, k)

value_on-first :
    (r : Range) (rs : List Range) (day : ℕ)
    → holds r day ≡ true
    → value_on (r ∷ rs) day ≡ some r.value
unfolding value_on
value_on-first r rs day h = rw (h, value_on)

value_on-rest :
    (r : Range) (rs : List Range) (day : ℕ)
    → holds r day ≡ false
    → value_on (r ∷ rs) day ≡ value_on rs day
unfolding value_on
value_on-rest r rs day h = rw (h, value_on)

pub value_on-timeline :
    (rs : List Range) (x : Range) (day : ℕ)
    → IsTimeline rs
    → Memᴰ x rs
    → holds x day ≡ true
    → value_on rs day ≡ some x.value
value_on-timeline [] x day h m k = elim m [ ]
value_on-timeline (r ∷ rs) x day h (Memᴰ.head e) k =
    value_on-first r rs day (ap (λ (y : Range). holds y day) (sym e) ∙ k)
    ∙ ap (λ (y : Range). some y.value) (sym e)
value_on-timeline (r ∷ rs) x day h (Memᴰ.tail m) k =
    value_on-rest r rs day (not_held r rs x day h m k)
    ∙ value_on-timeline rs x day (IsTimeline-tail r rs h) m k

-- Where the first range holds a day, no later one does.
none_later :
    (r : Range) (rs : List Range) (day : ℕ)
    → IsTimeline (r ∷ rs)
    → holds r day ≡ true
    → All (λ y. holds y day ≡ false) rs
none_later r [] day h k = tt
none_later r (s ∷ rest) day h k =
    let below = h.1 in
    let by = held_to r (s.valid_from - 1) day h.0 k in
    let before : day < s.valid_from = omega (arith, by, below) in
    (
      not_yet s day before,
      All-map (λ y. s.valid_from < y.valid_from) (λ y. holds y day ≡ false)
          (λ y q. not_yet y day (omega (arith, before, q))) rest (later s rest h.3),
    )

filter-none :
    (rs : List Range) (day : ℕ)
    → All (λ y. holds y day ≡ false) rs
    → filter (λ y. holds y day) rs ≡ []
filter-none [] day h = refl
filter-none (r ∷ rs) day h = rw (h.0) (filter-none rs day h.1)

pub one_holds :
    (rs : List Range) (x : Range) (day : ℕ)
    → IsTimeline rs
    → Memᴰ x rs
    → holds x day ≡ true
    → filter (λ y. holds y day) rs ≡ x ∷ []
one_holds [] x day h m k = elim m [ ]
one_holds (r ∷ rs) x day h (Memᴰ.head e) k =
    let here : holds r day ≡ true = ap (λ (y : Range). holds y day) (sym e) ∙ k in
    kept-head r rs day here
    ∙ ap (λ (ys : List Range). r ∷ ys) (filter-none rs day (none_later r rs day h here))
    ∙ ap (λ (y : Range). y ∷ []) (sym e)
one_holds (r ∷ rs) x day h (Memᴰ.tail m) k =
    dropped-head r rs day (not_held r rs x day h m k)
    ∙ one_holds rs x day (IsTimeline-tail r rs h) m k

-- Of any sightings' ranges, where one holds a day it is the only one that does, and the value on the day is its
-- value.
pub value_on-ranges_from_sightings :
    (sightings : List Sighting) (last : Option ℕ) (open_ended : Bool) (x : Range) (day : ℕ)
    → Memᴰ x (ranges_from_sightings sightings last open_ended)
    → holds x day ≡ true
    → (filter (λ y. holds y day) (ranges_from_sightings sightings last open_ended) ≡ x ∷ [])
      × (value_on (ranges_from_sightings sightings last open_ended) day ≡ some x.value)
value_on-ranges_from_sightings sightings last open_ended x day m k =
    let line = (ranges_from_sightings-IsHistory sightings last open_ended).timeline in
    (
      one_holds (ranges_from_sightings sightings last open_ended) x day line m k,
      value_on-timeline (ranges_from_sightings sightings last open_ended) x day line m k,
    )
