-- ===== src/Identity/History/Rows/Takeovers.antt =====
-- `_clip_at_takeovers` of identity/history.py and the sightings of its rows.
use mathlib.Core.List.{Memᴰ}
use delist_detection.Prelude.{
  ℕ, ◌-◌, ◌≡◌, sym, ◌∙◌, ap, Bool, true, false, ◌&&◌, ◌||◌, Option, none, some, List, [], ◌∷◌,
  text_eq, String, leb, arith, inl, inr, any, if_ind, Option-cases,
}
use delist_detection.Identity.History.Ranges.{Sighting, holds}
use delist_detection.Identity.History.Rows.{
  HistoryRow, later_starts, least, still_seen, same_day, ended_before, clip_to, clip_row,
}

-- A sighting of the row's ticker on a day that the row holds.
abbrev pub is_kept_by : HistoryRow → Sighting → Bool
is_kept_by r g = text_eq g.value r.range.value && holds r.range g.day

not_here : (a b c : Bool) → a ≡ true → ((a && b) || c) ≡ false → (b ≡ false) × (c ≡ false)
not_here a b c h k = (ground (arith, h, k), ground (arith, h, k))

rest_not : (a b : Bool) → (a || b) ≡ false → b ≡ false
rest_not a b h = ground (arith, h)

seen_no_later :
    (sightings : List Sighting) (r : HistoryRow) (day : ℕ) (g : Sighting)
    → Memᴰ g sightings
    → text_eq g.value r.range.value ≡ true
    → still_seen sightings r day ≡ false
    → leb day g.day ≡ false
unfolding still_seen
seen_no_later [] r day g there same h = elim there [ ]
seen_no_later (x ∷ xs) r day g (Memᴰ.head e) same h =
    let same_x : text_eq x.value r.range.value ≡ true =
      ap (λ (y : Sighting). text_eq y.value r.range.value) (sym e) ∙ same in
    ap (λ (y : Sighting). leb day y.day) e
    ∙ (not_here (text_eq x.value r.range.value) (leb day x.day)
        (any (λ y. text_eq y.value r.range.value && leb day y.day) xs) same_x h).0
seen_no_later (x ∷ xs) r day g (Memᴰ.tail there) same h = seen_no_later xs r day g there same (
    rest_not (text_eq x.value r.range.value && leb day x.day)
      (any (λ y. text_eq y.value r.range.value && leb day y.day) xs) h)

days_kept :
    (a b c : Bool) (from seen day : ℕ)
    → (a && (leb from seen && c)) ≡ true
    → leb day seen ≡ false
    → (a && (leb from seen && leb seen (day - 1))) ≡ true
days_kept a b c from seen day h k = ground (arith, h, k)

still_kept :
    (r : HistoryRow) (g : Sighting) (day : ℕ)
    → is_kept_by r g ≡ true
    → leb day g.day ≡ false
    → is_kept_by (ended_before r day) g ≡ true
unfolding ended_before holds
still_kept r g day h k =
    days_kept (text_eq g.value r.range.value) true
      (elim r.range.valid_to [ none ↦ true | some to ↦ leb g.day to ]) r.range.valid_from g.day day
      h k

same_ticker_of :
    (r : HistoryRow) (g : Sighting) → is_kept_by r g ≡ true → text_eq g.value r.range.value ≡ true
same_ticker_of r g h = first (text_eq g.value r.range.value) (holds r.range g.day) h
  where
    first : (a b : Bool) → (a && b) ≡ true → a ≡ true
    first a b k = ground (arith, k)

module _ (rows : List HistoryRow) (r : HistoryRow) (g : Sighting)
    (kept : is_kept_by r g ≡ true) where
  clip_to-keeps :
      (sightings : List Sighting) (to : ℕ)
      → Memᴰ g sightings
      → is_kept_by (clip_to rows sightings r to) g ≡ true
  unfolding clip_to
  clip_to-keeps sightings to there = elim (Option-cases (least (later_starts rows r to))) [
    | inl nothing ↦ rw (nothing, clip_to) kept
    | inr (day, e) ↦
        rw (e, clip_to)
          (if_ind (λ (x : HistoryRow). is_kept_by x g ≡ true) (still_seen sightings r day) r
            (ended_before r day) (λ _. kept)
            (λ gone.
              still_kept r g day kept
                (seen_no_later sightings r day g there (same_ticker_of r g kept) gone)))
  ]

  clip_row-kept :
      (sightings : String → List Sighting) (ends : String → Option ℕ)
      → Memᴰ g (sightings r.sec_id)
      → is_kept_by (clip_row rows sightings ends r) g ≡ true
  unfolding clip_row
  clip_row-kept sightings ends there = elim (Option-cases r.range.valid_to) [
    | inl open_end ↦ rw (open_end, clip_row) kept
    | inr (to, e) ↦
        rw (e, clip_row)
          (if_ind (λ (x : HistoryRow). is_kept_by x g ≡ true) (same_day (ends r.sec_id) to) r
            (clip_to rows (sightings r.sec_id) r to) (λ _. kept)
            (λ _. clip_to-keeps (sightings r.sec_id) to there))
  ]

-- A row that another security's first day cuts short still holds every day on which its own security was
-- sighted under its ticker and that it held before.
pub clip_row-keeps :
    (rows : List HistoryRow) (sightings : String → List Sighting) (ends : String → Option ℕ)
    (r : HistoryRow) (g : Sighting)
    → Memᴰ g (sightings r.sec_id)
    → is_kept_by r g ≡ true
    → is_kept_by (clip_row rows sightings ends r) g ≡ true
clip_row-keeps rows sightings ends r g there kept = clip_row-kept rows r g kept sightings ends there
