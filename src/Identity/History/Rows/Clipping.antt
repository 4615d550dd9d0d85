-- ===== src/Identity/History/Rows/Clipping.antt =====
-- What the clip of a range at a successor's start leaves of it.

use delist_detection.Prelude.{
  ℕ, ◌-◌, ◌<◌, ◌≡◌, refl, sym, ◌∙◌, Bool, true, false, Option, none, some, List, [], ◌∷◌, Text, ltb,
  leb, arith, inl, inr, All, if_ind, Option-cases, if◌then◌else◌,
}
use delist_detection.Identity.History.Ranges.{Range, holds}
use delist_detection.Identity.History.Endings.{Starts, start_on, before_start}
use delist_detection.Identity.History.Rows.{runs_into, clip_at, clip_range, clip_ranges}

-- The range ends before the day.
abbrev pub EndsBefore : Option ℕ → ℕ → Type 0
EndsBefore none day = ⊥
EndsBefore (some to) day = to < day

-- A range is the other, ended no later, and holds only days that pass the test.
abbrev pub IsClipped : (ℕ → Bool) → Range → Range → Type 0
IsClipped own rg r =
    (r.value ≡ rg.value)
    × (r.valid_from ≡ rg.valid_from)
    × ((day : ℕ) → EndsBefore rg.valid_to day → EndsBefore r.valid_to day)
    × ((day : ℕ) → holds r day ≡ true → own day ≡ true)

abbrev pub OfSome : (Range → Type 0) → Option Range → Type 0
OfSome P none = Unit
OfSome P (some r) = P r

within :
    (start day : ℕ) (rg : Range)
    → runs_into start rg.valid_to ≡ false
    → holds rg day ≡ true
    → ltb day start ≡ true
unfolding runs_into holds
within start day rg h k = elim (Option-cases rg.valid_to) [
  | inl open_end ↦ let l = (rw open_end at h) in absurd (ground (arith, l))
  | inr (to, e) ↦ ground (arith, rw e at h, rw e at k)
]

shorter :
    (start : ℕ) (rg : Range) (day : ℕ)
    → runs_into start rg.valid_to ≡ true
    → EndsBefore rg.valid_to day
    → EndsBefore (some (start - 1)) day
unfolding runs_into
shorter start rg day h k = elim (Option-cases rg.valid_to) [
  | inl open_end ↦ absurd (rw open_end at k)
  | inr (to, e) ↦
      let before : to < day = rw e at k in
      let into : leb start to ≡ true = rw e at h in ground (arith, before, into)
]

held_before :
    (start day : ℕ) (rg : Range)
    → leb start rg.valid_from ≡ false
    → holds (record rg { valid_to = some (start - 1) }) day ≡ true
    → ltb day start ≡ true
unfolding holds
held_before start day rg h k = ground (arith, h, k)

clip_at-IsClipped :
    (start : ℕ) (rg : Range) → OfSome (IsClipped (λ day. ltb day start) rg) (clip_at start rg)
unfolding clip_at
clip_at-IsClipped start rg =
    if_ind (OfSome (IsClipped (λ day. ltb day start) rg)) (runs_into start rg.valid_to)
      (if leb start rg.valid_from then none else some (record rg { valid_to = some (start - 1) }))
      (some rg)
      (λ into.
        if_ind (OfSome (IsClipped (λ day. ltb day start) rg)) (leb start rg.valid_from) none
          (some (record rg { valid_to = some (start - 1) })) (λ _. tt)
          (λ early. (
            refl,
            refl,
            (λ day k. shorter start rg day into k),
            λ day k. held_before start day rg early k,
          )))
      (λ out. (refl, refl, (λ day k. k), λ day k. within start day rg out k))

before_start-none :
    (starts : Starts) (v : Text) (day : ℕ)
    → start_on starts v ≡ none
    → before_start starts v day ≡ true
unfolding before_start
before_start-none starts v day h = rw (h, before_start) refl

before_start-some :
    (starts : Starts) (v : Text) (day start : ℕ)
    → start_on starts v ≡ some start
    → ltb day start ≡ before_start starts v day
unfolding before_start
before_start-some starts v day start h = rw (h, before_start) refl

abbrev pub IsOwn : Starts → Range → Range → Type 0
IsOwn starts rg r = IsClipped (before_start starts rg.value) rg r

pub OfSome-map :
    (P Q : Range → Type 0) (o : Option Range) → ((r : Range) → P r → Q r) → OfSome P o → OfSome Q o
OfSome-map P Q none f h = tt
OfSome-map P Q (some r) f h = f r h

clip_range-none :
    (starts : Starts) (rg : Range)
    → start_on starts rg.value ≡ none
    → clip_range starts rg ≡ some rg
unfolding clip_range
clip_range-none starts rg h = rw (h, clip_range) refl

clip_range-some :
    (starts : Starts) (rg : Range) (start : ℕ)
    → start_on starts rg.value ≡ some start
    → clip_range starts rg ≡ clip_at start rg
unfolding clip_range
clip_range-some starts rg start h = rw (h, clip_range) refl

pub clip_range-IsOwn :
    (starts : Starts) (rg : Range) → OfSome (IsOwn starts rg) (clip_range starts rg)
clip_range-IsOwn starts rg = elim (Option-cases (start_on starts rg.value)) [
  | inl nothing ↦
      rw (clip_range-none starts rg nothing)
        (refl, refl, (λ day k. k), λ day k. before_start-none starts rg.value day nothing)
  | inr (start, e) ↦ rw (clip_range-some starts rg start e) (
      OfSome-map (IsClipped (λ day. ltb day start) rg) (IsOwn starts rg) (clip_at start rg)
        (λ r k. (
          k.0,
          k.1,
          k.2,
          λ day held. sym (before_start-some starts rg.value day start e) ∙ k.3 day held,
        ))
        (clip_at-IsClipped start rg))
]

-- What holds of every range's clipped range, where there is one, holds of the clipped ranges.
pub clip_ranges-All :
    (P : Range → Type 0) (starts : Starts) (rgs : List Range)
    → All (λ rg. OfSome P (clip_range starts rg)) rgs
    → All P (clip_ranges starts rgs)
unfolding clip_ranges
clip_ranges-All P starts [] h = tt
clip_ranges-All P starts (rg ∷ rgs) h = elim (Option-cases (clip_range starts rg)) [
  | inl nothing ↦ rw (nothing, clip_ranges) (clip_ranges-All P starts rgs h.1)
  | inr (r, e) ↦ rw (e, clip_ranges) (rw e at (h.0), clip_ranges-All P starts rgs h.1)
]
