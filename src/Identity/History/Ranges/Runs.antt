-- ===== src/Identity/History/Ranges/Runs.antt =====
-- The runs of days that `ranges_from_sightings` (identity/history.py) makes ranges of.

use delist_detection.Prelude.{
  ℕ, ◌+◌, ◌≤◌, ◌<◌, ◌≡◌, ◌≢◌, refl, ◌∙◌, Bool, true, false, Option, none, some, List, [], ◌∷◌, inl,
  inr, arith, Text, text_eq, text_eq_refl, text_eq→eq, All, Bool-cases,
}
use delist_detection.Identity.History.Ranges.{
  Sighting, DaySightings, chosen, opened, extended, Run, runs_on, runs,
}
use delist_detection.Identity.History.Ranges.Days.{AreDays, FromDay, AreDays-tail, IsOf, chosen-lem}

module _ (P : Sighting → Type 0) (observed : Text → Bool) where
  -- The run's value was sighted on its first day.
  abbrev pub IsShown : Text → ℕ → Type 0
  IsShown v day = (s : Sighting) × P s × (s.day ≡ day) × (s.value ≡ v)

  abbrev pub IsRun : Run → Type 0
  IsRun r = (r.first ≤ r.last) × IsShown r.value r.first × IsShown r.value r.last

  -- The runs in order: each ends before the next one begins, under another value.
  abbrev pub AreRuns : List Run → Type 0
  AreRuns [] = Unit
  AreRuns (r ∷ []) = IsRun r
  AreRuns (r ∷ s ∷ rest) = IsRun r × (r.last < s.first) × (r.value ≢ s.value) × AreRuns (s ∷ rest)

  opened-IsRun :
      (running : Option Text) (g : DaySightings) → IsOf P g → IsRun (opened observed running g)
  unfolding opened
  opened-IsRun running g h =
      let shown = chosen-lem P observed running g h in (omega arith, shown, shown)

  extended-IsRun :
      (r : Run) (g : DaySightings)
      → IsRun r
      → r.last < g.day
      → IsOf P g
      → text_eq (chosen observed (some r.value) g) r.value ≡ true
      → IsRun (extended r g)
  unfolding extended
  extended-IsRun r g h later k e =
      let (s, p, day, value) = chosen-lem P observed (some r.value) g k in
      let le = h.0 in (omega (arith, le, later), h.1, (s, p, day, value ∙ text_eq→eq _ _ e))

  -- The runs from `r` on: the first of them begins where `r` does, under its value.
  abbrev AreRunsFrom : Run → List Run → Type 0
  AreRunsFrom r [] = ⊥
  AreRunsFrom r (s ∷ rest) = (s.first ≡ r.first) × (s.value ≡ r.value) × AreRuns (s ∷ rest)

  AreRunsFrom-cons :
      (r s : Run) (rest : List Run)
      → IsRun r
      → r.last < s.first
      → r.value ≢ s.value
      → AreRunsFrom s rest
      → AreRunsFrom r (r ∷ rest)
  AreRunsFrom-cons r s [] h later other k = absurd k
  AreRunsFrom-cons r s (t ∷ rest) h later other k =
      (refl, refl, (h, rw (k.0) later, (λ e. other (e ∙ k.1)), k.2))

  differs : (v w : Text) → text_eq v w ≡ false → w ≢ v
  differs v w h e = let self = text_eq_refl v in absurd (ground (arith, rw e at h, self))

  runs_on-nil : (r : Run) → runs_on observed r [] ≡ r ∷ []
  unfolding runs_on
  runs_on-nil r = refl

  runs_on-same :
      (r : Run) (g : DaySightings) (gs : List DaySightings)
      → text_eq (chosen observed (some r.value) g) r.value ≡ true
      → runs_on observed r (g ∷ gs) ≡ runs_on observed (extended r g) gs
  unfolding runs_on
  runs_on-same r g gs e = rw (e, runs_on)

  runs_on-new :
      (r : Run) (g : DaySightings) (gs : List DaySightings)
      → text_eq (chosen observed (some r.value) g) r.value ≡ false
      → runs_on observed r (g ∷ gs) ≡ r ∷ runs_on observed (opened observed (some r.value) g) gs
  unfolding runs_on
  runs_on-new r g gs e = rw (e, runs_on)

  runs_on-AreRuns :
      (r : Run) (gs : List DaySightings)
      → IsRun r
      → FromDay (r.last + 1) gs
      → AreDays gs
      → All (IsOf P) gs
      → AreRunsFrom r (runs_on observed r gs)
  unfolding opened extended
  runs_on-AreRuns r [] h later days of = rw (runs_on-nil r) (refl, refl, h)
  runs_on-AreRuns r (g ∷ gs) h later days of =
      let (tail, behind) = AreDays-tail g gs days in
      elim (Bool-cases (text_eq (chosen observed (some r.value) g) r.value)) [
        | inl goes_on ↦ rw (runs_on-same r g gs goes_on) (
            runs_on-AreRuns (extended r g) gs
              (extended-IsRun r g h (omega (arith, later)) of.0 goes_on) behind tail of.1)
        | inr new ↦ rw (runs_on-new r g gs new) (
            AreRunsFrom-cons r (opened observed (some r.value) g)
              (runs_on observed (opened observed (some r.value) g) gs) h (omega (arith, later))
              (differs (chosen observed (some r.value) g) r.value new)
              (runs_on-AreRuns (opened observed (some r.value) g) gs
                (opened-IsRun (some r.value) g of.0) behind tail of.1))
      ]

  AreRunsFrom-AreRuns : (r : Run) (rs : List Run) → AreRunsFrom r rs → AreRuns rs
  AreRunsFrom-AreRuns r [] h = absurd h
  AreRunsFrom-AreRuns r (s ∷ rest) h = h.2

  opened_last :
      (running : Option Text) (g : DaySightings) (gs : List DaySightings)
      → FromDay (g.day + 1) gs
      → FromDay ((opened observed running g).last + 1) gs
  unfolding opened
  opened_last running g gs h = h

  pub runs-AreRuns :
      (gs : List DaySightings) → AreDays gs → All (IsOf P) gs → AreRuns (runs observed gs)
  unfolding runs
  runs-AreRuns [] days of = tt
  runs-AreRuns (g ∷ gs) days of =
      let (tail, behind) = AreDays-tail g gs days in
      AreRunsFrom-AreRuns (opened observed none g) (runs_on observed (opened observed none g) gs) (
        runs_on-AreRuns (opened observed none g) gs (opened-IsRun none g of.0)
          (opened_last none g gs behind) tail of.1)
