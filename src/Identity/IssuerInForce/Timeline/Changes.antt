-- ===== src/Identity/IssuerInForce/Timeline/Changes.antt =====
-- The timeline that `issuer_changes` makes of one security's sightings.
use mathlib.Core.List.{Memᴰ}
use delist_detection.Prelude.{
  ℕ, ◌≤◌, ◌<◌, ◌≡◌, ◌≢◌, refl, Bool, true, false, not, ◌&&◌, Option, none, some, List, [], ◌∷◌,
  ◌++◌, arith, Text, ltb, ◌==◌, if_ind, All, All-map, All-append, All-self, All-sort_with,
  sort_with, IsSortedBy, sort_with-IsSortedBy,
}
use delist_detection.Identity.IssuerInForce.Company.{Company, FiledDays}
use delist_detection.Identity.IssuerInForce.InForce.{Sighting, in_force}
use delist_detection.Identity.IssuerInForce.Timeline.{
  Change, Timeline, last?, Loop, sighting_before, change_day, extended, visit_cik, visit_in, visit,
  run, issuer_timeline,
}
use delist_detection.Identity.IssuerInForce.Timeline.Chain.{IsChain, IsChain-snoc, last?-snoc}

before_le : (s t : Sighting) → sighting_before s t ≡ true → s.day ≤ t.day
unfolding sighting_before
before_le s t h = ground arith

not_before_le : (s t : Sighting) → sighting_before s t ≡ false → t.day ≤ s.day
unfolding sighting_before
not_before_le s t h = ground arith

zero_le : (rows : List Sighting) → All (λ s. 0 ≤ s.day) rows
zero_le [] = tt
zero_le (s ∷ rows) = (omega arith, zero_le rows)

module _ (names_agree : Text → Text → Bool) (submissions : ℕ → Option Company)
    (exact_names : Text → List ℕ) (filed : FiledDays) where
  -- A change is dated after the last sighting before it and no later than the sighting that shows it.
  change_day_bounds :
      (previous cik : ℕ) (name : Text) (last_day on : ℕ)
      → last_day < on
      → (last_day
          < change_day names_agree submissions exact_names filed previous cik name last_day on)
        × (change_day names_agree submissions exact_names filed previous cik name last_day on ≤ on)
  unfolding change_day
  change_day_bounds previous cik name last_day on h = ground arith

  -- Some sighting of `rows` has the change's CIK in force, on the day of the change or later.
  abbrev pub IsShown : List Sighting → Change → Type 0
  IsShown rows c =
      (s : Sighting) × Memᴰ s rows
      × (in_force names_agree submissions exact_names filed s ≡ some c.1)
      × (c.0 ≤ s.day)

  -- The timeline so far, whose sightings are of `bound` at the latest.
  record Inv (rows : List Sighting) (bound : ℕ) (t : Timeline) : Type 0 where
    chain : IsChain t
    shown : All (IsShown rows) t
    settled : (c : Change) → last? t ≡ some c → c.0 ≤ bound

  module _ (rows : List Sighting) (s : Sighting) (cik : ℕ)
      (e : in_force names_agree submissions exact_names filed s ≡ some cik) (m : Memᴰ s rows) where
    Inv-first : Inv rows s.day ((s.day, cik) ∷ [])
    Inv-first = record {
      chain = tt;
      shown = ((s, m, e, omega arith), tt);
      settled = λ c h. ground arith;
    }

    -- A change later than every sighting so far.
    Inv-snoc :
        (bound day : ℕ) (t : Timeline) (last : Change)
        → last? t ≡ some last
        → bound < day
        → day ≤ s.day
        → last.1 ≢ cik
        → Inv rows bound t
        → Inv rows s.day (t ++ (day, cik) ∷ [])
    Inv-snoc bound day t last found later shown_by new inv = record {
      chain =
          IsChain-snoc t last (day, cik) inv.chain found
            (omega (arith, inv.settled last found), new);
      shown = All-append (IsShown rows) t ((day, cik) ∷ []) inv.shown ((s, m, e, shown_by), tt);
      settled = λ c h. ground (arith, last?-snoc t (day, cik));
    }

    Inv-later : (bound : ℕ) (t : Timeline) → bound ≤ s.day → Inv rows bound t → Inv rows s.day t
    Inv-later bound t le inv = record {
      chain = inv.chain;
      shown = inv.shown;
      settled = λ c h. omega (arith, inv.settled c h);
    }

    extended-Inv :
        (o : Option Change) (bound : ℕ) (t : Timeline)
        → last? t ≡ o
        → bound ≤ s.day
        → Inv rows bound t
        → Inv rows s.day (extended names_agree submissions exact_names filed o t bound s cik)
    unfolding extended
    extended-Inv none bound t found le inv = Inv-first
    extended-Inv (some last) bound t found le inv =
        if_ind (Inv rows s.day) (ltb bound s.day && not (cik == last.1)) _ t
          (λ new.
            let (later, by) = change_day_bounds last.1 cik s.name bound s.day (ground arith) in
            Inv-snoc bound _ t last found later by (λ same. ground arith) inv)
          (λ _. Inv-later bound t le inv)

  visit_in-Inv :
      (all : List Sighting) (l : Loop) (s : Sighting) (o : Option ℕ)
      → in_force names_agree submissions exact_names filed s ≡ o
      → Memᴰ s all
      → l.last_day ≤ s.day
      → Inv all l.last_day l.timeline
      → ((visit_in names_agree submissions exact_names filed o l s).last_day ≤ s.day)
        × Inv all
            (visit_in names_agree submissions exact_names filed o l s).last_day
            (visit_in names_agree submissions exact_names filed o l s).timeline
  unfolding visit_in visit_cik
  visit_in-Inv all l s none e m le inv = (le, inv)
  visit_in-Inv all l s (some cik) e m le inv =
      (omega arith, extended-Inv all s cik e m (last? l.timeline) l.last_day l.timeline refl le inv)

  run-Inv :
      (all rows : List Sighting) (l : Loop)
      → All (λ s. Memᴰ s all) rows
      → IsSortedBy (λ s. s.day) rows
      → All (λ s. l.last_day ≤ s.day) rows
      → Inv all l.last_day l.timeline
      → (bound : ℕ) × Inv all bound (run names_agree submissions exact_names filed l rows).timeline
  unfolding run visit
  run-Inv all [] l m sorted le inv = (l.last_day, inv)
  run-Inv all (s ∷ rows) l m sorted le inv =
      let (by, inv') =
        visit_in-Inv all l s (in_force names_agree submissions exact_names filed s) refl m.0 le.0
          inv in
      run-Inv all rows (visit names_agree submissions exact_names filed l s) m.1 sorted.1
        (All-map (λ z. s.day ≤ z.day)
          (λ z. (visit names_agree submissions exact_names filed l s).last_day ≤ z.day)
          (λ z h. omega (arith, by)) rows sorted.0)
        inv'

  -- The days of an issuer timeline strictly increase, neighbours are different issuers, and each change
  -- is shown by a sighting of its day or later whose CIK in force is the new one, whatever the order of
  -- the sightings and whatever EDGAR answers.
  pub issuer_timeline-IsChain :
      (rows : List Sighting)
      → IsChain (issuer_timeline names_agree submissions exact_names filed rows)
        × All (IsShown rows) (issuer_timeline names_agree submissions exact_names filed rows)
  unfolding issuer_timeline
  issuer_timeline-IsChain rows =
      let sorted = sort_with sighting_before rows in
      let (bound, inv) =
        run-Inv rows sorted (record { timeline = []; last_day = 0 })
          (All-sort_with sighting_before (λ s. Memᴰ s rows) rows (All-self rows))
          (sort_with-IsSortedBy sighting_before (λ s. s.day) before_le not_before_le rows)
          (zero_le sorted) (record { chain = tt; shown = tt; settled = λ c h. ground arith }) in
      (inv.chain, inv.shown)
