-- ===== src/Identity/IssuerInForce/Timeline/Additions.antt =====
-- The registrants and the listed company behind a timeline.
use delist_detection.Prelude.{
  ℕ, ◌+◌, ◌≤◌, ◌<◌, ◌≡◌, ◌≢◌, refl, Bool, Option, none, some, List, [], ◌∷◌, arith, inl, inr, Text,
  ◌==◌, min, max, Bool-cases, Option-cases,
}
use delist_detection.Identity.IssuerInForce.Company.{
  Company, FiledDays, agreeing_since, deregistered,
}
use delist_detection.Identity.IssuerInForce.Timeline.{
  Change, Timeline, last?, with_registrants, registered, listed_issuer, listed_day, listed_change,
  with_change,
}
use delist_detection.Identity.IssuerInForce.Timeline.Chain.{IsChain, IsChain-snoc, IsChain-last}

registered-IsChain :
    (o : Option Change) (out : Timeline) (day cik : ℕ)
    → last? out ≡ o
    → IsChain out
    → IsChain (registered o out day cik)
unfolding registered
registered-IsChain none out day cik e h = h
registered-IsChain (some last) out day cik e h = elim (Bool-cases (last.1 == cik)) [
  | inl same ↦ rw same h
  | inr new ↦ rw new (IsChain-snoc out last _ h e (omega arith, λ eq. ground arith))
]

-- Successor registrants keep the days strictly increasing and the neighbours different, on whatever days
-- their registrations were filed.
pub with_registrants-IsChain :
    (out : Timeline) (registrants : List Change)
    → IsChain out
    → IsChain (with_registrants out registrants)
unfolding with_registrants
with_registrants-IsChain out [] h = h
with_registrants-IsChain out ((day, cik) ∷ registrants) h =
    with_registrants-IsChain (registered (last? out) out day cik) registrants
      (registered-IsChain (last? out) out day cik refl h)

-- The day of the listed company's change lies behind `after`, unless the run date is earlier.
listed_day_bounds :
    (since : Option ℕ) (after on : ℕ) (gone_from : ℕ → Option ℕ) (day : ℕ)
    → listed_day since after on gone_from ≡ some day
    → (min after on ≤ day) × (day ≤ on)
unfolding listed_day
listed_day_bounds none after on gone_from day e = ground arith
listed_day_bounds (some since) after on gone_from day e =
    ground (arith, gone_from (max since after))

module _ (names_agree : Text → Text → Bool) (submissions : ℕ → Option Company)
    (filed : FiledDays) where
  -- What a change to the listed company is: another CIK than the last one, not before the day behind the
  -- last sighting and the last change, unless that is after the run date.
  listed_change_lem :
      (sub : Option Company) (last n : Change) (listed : ℕ) (name : Text) (on last_sighting : ℕ)
      → listed_change names_agree submissions filed sub (some last) listed name on last_sighting
        ≡ some n
      → (last.1 ≢ n.1) × (min (max last_sighting last.0 + 1) on ≤ n.0) × (n.0 ≤ on)
  unfolding listed_change
  listed_change_lem none last n listed name on last_sighting e = absurd (ground arith)
  listed_change_lem (some sub) last n listed name on last_sighting e =
      let same =
        listed_day_bounds (agreeing_since names_agree sub name on) (max last_sighting last.0 + 1) on
          (λ took. deregistered filed last.1 took on) in
      ground (arith, same n.0)

  no_last :
      (out : Timeline) (sub : Option Company) (listed : ℕ) (name : Text) (on last_sighting : ℕ)
      (n : Change)
      → last? out ≡ none
      → listed_change names_agree submissions filed sub (last? out) listed name on last_sighting
        ≡ some n
      → ⊥
  unfolding listed_change
  no_last out none listed name on last_sighting n empty new = ground arith
  no_last out (some sub) listed name on last_sighting n empty new =
      absurd (ground (arith, rw empty at new))

  changed-IsChain :
      (out : Timeline) (sub : Option Company) (listed : ℕ) (name : Text) (on last_sighting : ℕ)
      → IsChain out
      → ((c : Change) → last? out ≡ some c → c.0 < on)
      → IsChain (
          with_change out (
            listed_change names_agree submissions filed sub
              (last? out)
              listed
              name
              on
              last_sighting))
  unfolding with_change
  changed-IsChain out sub listed name on last_sighting h early =
      elim (Option-cases (
        listed_change names_agree submissions filed sub (last? out) listed name on last_sighting)) [
          | inl kept ↦ rw kept h
          | inr (n, new) ↦ elim (Option-cases (last? out)) [
            | inl empty ↦ absurd (no_last out sub listed name on last_sighting n empty new)
            | inr (c, ends) ↦
                let (other, low, high) =
                  listed_change_lem sub c n listed name on last_sighting (rw ends at new) in
                let before = early c ends in
                rw new (IsChain-snoc out c n h ends (omega (arith, low, before), other))
          ]
        ]

  -- The company that SEC lists the ticker under keeps the days strictly increasing and the neighbours
  -- different, as long as the timeline's last change is before the run date.
  pub listed_issuer-IsChain :
      (out : Timeline) (listed : Option ℕ) (name : Text) (on last_sighting : ℕ)
      → IsChain out
      → ((c : Change) → last? out ≡ some c → c.0 < on)
      → IsChain (listed_issuer names_agree submissions filed out listed name on last_sighting)
  unfolding listed_issuer
  listed_issuer-IsChain out none name on last_sighting h early = h
  listed_issuer-IsChain out (some listed) [] on last_sighting h early = h
  listed_issuer-IsChain out (some listed) (c ∷ name) on last_sighting h early =
      changed-IsChain out (submissions listed) listed (c ∷ name) on last_sighting h early

  -- A timeline whose last change is on the run date is no longer strictly increasing once the company that
  -- SEC lists the ticker under is put behind it.
  pub listed_issuer-same_day :
      (out : Timeline) (listed : Option ℕ) (name : Text) (on last_sighting cik : ℕ)
      → last? out ≡ some (on, cik)
      → listed_issuer names_agree submissions filed out listed name on last_sighting ≢ out
      → ¬ IsChain (listed_issuer names_agree submissions filed out listed name on last_sighting)
  unfolding listed_issuer with_change
  listed_issuer-same_day out none name on last_sighting cik ends changed chain = changed refl
  listed_issuer-same_day out (some listed) [] on last_sighting cik ends changed chain = changed refl
  listed_issuer-same_day out (some listed) (c ∷ name) on last_sighting cik ends changed chain =
      elim (Option-cases (
        listed_change names_agree submissions filed (submissions listed) (last? out) listed
          (c ∷ name) on last_sighting)) [
            | inl kept ↦ changed (rw kept refl)
            | inr (n, new) ↦
                let (other, low, high) =
                  listed_change_lem (submissions listed) (on, cik) n listed (c ∷ name) on
                    last_sighting (rw ends at new) in
                let later : on < n.0 = IsChain-last out (on, cik) n (rw new at chain) ends in
                omega (arith, high, later)
          ]
