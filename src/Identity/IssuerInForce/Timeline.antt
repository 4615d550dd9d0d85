-- ===== src/Identity/IssuerInForce/Timeline.antt =====
-- `issuer_changes`, `with_registrants` and `listed_issuer`: a security's issuer timeline.
mod Chain
pub mod Changes
pub mod Additions
mod Examples
use delist_detection.Prelude.{
  ℕ, ◌+◌, Bool, not, ◌&&◌, ◌||◌, Option, none, some, List, [], ◌∷◌, ◌++◌, Text, ◌==◌, ltb, max, min,
  text_le, decimal, text_eq, sort_with, if◌then◌else◌,
}
use delist_detection.Identity.IssuerInForce.Company.{
  Company, FiledDays, agreeing_since, deregistered,
}
use delist_detection.Identity.IssuerInForce.InForce.{Sighting, in_force, agrees_on}

-- A change of the issuer: the day it is in force from, and its CIK.
abbrev pub Change : Type 0
Change = ℕ × ℕ

abbrev pub Timeline : Type 0
Timeline = List Change

-- `timeline[-1]`
abbrev pub last? : Timeline → Option Change
last? [] = none
last? (c ∷ []) = some c
last? (c ∷ d ∷ rest) = last? (d ∷ rest)

-- `str(cik)`, with the unknown CIK the blank text.
cik_text : Option ℕ → Text
cik_text none = []
cik_text (some cik) = decimal cik

-- The order of `(day, cik, name)`.
pub sighting_before : Sighting → Sighting → Bool
unfolding cik_text
sighting_before s t =
    ltb s.day t.day
    || (s.day == t.day)
      && (text_le (cik_text s.cik) (cik_text t.cik)
          && (not (text_eq (cik_text s.cik) (cik_text t.cik)) || text_le s.name t.name))

-- The loop's variables; `last_day` is read only where the timeline is not empty.
pub record Loop : Type 0 where
  pub timeline : Timeline
  pub last_day : ℕ

module _ (names_agree : Text → Text → Bool) (submissions : ℕ → Option Company)
    (exact_names : Text → List ℕ) (filed : FiledDays) where
  since_of : ℕ → Text → ℕ → Option ℕ
  since_of cik name on = elim (submissions cik) [
    | none ↦ none
    | some sub ↦ agreeing_since names_agree sub name on
  ]

  -- The day that a change on a sighting of day `on` is dated, with `previous` the CIK in force until then.
  change_day : (previous cik : ℕ) → Text → (last_day on : ℕ) → ℕ
  unfolding since_of
  change_day previous cik name last_day on =
      let after = last_day + 1 in
      elim (since_of cik name on) [
        | none ↦ min (max on after) on
        | some since ↦
            let day = max since after in
            min
              (elim (deregistered filed previous after on) [
                | none ↦ day
                | some gone ↦ max day gone
              ])
              on
      ]

  -- The timeline after a sighting whose CIK in force is `cik`, `last` being its last change so far.
  extended : Option Change → Timeline → ℕ → Sighting → ℕ → Timeline
  unfolding change_day
  extended none timeline last_day s cik = (s.day, cik) ∷ []
  extended (some last) timeline last_day s cik =
      if ltb last_day s.day && not (cik == last.1)
      then timeline ++ (change_day last.1 cik s.name last_day s.day, cik) ∷ []
      else timeline

  -- The loop's body.
  visit_cik : Loop → Sighting → ℕ → Loop
  unfolding extended
  visit_cik l s cik = record {
    timeline = extended (last? l.timeline) l.timeline l.last_day s cik;
    last_day = s.day;
  }

  -- A sighting with no CIK in force changes nothing.
  visit_in : Option ℕ → Loop → Sighting → Loop
  unfolding visit_cik
  visit_in none l s = l
  visit_in (some cik) l s = visit_cik l s cik

  visit : Loop → Sighting → Loop
  unfolding visit_in
  visit l s = visit_in (in_force names_agree submissions exact_names filed s) l s

  run : Loop → List Sighting → Loop
  run l [] = l
  run l (s ∷ rows) = run (visit l s) rows

  -- The timeline of one security's sightings.
  pub issuer_timeline : List Sighting → Timeline
  unfolding run visit
  issuer_timeline rows =
      (run (record { timeline = []; last_day = 0 }) (sort_with sighting_before rows)).timeline

-- The timeline after a registrant, `last` being its last change so far.
registered : Option Change → Timeline → (day cik : ℕ) → Timeline
registered none out day cik = out
registered (some last) out day cik =
    if last.1 == cik then out else out ++ (max day (last.0 + 1), cik) ∷ []

-- `with_registrants`: the registrants as (day, CIK).
pub with_registrants : Timeline → List Change → Timeline
unfolding registered
with_registrants out [] = out
with_registrants out ((day, cik) ∷ registrants) =
    with_registrants (registered (last? out) out day cik) registrants

-- The day from which `listed` is in force, if something dates the change.
listed_day : Option ℕ → (after on : ℕ) → (ℕ → Option ℕ) → Option ℕ
listed_day none after on gone_from = elim (gone_from after) [
  | none ↦ none
  | some gone ↦ some (min (max after gone) on)
]
listed_day (some since) after on gone_from =
    let took = max since after in
    elim (gone_from took) [
      | none ↦ some (min (max took took) on)
      | some gone ↦ some (min (max took gone) on)
    ]

-- `[*out, change]`, or the timeline as it is.
with_change : Timeline → Option Change → Timeline
with_change out none = out
with_change out (some change) = out ++ change ∷ []

module _ (names_agree : Text → Text → Bool) (submissions : ℕ → Option Company)
    (filed : FiledDays) where
  -- The change to the listed company, from the company's submissions and the timeline's last change.
  listed_change : Option Company → Option Change → ℕ → Text → (on last_sighting : ℕ) → Option Change
  unfolding listed_day
  listed_change none last listed name on last_sighting = none
  listed_change (some sub) none listed name on last_sighting = none
  listed_change (some sub) (some last) listed name on last_sighting =
      if (listed == last.1) || not (agrees_on names_agree (some sub) on name)
      then none
      else elim (listed_day (agreeing_since names_agree sub name on) (max last_sighting last.0 + 1)
          on (λ took. deregistered filed last.1 took on)) [
            | none ↦ none
            | some day ↦ some (day, listed)
          ]

  pub listed_issuer : Timeline → Option ℕ → Text → (on last_sighting : ℕ) → Timeline
  unfolding listed_change with_change
  listed_issuer out none name on last_sighting = out
  listed_issuer out (some listed) [] on last_sighting = out
  listed_issuer out (some listed) (c ∷ name) on last_sighting =
      with_change out
        (listed_change (submissions listed) (last? out) listed (c ∷ name) on last_sighting)
