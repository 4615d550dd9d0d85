-- ===== src/Identity/IssuerInForce/Timeline/Examples.antt =====
-- Sightings at which the issuer timelines of identity/issuer_in_force.py are tested.
use delist_detection.Prelude.{
  ◌≡◌, ◌≢◌, ◌<◌, ℕ, refl, arith, Option, none, some, List, [], ◌∷◌, All, Text, codes, text_eq, ◌==◌,
  if◌then◌else◌,
}
use delist_detection.Identity.IssuerInForce.Company.{
  Company, FiledDays, agreeing_since, deregistered, name_at, spans,
}
use delist_detection.Identity.IssuerInForce.InForce.{Sighting, agrees_on}
use delist_detection.Identity.IssuerInForce.Timeline.{
  Change, Timeline, last?, issuer_timeline, with_registrants, listed_issuer, listed_change,
  with_change, listed_day,
}
use delist_detection.Identity.IssuerInForce.Timeline.Chain.{IsChain}
use delist_detection.Identity.IssuerInForce.Timeline.Changes.{IsShown, issuer_timeline-IsChain}
use delist_detection.Identity.IssuerInForce.Timeline.Additions.{
  with_registrants-IsChain, listed_issuer-same_day,
}

abbrev companies : ℕ → Option Company
companies cik =
    if cik == 7
    then some (record { former_names = []; name = codes "OLD CO" })
    else if cik == 8
    then some (record { former_names = []; name = codes "NEW CO" })
    else none

abbrev named : Text → List ℕ
named name = if text_eq name (codes "NEW CO") then 8 ∷ [] else []

abbrev quarterlies : FiledDays
quarterlies cik form = some (if text_eq form (codes "10-Q") then 735100 ∷ [] else [])

-- The security is seen under the old name, then under the new one with the old CIK still on the row.
abbrev sightings : List Sighting
sightings =
    record { day = 735050; name = codes "NEW CO"; cik = some 7 }
    ∷ record { day = 735000; name = codes "OLD CO"; cik = some 7 }
    ∷ []

issuer_timeline-IsChain_example :
    IsChain (issuer_timeline text_eq companies named quarterlies sightings)
    × All
        (IsShown text_eq companies named quarterlies sightings)
        (issuer_timeline text_eq companies named quarterlies sightings)
issuer_timeline-IsChain_example =
    issuer_timeline-IsChain text_eq companies named quarterlies sightings

two_changes : IsChain ((735000, 7) ∷ (735050, 8) ∷ [])
two_changes = ((omega arith, λ e. absurd (omega (arith, e))), tt)

with_registrants-IsChain_example :
    IsChain (with_registrants ((735000, 7) ∷ (735050, 8) ∷ []) ((735010, 9) ∷ []))
with_registrants-IsChain_example =
    with_registrants-IsChain ((735000, 7) ∷ (735050, 8) ∷ []) ((735010, 9) ∷ []) two_changes

-- SEC lists the ticker under 8, which has carried the name since day 735020.
abbrev renamed : ℕ → Option Company
renamed cik =
    if cik == 8
    then some (record {
      former_names = record { from = some 730000; to = some 735019; name = codes "SHELL" } ∷ [];
      name = codes "NEW CO";
    })
    else none

before_run : (c : Change) → last? ((735000, 7) ∷ []) ≡ some c → c.0 < 735060
before_run c e = ground arith

takes_over :
    listed_issuer text_eq renamed quarterlies
      ((735060, 7) ∷ [])
      (some 8)
      (codes "NEW CO")
      735060
      735060
    ≡ (735060, 7) ∷ (735060, 8) ∷ []
unfolding listed_issuer listed_change with_change listed_day agreeing_since deregistered agrees_on
    name_at spans
takes_over = refl

abbrev same_day : Timeline
same_day = (735060, 7) ∷ []

abbrev grown : Timeline
grown = (735060, 7) ∷ (735060, 8) ∷ []

differs : grown ≢ same_day
differs e = ground arith

listed_issuer-same_day_example : ¬ IsChain (
    listed_issuer text_eq renamed quarterlies
      ((735060, 7) ∷ [])
      (some 8)
      (codes "NEW CO")
      735060
      735060)
listed_issuer-same_day_example =
    listed_issuer-same_day text_eq renamed quarterlies ((735060, 7) ∷ []) (some 8) (codes "NEW CO")
      735060 735060 7 refl (λ e. differs (rw takes_over at e))
