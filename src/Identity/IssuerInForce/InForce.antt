-- ===== src/Identity/IssuerInForce/InForce.antt =====
-- `in_force`: the CIK in force on a sighting's day. `names_agree` (vocabulary/names.py) and the injected
-- reads `submissions`, `exact_names` and `filed` are parameters.
use delist_detection.Prelude.{
  ℕ, Bool, false, ◌&&◌, ◌||◌, Option, none, some, List, [], ◌∷◌, Text, ◌==◌, any, filter, sorted_by,
  if◌then◌else◌,
}
use delist_detection.Identity.IssuerInForce.Company.{Company, FiledDays, name_at, filing_around}

pub record Sighting : Type 0 where
  pub day : ℕ
  pub name : Text
  pub cik : Option ℕ

-- `set(ciks) - {own}`, in order.
others : ℕ → List ℕ → List ℕ
others own [] = []
others own (c ∷ cs) =
    let rest = others own cs in if (c == own) || any (λ d. d == c) rest then rest else c ∷ rest

-- The company carries an agreeing name on the day.
unfoldable pub agrees_on : (Text → Text → Bool) → Option Company → ℕ → Text → Bool
agrees_on names_agree none on name = false
agrees_on names_agree (some sub) on name = names_agree (name_at sub on) name

module _ (names_agree : Text → Text → Bool) (submissions : ℕ → Option Company)
    (exact_names : Text → List ℕ) (filed : FiledDays) where
  candidate : ℕ → Text → ℕ → Bool
  unfolding agrees_on
  candidate on name cik =
      agrees_on names_agree (submissions cik) on name && filing_around filed cik on

  -- `str(agreeing[0]) if len(agreeing) == 1 else s.cik`
  only : List ℕ → ℕ → ℕ
  only (c ∷ []) own = c
  only _ own = own

  -- The CIK of a sighting that has a CIK and a name.
  resolved : ℕ → Text → ℕ → ℕ
  unfolding candidate only others
  resolved on name own = elim (submissions own) [
    | none ↦ own
    | some sub ↦
        if names_agree (name_at sub on) name
        then own
        else only (filter (candidate on name) (sorted_by (λ c. c) (others own (exact_names name))))
            own
  ]

  pub in_force : Sighting → Option ℕ
  unfolding resolved
  in_force s = elim s.cik [
    | none ↦ none
    | some own ↦ elim s.name [ [] ↦ some own | c ∷ cs ↦ some (resolved s.day s.name own) ]
  ]
