-- ===== src/Identity/IssuerInForce/Company.antt =====
-- What EDGAR says of a company: the names it carried, and the days it filed.
use delist_detection.Prelude.{
  ℕ, ◌+◌, Bool, true, false, ◌&&◌, ◌||◌, Option, none, some, List, [], ◌∷◌, ◌++◌, Text, codes,
  text_le, leb, ltb, ◌==◌, sort_with, if◌then◌else◌,
}

-- An entry of `formerNames`, its days as `parse_day` reads them (`none`: no day).
pub record FormerName : Type 0 where
  pub from : Option ℕ
  pub to : Option ℕ
  pub name : Text

-- A CIK's submissions JSON, as far as it is read here.
pub record Company : Type 0 where
  pub former_names : List FormerName
  pub name : Text

-- `lo and hi and lo <= on <= hi`
covers : FormerName → ℕ → Bool
covers f on = elim f.from [
  | none ↦ false
  | some lo ↦ elim f.to [ none ↦ false | some hi ↦ leb lo on && leb on hi ]
]

name_among : List FormerName → Text → ℕ → Text
name_among [] current on = current
name_among (f ∷ fs) current on =
    let rest = name_among fs current on in if covers f on then f.name else rest

-- `name_at` of filings/evidence.py
unfoldable pub name_at : Company → ℕ → Text
unfolding name_among covers
name_at sub on = name_among sub.former_names sub.name on

-- A name with the days it was in force; `none` is an open end.
pub record Span : Type 0 where
  pub lo : Option ℕ
  pub hi : Option ℕ
  pub name : Text

-- The order of `(lo, hi, name)` tuples of dated names.
span_before : (ℕ × ℕ × Text) → (ℕ × ℕ × Text) → Bool
span_before (l, h, n) (l', h', n') =
    ltb l l' || (l == l') && (ltb h h' || (h == h') && text_le n n')

-- The dated entries of `formerNames`.
dated : List FormerName → List (ℕ × ℕ × Text)
dated [] = []
dated (f ∷ fs) =
    let rest = dated fs in
    elim f.from [
      | none ↦ rest
      | some lo ↦ elim f.to [ none ↦ rest | some hi ↦ (lo, hi, f.name) ∷ rest ]
    ]

-- The spans of the dated names; `start` is the day after the last one's end.
spans_from : List (ℕ × ℕ × Text) → Option ℕ → Text → List Span
spans_from [] start current = record { lo = start; hi = none; name = current } ∷ []
spans_from ((lo, hi, name) ∷ rest) start current =
    record { lo = some lo; hi = some hi; name = name } ∷ spans_from rest (some (hi + 1)) current

-- `_spans`
unfoldable pub spans : Company → List Span
unfolding spans_from span_before dated
spans sub = spans_from (sort_with span_before (dated sub.former_names)) none sub.name

module _ (names_agree : Text → Text → Bool) where
  -- The `while` loop of `agreeing_since`, over the spans before the one in force, latest first.
  walk_back : Text → Option ℕ → List Span → Option ℕ
  walk_back name lo [] = lo
  walk_back name lo (s ∷ earlier) =
      let further = walk_back name s.lo earlier in if names_agree s.name name then further else lo

  in_span : Span → ℕ → Bool
  in_span s on =
      elim s.lo [ none ↦ true | some lo ↦ leb lo on ]
      && elim s.hi [ none ↦ true | some hi ↦ leb on hi ]

  -- The first span that holds `on`, with `earlier` the spans before it, latest first.
  since_from : Text → ℕ → List Span → List Span → Option ℕ
  since_from name on earlier [] = none
  since_from name on earlier (s ∷ later) =
      let further = since_from name on (s ∷ earlier) later in
      if in_span s on
      then (if names_agree s.name name then walk_back name s.lo earlier else none)
      else further

  unfoldable pub agreeing_since : Company → Text → ℕ → Option ℕ
  unfolding since_from walk_back in_span
  agreeing_since sub name on = since_from name on [] (spans sub)

-- `Filed`: the days of a CIK's latest filings whose form starts with a prefix.
abbrev pub FiledDays : Type 0
FiledDays = ℕ → Text → Option (List ℕ)

abbrev pub registrant_forms : List Text
registrant_forms =
    codes "10-K"
    ∷ codes "10-Q"
    ∷ codes "8-K"
    ∷ codes "20-F"
    ∷ codes "40-F"
    ∷ codes "6-K"
    ∷ codes "N-CSR"
    ∷ []

abbrev pub filing_days : ℕ
filing_days = 400

-- The loop of `_filing_around`: `none` where a form's days are not known.
own_days : FiledDays → ℕ → List Text → Option (List ℕ)
own_days filed cik [] = some []
own_days filed cik (form ∷ forms) = elim (filed cik form) [
  | none ↦ none
  | some found ↦ elim (own_days filed cik forms) [ none ↦ none | some days ↦ some (found ++ days) ]
]

-- The latest of the days, if there is one, is no earlier than `on - FILING_DAYS`.
recent_enough : ℕ → List ℕ → Bool
recent_enough on [] = false
recent_enough on (d ∷ ds) = leb on (d + filing_days) || recent_enough on ds

-- `_filing_around`
pub filing_around : FiledDays → ℕ → ℕ → Bool
unfolding own_days recent_enough
filing_around filed cik on = elim (own_days filed cik registrant_forms) [
  | none ↦ true
  | some days ↦ recent_enough on days
]

earliest_in : ℕ → ℕ → List ℕ → Option ℕ
earliest_in lo hi [] = none
earliest_in lo hi (d ∷ ds) =
    let rest = earliest_in lo hi ds in
    if leb lo d && leb d hi
    then elim rest [ none ↦ some d | some e ↦ some (if leb d e then d else e) ]
    else rest

known_days : Option (List ℕ) → List ℕ
known_days none = []
known_days (some days) = days

-- `_deregistered`
unfoldable pub deregistered : FiledDays → ℕ → ℕ → ℕ → Option ℕ
unfolding earliest_in known_days
deregistered filed cik lo hi =
    earliest_in lo hi (known_days (filed cik (codes "25")) ++ known_days (filed cik (codes "15")))
