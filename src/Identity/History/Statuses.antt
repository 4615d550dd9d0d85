-- ===== src/Identity/History/Statuses.antt =====
-- The status of an observation in observation_map.csv, from its security's history (identity/history.py).
mod Examples
use delist_detection.Prelude.{
  ℕ, ◌<◌, ◌≡◌, refl, ap, ◌∙◌, Bool, true, false, ◌&&◌, not, Option, none, some, List, Text, String,
  ltb, ltb→lt, arith, inl, inr, Option-cases, if◌then◌else◌,
}
use delist_detection.Vocabulary.ExitKind.LastTrades.{confirmed, end_day}
use delist_detection.Sources.Ftd.{FtdIndex}
use delist_detection.Identity.History.Backfill.{is_backfilled}
use delist_detection.Identity.History.Endings.{Ending, SecurityEnd, Inputs, end_of}
use delist_detection.Identity.History.Endings.Final.{IsLast, end_of-IsEndBy}

pub data Status : Type 0 where
  unresolved after_unconfirmed_delisting after_delisting in_conflict backfilled_ticker mapped :
      Status

is_past : SecurityEnd → ℕ → Bool
is_past end as_of = not end.listed && elim end.day [ none ↦ false | some day ↦ ltb day as_of ]

-- The rules behind the first one, for a security that is resolved.
status_of : ℕ → Text → SecurityEnd → Bool → List Text → FtdIndex → Status
unfolding is_past
status_of as_of ticker end conflict cusips ftd =
    if is_past end as_of && not end.confirmed
    then after_unconfirmed_delisting
    else if is_past end as_of
    then after_delisting
    else if conflict
    then in_conflict
    else if is_backfilled as_of ticker cusips ftd
    then backfilled_ticker
    else mapped

pub observation_status :
    ℕ → Text → Option String → SecurityEnd → Bool → List Text → FtdIndex → Status
unfolding status_of
observation_status as_of ticker none end conflict cusips ftd = unresolved
observation_status as_of ticker (some sid) end conflict cusips ftd =
    status_of as_of ticker end conflict cusips ftd

-- Read off a status whether it is the one after a confirmed delisting.
is_after : Status → Bool
is_after after_delisting = true
is_after _ = false

after_by :
    (past confirmed conflict backfilled : Bool)
    → is_after (
        if past && not confirmed
        then after_unconfirmed_delisting
        else if past
        then after_delisting
        else if conflict
        then in_conflict
        else if backfilled
        then backfilled_ticker
        else mapped)
      ≡ true
    → (past ≡ true) × (confirmed ≡ true)
unfolding is_after
after_by true true conflict backfilled h = (refl, refl)
after_by true false conflict backfilled h = cc
after_by false confirmed true backfilled h = cc
after_by false confirmed false true h = cc
after_by false confirmed false false h = cc

past_by :
    (end : SecurityEnd) (as_of : ℕ)
    → is_past end as_of ≡ true
    → (day : ℕ) × (end.day ≡ some day) × (day < as_of)
unfolding is_past
past_by end as_of h = elim (Option-cases end.day) [
  | inl nothing ↦ absurd (none_past end.listed (rw nothing at h))
  | inr (day, e) ↦ (day, e, ltb→lt _ _ (some_past end.listed (ltb day as_of) (rw e at h)))
]
  where
    none_past : (b : Bool) → (not b && false) ≡ true → ⊥
    none_past b k = ground (arith, k)

    some_past : (b c : Bool) → (not b && c) ≡ true → c ≡ true
    some_past b c k = ground (arith, k)

-- An observation has the status of a confirmed delisting only where its security's last ending has a
-- confirmed last trade, and the end day of that ending is before the observation.
pub observation_status-after_delisting :
    (i : Inputs) (sid : String) (as_of : ℕ) (ticker : Text) (conflict : Bool)
    → observation_status as_of ticker
        (some sid)
        (end_of i sid)
        conflict
        (i.security sid).cusips
        i.ftd
      ≡ after_delisting
    → (e : Ending) × IsLast i sid e
      × (confirmed e.last_trade ≡ true)
      × (end_day e.last_trade e.delist_date < as_of)
unfolding observation_status status_of is_after
observation_status-after_delisting i sid as_of ticker conflict h =
    let end = end_of i sid in
    let (past, sure) =
      after_by (is_past end as_of) end.confirmed conflict
        (is_backfilled as_of ticker (i.security sid).cusips i.ftd) (ap is_after h) in
    let (day, on, before) = past_by end as_of past in
    let (listed, (e, last, same, as_end)) = end_of-IsEndBy i sid day on in
    (e, last, as_end ∙ sure, omega (arith, same, before))
