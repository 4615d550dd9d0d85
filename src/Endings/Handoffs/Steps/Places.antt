-- ===== src/Endings/Handoffs/Steps/Places.antt =====
-- The keys of apply_handoffs' rows, endings/handoffs.py: what a place and an answer keep of them.
use delist_detection.Prelude.{
  ℕ, ◌≡◌, refl, sym, ◌∙◌, ap, inl, inr, Option, none, some, List, [], ◌∷◌, ◌++◌, Bool-cases,
  Option-cases, ◌+◌, ◌-◌, ◌<◌, ◌≤◌, max,
}
use delist_detection.Endings.LastTrade.{before_successor, at_handoff, handoff_day}
use delist_detection.Vocabulary.TradingCalendar.{
  last_day, days_before, days_after, days_before-some, days_after-some,
}
use delist_detection.Endings.Handoffs.{HandoffPair}
use delist_detection.Endings.Handoffs.Decisions.{HandoffDecision}
use delist_detection.Endings.Handoffs.Applied.{
  Row, Place, near, nearest, nearer, behind, is_near, closer, put_back, trades_on, before_taker,
  terms_of, link_of,
}
use delist_detection.Endings.Handoffs.Steps.{continued, rewritten, answer, names}
use delist_detection.Endings.Rewrites.{Delisting, Key, key_of, Payouts, Terms, is_transfer}
use delist_detection.Endings.Rewrites as Rewrites
use delist_detection.Endings.Rewrites.Kinds.{
  continuation_refusals, continuation-ok, continued_into-lem,
}

abbrev pub keys : List Row → List Key
keys [] = []
keys (r ∷ rs) = key_of r.delisting ∷ keys rs

-- The place is one of the list's.
abbrev pub IsPlaceOf : List Row → Option Place → Type 0
IsPlaceOf rows none = Unit
IsPlaceOf rows (some z) = put_back z z.row ≡ rows

behind-IsPlaceOf :
    (r : Row) (rows : List Row) (o : Option Place)
    → IsPlaceOf rows o
    → IsPlaceOf (r ∷ rows) (behind r o)
unfolding behind put_back
behind-IsPlaceOf r rows none h = tt
behind-IsPlaceOf r rows (some z) h = ap (λ rs. r ∷ rs) h

nearer-IsPlaceOf :
    (p : HandoffPair) (r : Row) (rows : List Row) (o : Option Place)
    → IsPlaceOf rows o
    → IsPlaceOf (r ∷ rows) (nearer p r rows o)
unfolding nearer put_back
nearer-IsPlaceOf p r rows none h = refl
nearer-IsPlaceOf p r rows (some z) h = elim (Bool-cases (closer p z.row r)) [
  | inl on ↦ rw (on, nearer) (behind-IsPlaceOf r rows (some z) h)
  | inr off ↦ rw (off, nearer) refl
]

nearest-IsPlaceOf :
    (p : HandoffPair) (lo hi : ℕ) (rows : List Row) → IsPlaceOf rows (nearest p lo hi rows)
unfolding nearest
nearest-IsPlaceOf p lo hi [] = tt
nearest-IsPlaceOf p lo hi (r ∷ rs) =
    let rest = nearest-IsPlaceOf p lo hi rs in
    elim (Bool-cases (is_near p lo hi r)) [
      | inl on ↦ rw (on, nearest) (nearer-IsPlaceOf p r rs (nearest p lo hi rs) rest)
      | inr off ↦ rw (off, nearest) (behind-IsPlaceOf r rs (nearest p lo hi rs) rest)
    ]

-- A place found, where the days to look at are the calendar's, is one of the list's.
abbrev pub IsPlaceIn : List Row → Option (Option Place) → Type 0
IsPlaceIn rows none = Unit
IsPlaceIn rows (some o) = IsPlaceOf rows o

pub near-IsPlaceIn :
    (p : HandoffPair) (days : ℕ) (rows : List Row) → IsPlaceIn rows (near p days rows)
unfolding near
near-IsPlaceIn p days rows = elim (Option-cases (days_before p.a_last days)) [
  | inl early ↦ rw (early, near) tt
  | inr (lo, from) ↦ elim (Option-cases (days_after (max p.a_last p.b_first) days)) [
    | inl late ↦ rw (from, late, near) tt
    | inr (hi, by) ↦ rw (from, by, near) (nearest-IsPlaceOf p lo hi rows)
  ]
]

-- The days to look at are the calendar's.
pub near-found :
    (p : HandoffPair) (days : ℕ) (rows : List Row)
    → days < p.a_last
    → max p.a_last p.b_first + days ≤ last_day
    → (o : Option Place) × (near p days rows ≡ some o)
unfolding near
near-found p days rows early late =
    let from = days_before-some p.a_last days early in
    let by = days_after-some (max p.a_last p.b_first) days late in
    (nearest p (p.a_last - days) (max p.a_last p.b_first + days) rows, rw (from, by, near) refl)

pub keys-append : (rs ss : List Row) → keys (rs ++ ss) ≡ keys rs ++ keys ss
keys-append [] ss = refl
keys-append (r ∷ rs) ss = ap (λ ks. key_of r.delisting ∷ ks) (keys-append rs ss)

pub keys-put_back :
    (z : Place) (new : Row)
    → key_of new.delisting ≡ key_of z.row.delisting
    → keys (put_back z new) ≡ keys (put_back z z.row)
unfolding put_back
keys-put_back z new same =
    keys-append z.before (new ∷ z.after)
    ∙ (ap (λ k. keys z.before ++ k ∷ keys z.after) same
        ∙ sym (keys-append z.before (z.row ∷ z.after)))

-- An answer, if there is one, has the delisting's key.
abbrev IsSameKey : Delisting → Option (Delisting × Option Payouts) → Type 0
IsSameKey d none = Unit
IsSameKey d (some new) = key_of new.0 ≡ key_of d

answer-IsSameKey :
    (d : Delisting) (t : Terms) (payouts : Option Payouts)
    → IsSameKey d (answer (Rewrites.continuation d t payouts))
unfolding answer
answer-IsSameKey d t payouts = elim (continuation_refusals d t payouts) [
  | inl (e, _, _) ↦ rw (e, answer) tt
  | inr (inl (e, _, _, _, _)) ↦ rw (e, answer) tt
  | inr (inr ((d', payouts', e), _, _)) ↦
      let (same, _) = continuation-ok d d' t payouts payouts' e in
      rw (e, answer) (ap key_of same ∙ (continued_into-lem d t).2)
]

rewritten-IsSameKey :
    (d : Delisting) (decision : HandoffDecision) (payouts : Option Payouts)
    → IsSameKey d (rewritten d decision payouts)
unfolding rewritten
rewritten-IsSameKey d decision payouts = elim (Bool-cases (is_transfer d)) [
  | inr other ↦ elim (Option-cases (handoff_day decision.pair.a_last decision.pair.b_first)) [
    | inl off ↦ rw (other, rewritten, off) tt
    | inr (day, on) ↦ rw (other, rewritten, on) (answer-IsSameKey d (terms_of decision day) payouts)
  ]
  | inl there ↦ elim (Bool-cases (names d.successor_sec_id decision.pair.b)) [
    | inl linked ↦ rw (there, rewritten, linked) refl
    | inr open_ ↦
        let t = link_of decision d.reason in
        let kept = answer-IsSameKey d t none in
        elim (Option-cases (answer (Rewrites.continuation d t none))) [
          | inl off ↦ rw (there, rewritten, open_, off) tt
          | inr (new, on) ↦ rw (there, rewritten, open_, on) (rw on at kept)
        ]
  ]
]

-- A row, if there is one, has the other one's key.
abbrev IsSameRow {ℓ} : {A : Type ℓ} → Row → Option (Row × A) → Type 0
IsSameRow r none = Unit
IsSameRow r (some new) = key_of new.0.delisting ≡ key_of r.delisting

pub continued-IsSameRow :
    (r : Row) (decision : HandoffDecision) (payouts : Option Payouts)
    → IsSameRow r (continued r decision payouts)
unfolding continued key_of
continued-IsSameRow r decision payouts =
    let same = rewritten-IsSameKey r.delisting decision payouts in
    elim (Option-cases (rewritten r.delisting decision payouts)) [
      | inl off ↦ rw (off, continued) tt
      | inr (new, on) ↦
          elim (Option-cases
            (at_handoff (some r.last_trade) decision.pair.a_last decision.pair.b_first)) [
              | inl undated ↦ rw (on, continued, undated) tt
              | inr (last, dated) ↦ rw (on, continued, dated) (rw on at same)
            ]
    ]

pub before_taker-IsSameRow : (r : Row) (p : HandoffPair) → IsSameRow r (before_taker r p)
unfolding before_taker
before_taker-IsSameRow r p = elim (Bool-cases (trades_on p)) [
  | inl on ↦ rw (on, before_taker) refl
  | inr off ↦ elim (Option-cases (before_successor r.last_trade p.b_first)) [
    | inl undated ↦ rw (off, before_taker, undated) tt
    | inr (capped, e) ↦ rw (off, before_taker, e) refl
  ]
]
