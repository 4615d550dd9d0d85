-- ===== src/Endings/LastTrade/Handing.antt =====
-- handoff_day, before_successor and at_handoff of endings/last_trade.py: A's day beside B's first.
use delist_detection.Prelude.{
  ℕ, ◌≤◌, ◌<◌, ◌≡◌, refl, ◌⊎◌, inl, inr, true, false, not, ◌&&◌, Option, none, some, arith, min,
  is_some, and_false, filter, text_eq, [], Bool-cases, Option-cases,
}
use delist_detection.Vocabulary.ExitKind.Row.{last_sighting}
use delist_detection.Vocabulary.ExitKind.LastTrades.{LastTrade, is_exchange_print, no_day}
use delist_detection.Vocabulary.TradingCalendar.{previous_trading_day}
use delist_detection.Vocabulary.TradingCalendar.Steps.{
  IsPrevious, previous_trading_day-IsPrevious, previous_trading_day-some,
}
use delist_detection.Endings.LastTrade.{handoff_day, before_successor, at_handoff, is_past}

-- The last trade of a row beside the first day of the security that took the ticker: a row with no day ends
-- before it, an exchange print's row is as it was, and any other ends before it.
abbrev pub EndsBefore : LastTrade → ℕ → Type 0
EndsBefore lt b_first =
    (is_exchange_print lt.source ≡ true) ⊎ ((d : ℕ) × (lt.day ≡ some d) × (d < b_first))

previous_lt : (b p : ℕ) → previous_trading_day b ≡ some p → p < b
previous_lt b p e =
    let before : IsPrevious b (some p) = rw e at (previous_trading_day-IsPrevious b) in before.1

pub handoff_day-before :
    (a_last b_first : ℕ)
    → is_some (previous_trading_day b_first) ≡ true
    → (d : ℕ) × (handoff_day a_last b_first ≡ some d) × (d ≤ a_last) × (d < b_first)
unfolding handoff_day
handoff_day-before a_last b_first past = elim (Option-cases (previous_trading_day b_first)) [
  | inl first ↦ absurd (ground (arith, past, first))
  | inr (p, e) ↦
      let lt = previous_lt b_first p e in
      (min a_last p, rw (e, handoff_day) refl, omega arith, omega (arith, lt))
]

is_past-false : (o : Option ℕ) (day p : ℕ) → o ≡ some day → is_past o p ≡ false → day ≤ p
unfolding is_past
is_past-false o day p e h =
    let here : is_past (some day) p ≡ false = rw e at h in ground (arith, here)

pub before_successor-EndsBefore :
    (lt : LastTrade) (day b_first : ℕ)
    → lt.day ≡ some day
    → is_some (previous_trading_day b_first) ≡ true
    → (new : LastTrade) × (before_successor lt b_first ≡ some new)
      × EndsBefore new b_first
      × (new.flags ≡ lt.flags)
unfolding before_successor
before_successor-EndsBefore lt day b_first at_day past =
    elim (Option-cases (previous_trading_day b_first)) [
      | inl first ↦ absurd (ground (arith, past, first))
      | inr (p, e) ↦ elim (Bool-cases (is_exchange_print lt.source)) [
        | inl print ↦ (lt, rw (e, print, before_successor) refl, inl print, refl)
        | inr other ↦ elim (Bool-cases (is_past lt.day p)) [
          | inl late ↦ (
            record lt { day = some p; source = last_sighting },
            rw (e, other, late, before_successor) refl,
            inr (p, refl, previous_lt b_first p e),
            refl,
          )
          | inr early ↦
              let lt_b = previous_lt b_first p e in
              let le = is_past-false lt.day day p at_day early in
              (
                lt,
                rw (e, other, early, before_successor) refl,
                inr (day, at_day, omega (arith, le, lt_b)),
                refl,
              )
        ]
      ]
    ]

-- The row has no day, or ends before B's first day, or an exchange print dates it.
abbrev pub IsCapped : LastTrade → ℕ → Type 0
IsCapped lt b_first = (lt.day ≡ none) ⊎ EndsBefore lt b_first

is_past-none : (o : Option ℕ) (p : ℕ) → o ≡ none → is_past o p ≡ false
unfolding is_past
is_past-none o p e = rw (e, is_past) refl

undated-before_successor :
    (lt : LastTrade) (b_first : ℕ)
    → lt.day ≡ none
    → is_some (previous_trading_day b_first) ≡ true
    → before_successor lt b_first ≡ some lt
unfolding before_successor
undated-before_successor lt b_first off past = elim (Option-cases (previous_trading_day b_first)) [
  | inl first ↦ absurd (ground (arith, past, first))
  | inr (p, e) ↦
      let never = is_past-none lt.day p off in
      let test : (not (is_exchange_print lt.source) && is_past lt.day p) ≡ false =
        rw never (and_false (not (is_exchange_print lt.source))) in
      rw (e, test, before_successor) refl
]

pub before_successor-IsCapped :
    (lt : LastTrade) (b_first : ℕ)
    → 3 ≤ b_first
    → (new : LastTrade) × (before_successor lt b_first ≡ some new) × IsCapped new b_first
before_successor-IsCapped lt b_first past =
    let there = previous_trading_day-some b_first past in
    elim (Option-cases lt.day) [
      | inl off ↦ (lt, undated-before_successor lt b_first off there, inl off)
      | inr (day, on) ↦
          let (new, e, ends, flags) = before_successor-EndsBefore lt day b_first on there in
          (new, e, inr ends)
    ]

at_handoff-none :
    (a_last b_first : ℕ)
    → is_some (previous_trading_day b_first) ≡ true
    → (new : LastTrade) × (at_handoff none a_last b_first ≡ some new) × EndsBefore new b_first
unfolding at_handoff
at_handoff-none a_last b_first past =
    let (d, e, le, lt) = handoff_day-before a_last b_first past in
    (
      record { day = some d; source = last_sighting; flags = []; halt_feed_failed = [] },
      rw (e, at_handoff) refl,
      inr (d, refl, lt),
    )

at_handoff-some :
    (row : Option LastTrade) (a_last b_first : ℕ)
    → is_some (previous_trading_day b_first) ≡ true
    → (new : LastTrade) × (at_handoff row a_last b_first ≡ some new) × EndsBefore new b_first
unfolding at_handoff
at_handoff-some none a_last b_first past = at_handoff-none a_last b_first past
at_handoff-some (some lt) a_last b_first past = elim (Option-cases lt.day) [
  | inl off ↦
      let (d, e, le, before) = handoff_day-before a_last b_first past in
      (
        record lt {
          day = some d;
          source = last_sighting;
          flags = filter (λ f. not (text_eq f no_day)) lt.flags;
        },
        rw (off, e, at_handoff) refl,
        inr (d, refl, before),
      )
  | inr (day, on) ↦
      let (new, e, ends, flags) = before_successor-EndsBefore lt day b_first on past in
      (new, rw (on, at_handoff) e, ends)
]

-- For a taker's first day of 0001-01-03 or later, a continuation's row gets a last trade, and that is
-- an exchange print's or before the taker's first day.
pub at_handoff-EndsBefore :
    (row : Option LastTrade) (a_last b_first : ℕ)
    → 3 ≤ b_first
    → (new : LastTrade) × (at_handoff row a_last b_first ≡ some new) × EndsBefore new b_first
at_handoff-EndsBefore row a_last b_first past =
    at_handoff-some row a_last b_first (previous_trading_day-some b_first past)
