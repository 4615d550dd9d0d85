-- ===== src/Vocabulary/TradingCalendar/Steps.antt =====
-- What the steps of vocabulary/trading_calendar.py find.
use delist_detection.Prelude.{
  ℕ, zero, suc, ◌+◌, ◌-◌, ◌≤◌, ◌<◌, ◌≡◌, ◌⊎◌, inl, inr, true, false, Option, none, some, arith,
  Bool-cases, Option-cases, is_some, refl,
}
use delist_detection.Vocabulary.TradingCalendar.{
  is_trading_day, last_day, latest_from, previous_trading_day, earliest_from, next_trading_day,
  nyse_holidays, easter,
}
use delist_detection.Days.{to_ordinal, of_ordinal, weekday}

-- No trading day from `lo` on and before `hi`.
abbrev pub AreClosed : ℕ → ℕ → Type 0
AreClosed lo hi = (k : ℕ) → lo ≤ k → k < hi → is_trading_day k ≡ false

-- The last trading day before `d`, days counting from 1.
abbrev pub IsPrevious : ℕ → Option ℕ → Type 0
IsPrevious d none = AreClosed 1 d
IsPrevious d (some p) = (1 ≤ p) × (p < d) × (is_trading_day p ≡ true) × AreClosed (p + 1) d

-- The first trading day from `d` on and before `hi`.
abbrev pub IsFirst : (d hi : ℕ) → Option ℕ → Type 0
IsFirst d hi none = AreClosed d hi
IsFirst d hi (some n) = (d ≤ n) × (n < hi) × (is_trading_day n ≡ true) × AreClosed d n

lt_cases : (k d : ℕ) → k < d + 1 → (k < d) ⊎ (k ≡ d)
lt_cases k d h = ground arith

le_cases : (k d : ℕ) → d ≤ k → (d + 1 ≤ k) ⊎ (k ≡ d)
le_cases k d h = ground arith

order : (n d : ℕ) → (n < d) ⊎ ((d < n) ⊎ (n ≡ d))
order n d = ground arith

AreClosed-suc : (lo d : ℕ) → AreClosed lo d → is_trading_day d ≡ false → AreClosed lo (d + 1)
AreClosed-suc lo d h c k low high = elim (lt_cases k d high) [
  | inl before ↦ h k low before
  | inr same ↦ rw same c
]

AreClosed-cons : (lo hi : ℕ) → AreClosed (lo + 1) hi → is_trading_day lo ≡ false → AreClosed lo hi
AreClosed-cons lo hi h c k low high = elim (le_cases k lo low) [
  | inl behind ↦ h k behind high
  | inr same ↦ rw same c
]

IsPrevious-suc :
    (d : ℕ) (o : Option ℕ) → is_trading_day d ≡ false → IsPrevious d o → IsPrevious (d + 1) o
IsPrevious-suc d none c h = AreClosed-suc 1 d h c
IsPrevious-suc d (some p) c h = (h.0, omega (arith, h.1), h.2, AreClosed-suc (p + 1) d h.3 c)

IsFirst-cons :
    (d hi : ℕ) (o : Option ℕ) → is_trading_day d ≡ false → IsFirst (d + 1) hi o → IsFirst d hi o
IsFirst-cons d hi none c h = AreClosed-cons d hi h c
IsFirst-cons d hi (some n) c h = (omega (arith, h.0), h.1, h.2, AreClosed-cons d n h.3 c)

latest_from-IsPrevious : (d : ℕ) → IsPrevious (d + 1) (latest_from d)
unfolding latest_from
latest_from-IsPrevious zero = λ k low high. absurd (omega (arith, low, high))
latest_from-IsPrevious (suc d) = elim (Bool-cases (is_trading_day (suc d))) [
  | inl open_day ↦
      rw open_day
        (omega arith, omega arith, open_day, λ k low high. absurd (omega (arith, low, high)))
  | inr closed ↦
      let next : d + 1 ≡ suc d = omega arith in
      rw closed
        (IsPrevious-suc (suc d) (latest_from d) closed (rw next at (latest_from-IsPrevious d)))
]

earliest_from-IsFirst : (left d : ℕ) → IsFirst d (d + left) (earliest_from left d)
unfolding earliest_from
earliest_from-IsFirst zero d = λ k low high. absurd (omega (arith, low, high))
earliest_from-IsFirst (suc left) d = elim (Bool-cases (is_trading_day d)) [
  | inl open_day ↦
      rw open_day
        (omega arith, omega arith, open_day, λ k low high. absurd (omega (arith, low, high)))
  | inr closed ↦
      let behind : (d + 1) + left ≡ d + suc left = omega arith in
      rw closed (
        IsFirst-cons d (d + suc left) (earliest_from left (d + 1)) closed
          (rw behind at (earliest_from-IsFirst left (d + 1))))
]

-- The previous trading day is the last one before the day; there is none exactly where every day of the
-- calendar before it is closed.
pub previous_trading_day-IsPrevious : (d : ℕ) → IsPrevious d (previous_trading_day d)
unfolding previous_trading_day
previous_trading_day-IsPrevious zero = λ k low high. absurd (omega (arith, low, high))
previous_trading_day-IsPrevious (suc d) =
    let next : d + 1 ≡ suc d = omega arith in rw next at (latest_from-IsPrevious d)

-- For a day of the calendar, the next trading day is the first one after it; there is none exactly where
-- every day of the calendar after it is closed.
pub next_trading_day-IsFirst :
    (d : ℕ) → d ≤ last_day → IsFirst (d + 1) (last_day + 1) (next_trading_day d)
unfolding next_trading_day
next_trading_day-IsFirst d h =
    let end : (d + 1) + (last_day - d) ≡ last_day + 1 = omega (arith, h) in
    rw end at (earliest_from-IsFirst (last_day - d) (d + 1))

first_lem :
    (d p n : ℕ)
    → is_trading_day d ≡ true
    → IsPrevious d (some p)
    → IsFirst (p + 1) (last_day + 1) (some n)
    → n ≡ d
first_lem d p n open_day before first = elim (order n d) [
  | inl earlier ↦
      let closed = before.3 n first.0 earlier in
      let trades = first.2 in absurd (ground (arith, closed, trades))
  | inr (inl later) ↦
      let closed = first.3 d (omega (arith, before.1)) later in
      absurd (ground (arith, open_day, closed))
  | inr (inr same) ↦ same
]

-- For a trading day of the calendar that has a trading day before it, the trading day after the previous one
-- is the day itself.
pub next_trading_day-previous :
    (d p : ℕ)
    → d ≤ last_day
    → is_trading_day d ≡ true
    → previous_trading_day d ≡ some p
    → next_trading_day p ≡ some d
next_trading_day-previous d p h open_day e =
    let before : IsPrevious d (some p) = rw e at (previous_trading_day-IsPrevious d) in
    let after : IsFirst (p + 1) (last_day + 1) (next_trading_day p) =
      next_trading_day-IsFirst p (omega (arith, before.1, h)) in
    elim (Option-cases (next_trading_day p)) [
      | inl off ↦
          let shut : IsFirst (p + 1) (last_day + 1) none = rw off at after in
          let closed = shut d (omega (arith, before.1)) (omega (arith, h)) in
          absurd (ground (arith, open_day, closed))
      | inr (n, on) ↦
          let first : IsFirst (p + 1) (last_day + 1) (some n) = rw on at after in
          let same : n ≡ d = first_lem d p n open_day before first in rw same at on
    ]

-- Tuesday 0001-01-02.
second_trades : is_trading_day 2 ≡ true
unfolding is_trading_day nyse_holidays easter to_ordinal of_ordinal weekday
second_trades = refl

latest_from-some : (k : ℕ) → is_some (latest_from (suc (suc k))) ≡ true
unfolding latest_from
latest_from-some zero = rw (second_trades) refl
latest_from-some (suc k) = elim (Bool-cases (is_trading_day (suc (suc (suc k))))) [
  | inl open_day ↦ rw (open_day) refl
  | inr closed ↦ rw (closed) (latest_from-some k)
]

-- From 0001-01-03 on, every day has a trading day before it.
pub previous_trading_day-some : (d : ℕ) → 3 ≤ d → is_some (previous_trading_day d) ≡ true
unfolding previous_trading_day
previous_trading_day-some zero h = absurd (omega (arith, h))
previous_trading_day-some (suc zero) h = absurd (omega (arith, h))
previous_trading_day-some (suc (suc zero)) h = absurd (omega (arith, h))
previous_trading_day-some (suc (suc (suc k))) h = latest_from-some k
