-- ===== src/Endings/LastTrade/Closing.antt =====
-- closing_day_read of endings/last_trade.py from the completions its patterns found on, and what rule 4
-- makes of its answer. A completion is its day with the clock time stated beside it, in minutes, if any.
use delist_detection.Prelude.{
  ℕ, ◌≤◌, ◌≡◌, refl, Bool, true, false, not, ◌&&◌, ◌||◌, Option, none, some, List, [], ◌∷◌, ltb,
  leb, ◌==◌, any, max, arith, is_some, inl, inr, Bool-cases, Option-cases, if◌then◌else◌,
}
use delist_detection.Vocabulary.ExitKind.Row.{closing_day}
use delist_detection.Vocabulary.ExitKind.LastTrades.{LastTrade, unconfirmed, worked_out, confirmed}
use delist_detection.Vocabulary.TradingCalendar.{is_trading_day, previous_trading_day}
use delist_detection.Vocabulary.TradingCalendar.Steps.{
  IsPrevious, previous_trading_day-IsPrevious, previous_trading_day-some,
}

abbrev pub Completion : Type 0
Completion = ℕ × Option ℕ

-- `OPEN_MINUTES`
abbrev open_minutes : ℕ
open_minutes = 570

later_of : ℕ → Option ℕ → ℕ
later_of day none = day
later_of day (some d) = max day d

-- The latest of the days stated in the window.
latest_in : ℕ → ℕ → List Completion → Option ℕ
unfolding later_of
latest_in lo hi [] = none
latest_in lo hi (f ∷ fs) =
    let rest = latest_in lo hi fs in
    if leb lo f.0 && leb f.0 hi then some (later_of f.0 rest) else rest

-- The clock times stated on a day.
clocks_on : ℕ → List Completion → List ℕ
clocks_on c [] = []
clocks_on c (f ∷ fs) =
    let rest = clocks_on c fs in
    if f.0 == c then elim f.1 [ none ↦ rest | some t ↦ t ∷ rest ] else rest

before_open : ℕ → List Completion → Bool
unfolding clocks_on
before_open c found = elim (clocks_on c found) [
  | [] ↦ false
  | t ∷ ts ↦ not (any (λ u. not (ltb u open_minutes)) (t ∷ ts))
]

-- The last trade day that the closing gives, and whether it is the day before because of a clock time.
pub record Closing : Type 0 where
  pub day : ℕ
  pub stepped_back : Bool

-- Where the latest closing day is `c`: the trading day before it, or the day itself.
stepped : Option ℕ → Bool → Option (Option Closing)
stepped none early = none
stepped (some p) early = some (some (record { day = p; stepped_back = early }))

closing_at : ℕ → Bool → Option (Option Closing)
unfolding stepped
closing_at c early =
    if early || not (is_trading_day c)
    then stepped (previous_trading_day c) early
    else some (some (record { day = c; stepped_back = false }))

-- `found` is what all the texts state.
pub closing_day_read : List Completion → ℕ → ℕ → Option (Option Closing)
unfolding latest_in before_open closing_at
closing_day_read found lo hi = elim (latest_in lo hi found) [
  | none ↦ some none
  | some c ↦ closing_at c (before_open c found)
]

-- The fails rows show it trading past the closing day that the texts gave, by `hi`.
pub floored : Option ℕ → Closing → ℕ → ℕ
floored none got hi = got.day
floored (some shown) got hi =
    if not got.stepped_back && ltb got.day shown && leb shown hi then shown else got.day

worked : Option ℕ → ℕ → Option (Option Closing) → Option (Option LastTrade)
unfolding floored
worked shown hi none = none
worked shown hi (some none) = some none
worked shown hi (some (some got)) = some (
    some (record {
      day = some (floored shown got hi);
      source = closing_day;
      flags = unconfirmed ∷ [];
      halt_feed_failed = [];
    }))

-- `_closing_day` on what the filings of its window state.
pub closing_trade : List Completion → ℕ → ℕ → Option ℕ → Option (Option LastTrade)
unfolding worked
closing_trade found lo hi shown = worked shown hi (closing_day_read found lo hi)

abbrev IsWithin : ℕ → ℕ → Option ℕ → Type 0
IsWithin lo hi none = Unit
IsWithin lo hi (some d) = (lo ≤ d) × (d ≤ hi)

later_of-IsWithin :
    (lo hi day : ℕ) (o : Option ℕ)
    → lo ≤ day
    → day ≤ hi
    → IsWithin lo hi o
    → (lo ≤ later_of day o) × (later_of day o ≤ hi)
unfolding later_of
later_of-IsWithin lo hi day none l h k = (l, h)
later_of-IsWithin lo hi day (some d) l h k =
    let low = k.0 in let high = k.1 in (omega (arith, l, low), omega (arith, h, high))

latest_in-IsWithin : (lo hi : ℕ) (fs : List Completion) → IsWithin lo hi (latest_in lo hi fs)
unfolding latest_in
latest_in-IsWithin lo hi [] = tt
latest_in-IsWithin lo hi (f ∷ fs) = elim (Bool-cases (leb lo f.0 && leb f.0 hi)) [
  | inl within ↦ rw within (
      later_of-IsWithin lo hi f.0 (latest_in lo hi fs) (ground arith) (ground arith)
        (latest_in-IsWithin lo hi fs))
  | inr out ↦ rw out (latest_in-IsWithin lo hi fs)
]

previous_le : (c p : ℕ) → previous_trading_day c ≡ some p → p ≤ c
previous_le c p e =
    let before : IsPrevious c (some p) = rw e at (previous_trading_day-IsPrevious c) in
    omega (arith, before.1)

abbrev IsClosedBy : ℕ → Option (Option Closing) → Type 0
IsClosedBy hi none = Unit
IsClosedBy hi (some none) = Unit
IsClosedBy hi (some (some got)) = got.day ≤ hi

stepped-IsClosedBy :
    (c hi : ℕ) (early : Bool) → c ≤ hi → IsClosedBy hi (stepped (previous_trading_day c) early)
unfolding stepped
stepped-IsClosedBy c hi early le = elim (Option-cases (previous_trading_day c)) [
  | inl off ↦ rw off tt
  | inr (p, e) ↦ let before = previous_le c p e in rw e (omega (arith, before, le))
]

closing_at-IsClosedBy : (c hi : ℕ) (early : Bool) → c ≤ hi → IsClosedBy hi (closing_at c early)
unfolding closing_at
closing_at-IsClosedBy c hi early le = elim (Bool-cases (early || not (is_trading_day c))) [
  | inl back ↦ rw back (stepped-IsClosedBy c hi early le)
  | inr same ↦ rw same le
]

closing_day_read-IsClosedBy :
    (found : List Completion) (lo hi : ℕ) → IsClosedBy hi (closing_day_read found lo hi)
unfolding closing_day_read
closing_day_read-IsClosedBy found lo hi = elim (Option-cases (latest_in lo hi found)) [
  | inl off ↦ rw (off, closing_day_read) tt
  | inr (c, e) ↦
      let within : IsWithin lo hi (some c) = rw e at (latest_in-IsWithin lo hi found) in
      rw (e, closing_day_read) (closing_at-IsClosedBy c hi (before_open c found) within.1)
]

-- An answer of rule 4 has a day, no later than the window's end, worked out and unconfirmed.
abbrev pub IsWorkedOut : ℕ → LastTrade → Type 0
IsWorkedOut hi lt =
    ((d : ℕ) × (lt.day ≡ some d) × (d ≤ hi)) × (worked_out lt ≡ true) × (confirmed lt ≡ false)

abbrev pub AreWorkedOut : ℕ → Option (Option LastTrade) → Type 0
AreWorkedOut hi none = Unit
AreWorkedOut hi (some none) = Unit
AreWorkedOut hi (some (some lt)) = IsWorkedOut hi lt

floored-le : (shown : Option ℕ) (got : Closing) (hi : ℕ) → got.day ≤ hi → floored shown got hi ≤ hi
unfolding floored
floored-le none got hi h = h
floored-le (some shown) got hi h = ground arith

worked-AreWorkedOut :
    (shown : Option ℕ) (hi : ℕ) (o : Option (Option Closing))
    → IsClosedBy hi o
    → AreWorkedOut hi (worked shown hi o)
unfolding worked worked_out confirmed
worked-AreWorkedOut shown hi none h = tt
worked-AreWorkedOut shown hi (some none) h = tt
worked-AreWorkedOut shown hi (some (some got)) h =
    ((floored shown got hi, refl, floored-le shown got hi h), refl, refl)

pub closing_trade-AreWorkedOut :
    (found : List Completion) (lo hi : ℕ) (shown : Option ℕ)
    → AreWorkedOut hi (closing_trade found lo hi shown)
unfolding closing_trade
closing_trade-AreWorkedOut found lo hi shown =
    worked-AreWorkedOut shown hi (closing_day_read found lo hi)
      (closing_day_read-IsClosedBy found lo hi)

closing_at-some : (c : ℕ) (early : Bool) → 3 ≤ c → is_some (closing_at c early) ≡ true
unfolding closing_at stepped
closing_at-some c early past = elim (Bool-cases (early || not (is_trading_day c))) [
  | inr same ↦ rw (same) refl
  | inl back ↦ elim (Option-cases (previous_trading_day c)) [
    | inl off ↦ let on = previous_trading_day-some c past in absurd (ground (arith, on, off))
    | inr (p, e) ↦ rw (back, closing_at, e) refl
  ]
]

closing_day_read-some :
    (found : List Completion) (lo hi : ℕ) → 3 ≤ lo → is_some (closing_day_read found lo hi) ≡ true
unfolding closing_day_read
closing_day_read-some found lo hi past = elim (Option-cases (latest_in lo hi found)) [
  | inl off ↦ rw (off, closing_day_read) refl
  | inr (c, e) ↦
      let within : IsWithin lo hi (some c) = rw e at (latest_in-IsWithin lo hi found) in
      let low = within.0 in
      rw (e, closing_day_read) (closing_at-some c (before_open c found) (omega (arith, past, low)))
]

worked-some :
    (shown : Option ℕ) (hi : ℕ) (o : Option (Option Closing))
    → is_some o ≡ true
    → is_some (worked shown hi o) ≡ true
unfolding worked
worked-some shown hi none h = h
worked-some shown hi (some none) h = refl
worked-some shown hi (some (some got)) h = refl

-- A window from 0001-01-03 on is always read.
pub closing_trade-some :
    (found : List Completion) (lo hi : ℕ) (shown : Option ℕ)
    → 3 ≤ lo
    → is_some (closing_trade found lo hi shown) ≡ true
unfolding closing_trade
closing_trade-some found lo hi shown past =
    worked-some shown hi (closing_day_read found lo hi) (closing_day_read-some found lo hi past)

-- The shown day floors a closing day that no clock time set back.
pub floored-shown :
    (shown : ℕ) (got : Closing) (hi : ℕ)
    → got.stepped_back ≡ false
    → shown ≤ hi
    → shown ≤ floored (some shown) got hi
unfolding floored
floored-shown shown got hi e h = ground arith
