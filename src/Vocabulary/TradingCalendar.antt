-- ===== src/Vocabulary/TradingCalendar.antt =====
-- vocabulary/trading_calendar.py: NYSE trading days. A step off either end of the calendar, where the
-- code raises OverflowError, is `none`.
pub mod Steps
pub mod Examples
use delist_detection.Prelude.{
  ◌≡◌, refl, ℕ, zero, suc, ◌+◌, ◌-◌, ◌*◌, ◌/◌, ◌%◌, Bool, not, ◌&&◌, ◌==◌, leb, ltb, Option, none,
  some, List, [], ◌∷◌, ◌++◌, any, if◌then◌else◌, ◌<◌, ◌≤◌, arith,
}
use delist_detection.Days.{to_ordinal, of_ordinal, weekday}

-- `_SPECIAL_CLOSURES`
special_closures : List ℕ
special_closures =
    to_ordinal 1994 4 27
    ∷ to_ordinal 2001 9 11
    ∷ to_ordinal 2001 9 12
    ∷ to_ordinal 2001 9 13
    ∷ to_ordinal 2001 9 14
    ∷ to_ordinal 2004 6 11
    ∷ to_ordinal 2007 1 2
    ∷ to_ordinal 2012 10 29
    ∷ to_ordinal 2012 10 30
    ∷ to_ordinal 2018 12 5
    ∷ to_ordinal 2025 1 9
    ∷ []

pub easter : ℕ → ℕ
easter y =
    let a = y % 19 in
    let b = y / 100 in
    let c = y % 100 in
    let d = b / 4 in
    let e = b % 4 in
    let f = (b + 8) / 25 in
    let g = (b + 1 - f) / 3 in
    let h = (19 * a + b + 15 - d - g) % 30 in
    let i = c / 4 in
    let k = c % 4 in
    let l = (32 + 2 * e + 2 * i - h - k) % 7 in
    let m = (a + 11 * h + 22 * l) / 451 in
    to_ordinal y ((h + l + 114 - 7 * m) / 31) ((h + l + 114 - 7 * m) % 31 + 1)

nth_weekday : (y month day n : ℕ) → ℕ
nth_weekday y month day n =
    let first = to_ordinal y month 1 in first + (day + 7 - weekday first) % 7 + 7 * (n - 1)

-- The loop of `_last_weekday`.
back_to : ℕ → ℕ → ℕ
back_to day zero = zero
back_to day (suc d) =
    let earlier = back_to day d in if weekday (suc d) == day then suc d else earlier

last_weekday : (y month day : ℕ) → ℕ
unfolding back_to
last_weekday y month day =
    back_to day ((if month == 12 then to_ordinal (y + 1) 1 1 else to_ordinal y (month + 1) 1) - 1)

observed : ℕ → ℕ
observed d = if weekday d == 5 then d - 1 else if weekday d == 6 then d + 1 else d

new_year : ℕ → List ℕ
new_year day =
    if weekday day == 6 then (day + 1) ∷ [] else if not (weekday day == 5) then day ∷ [] else []

from_year : ℕ → ℕ → ℕ → List ℕ
from_year start year day = if leb start year then day ∷ [] else []

-- The set as a list; the closures of other years, which the set leaves out, cannot be asked for.
pub nyse_holidays : ℕ → List ℕ
unfolding new_year from_year nth_weekday last_weekday observed special_closures
nyse_holidays year =
    new_year (to_ordinal year 1 1)
    ++ (from_year 1998 year (nth_weekday year 1 0 3)
        ++ (nth_weekday year 2 0 3
            ∷ (easter year - 2)
            ∷ last_weekday year 5 0
            ∷ (from_year 2022 year (observed (to_ordinal year 6 19))
                ++ (observed (to_ordinal year 7 4)
                    ∷ nth_weekday year 9 0 1
                    ∷ nth_weekday year 11 3 4
                    ∷ observed (to_ordinal year 12 25)
                    ∷ special_closures))))

pub is_trading_day : ℕ → Bool
is_trading_day d = ltb (weekday d) 5 && not (any (λ h. h == d) (nyse_holidays (of_ordinal d).year))

-- `date.max`
abbrev pub last_day : ℕ
last_day = 3652059

-- A day of the calendar less or plus so many days; none where the program raises, off the calendar.
unfoldable pub days_before : ℕ → ℕ → Option ℕ
days_before d n = if ltb n d then some (d - n) else none

unfoldable pub days_after : ℕ → ℕ → Option ℕ
days_after d n = if leb (d + n) last_day then some (d + n) else none

pub days_before-some : (d n : ℕ) → n < d → days_before d n ≡ some (d - n)
unfolding days_before
days_before-some d n h = ground (arith, h)

pub days_after-some : (d n : ℕ) → d + n ≤ last_day → days_after d n ≡ some (d + n)
unfolding days_after
days_after-some d n h = ground (arith, h)

-- The latest trading day of 1 to `d`.
pub latest_from : ℕ → Option ℕ
latest_from zero = none
latest_from (suc d) =
    let earlier = latest_from d in if is_trading_day (suc d) then some (suc d) else earlier

pub previous_trading_day : ℕ → Option ℕ
previous_trading_day zero = none
previous_trading_day (suc d) = latest_from d

-- The first trading day of the `left` days from `d` on.
pub earliest_from : (left d : ℕ) → Option ℕ
earliest_from zero d = none
earliest_from (suc left) d =
    let later = earliest_from left (d + 1) in if is_trading_day d then some d else later

-- `left` is what remains of the calendar behind `d`.
pub next_trading_day : ℕ → Option ℕ
next_trading_day d = earliest_from (last_day - d) (d + 1)

repeated : (ℕ → Option ℕ) → ℕ → ℕ → Option ℕ
repeated step zero d = some d
repeated step (suc n) d = elim (step d) [ none ↦ none | some e ↦ repeated step n e ]

-- `add_trading_days(d, n)` and `add_trading_days(d, -n)`.
pub add_trading_days : ℕ → ℕ → Option ℕ
unfolding repeated
add_trading_days d n = repeated next_trading_day n d

pub sub_trading_days : ℕ → ℕ → Option ℕ
unfolding repeated
sub_trading_days d n = repeated previous_trading_day n d

repeated-suc :
    (step : ℕ → Option ℕ) (n d p : ℕ)
    → step d ≡ some p
    → repeated step (suc n) d ≡ repeated step n p
unfolding repeated
repeated-suc step n d p h = rw (h, repeated) refl

pub sub_trading_days-one :
    (d p : ℕ) → previous_trading_day d ≡ some p → sub_trading_days d 1 ≡ some p
unfolding sub_trading_days repeated
sub_trading_days-one d p h = repeated-suc previous_trading_day 0 d p h
