-- ===== src/Days.antt =====
-- Python's `datetime.date`, as far as the program uses it: a day is its proleptic Gregorian ordinal
-- (`date.toordinal`, 1 for 0001-01-01), so day arithmetic and order are those of numbers.
use delist_detection.Prelude.{
  ℕ, zero, suc, ◌+◌, ◌-◌, ◌*◌, ◌/◌, ◌%◌, ◌≡◌, refl, Bool, ◌&&◌, ◌||◌, not, [], ◌∷◌, ◌++◌, Text,
  codes, ◌==◌, ltb, leb, if◌then◌else◌,
}

-- A timedelta of `n` days back: a day before `date.min` is day zero here.
pub record Ymd : Type 0 where
  pub year : ℕ
  pub month : ℕ
  pub day : ℕ

pub is_leap : ℕ → Bool
is_leap y = (y % 4 == 0) && (not (y % 100 == 0) || y % 400 == 0)

-- The days of a year before each of its months.
days_before_month : Bool → ℕ → ℕ
days_before_month leap month =
    let extra : ℕ = if leap && ltb 2 month then 1 else 0 in
    extra
    + (if month == 1
        then 0
        else if month == 2
        then 31
        else if month == 3
        then 59
        else if month == 4
        then 90
        else if month == 5
        then 120
        else if month == 6
        then 151
        else if month == 7
        then 181
        else if month == 8
        then 212
        else if month == 9
        then 243
        else if month == 10
        then 273
        else if month == 11
        then 304
        else 334)

days_before_year : ℕ → ℕ
days_before_year year = let y = year - 1 in y * 365 + y / 4 - y / 100 + y / 400

-- `date(y, m, d).toordinal()`
unfoldable pub to_ordinal : ℕ → ℕ → ℕ → ℕ
unfolding days_before_month days_before_year is_leap
to_ordinal y m d = days_before_year y + days_before_month (is_leap y) m + d

-- The month of the day `n` days after 1 January: the last one that starts on it or before.
month_from : Bool → ℕ → ℕ → ℕ
month_from leap n zero = 1
month_from leap n (suc m) =
    let earlier = month_from leap n m in
    if leb (days_before_month leap (suc m)) n then suc m else earlier

-- `date.fromordinal(ordinal)`
unfoldable pub of_ordinal : ℕ → Ymd
unfolding days_before_month month_from
of_ordinal ordinal =
    let n = ordinal - 1 in
    let r400 = n % 146097 in
    let n100 = r400 / 36524 in
    let r100 = r400 % 36524 in
    let n4 = r100 / 1461 in
    let r4 = r100 % 1461 in
    let n1 = r4 / 365 in
    let rest = r4 % 365 in
    let year = (n / 146097) * 400 + 1 + n100 * 100 + n4 * 4 + n1 in
    let leap = n1 == 3 && (not (n4 == 24) || n100 == 3) in
    let month = month_from leap rest 12 in
    if n1 == 4 || n100 == 4
    then record { year = year - 1; month = 12; day = 31 }
    else record { year = year; month = month; day = rest - days_before_month leap month + 1 }

-- `date.weekday()`: Monday is 0.
unfoldable pub weekday : ℕ → ℕ
weekday ordinal = (ordinal + 6) % 7

two_digits : ℕ → Text
two_digits n = (48 + n / 10 % 10) ∷ (48 + n % 10) ∷ []

-- `date.isoformat()`
unfoldable pub isoformat : ℕ → Text
unfolding two_digits of_ordinal
isoformat ordinal =
    let d = of_ordinal ordinal in
    (two_digits (d.year / 100) ++ two_digits d.year)
    ++ (codes "-" ++ (two_digits d.month ++ (codes "-" ++ two_digits d.day)))

leap_day : isoformat (to_ordinal 2024 2 29) ≡ codes "2024-02-29"
unfolding isoformat to_ordinal
leap_day = refl

year_end : isoformat (to_ordinal 2000 12 31) ≡ codes "2000-12-31"
unfolding isoformat to_ordinal
year_end = refl

known_ordinal : to_ordinal 2026 10 11 ≡ 739900
unfolding to_ordinal
known_ordinal = refl
