-- ===== src/Sources/Ftd/Closes/Aging.antt =====
-- The loop of `close_age` (sources/ftd.py).
use delist_detection.Prelude.{
  ℕ, zero, suc, ◌+◌, ◌-◌, ◌≤◌, ◌<◌, ◌≡◌, refl, sym, ap, ◌∙◌, inl, inr, false, if◌then◌else◌, true,
  false, none, some, arith, ltb, Bool-cases, Option-cases,
}
use delist_detection.Vocabulary.TradingCalendar.{
  is_trading_day, last_day, next_trading_day, previous_trading_day,
}
use delist_detection.Vocabulary.TradingCalendar.Steps.{
  AreClosed, IsFirst, IsPrevious, next_trading_day-IsFirst, previous_trading_day-IsPrevious,
}
use delist_detection.Sources.Ftd.Closes.{
  Age, aged, past_calendar, unfinished, one_more, age_from, close_age,
}

-- The trading days among the `n` days from `d` on.
abbrev pub trading_days : (d n : ℕ) → ℕ
trading_days d zero = 0
trading_days d (suc n) =
    let rest = trading_days (d + 1) n in if is_trading_day d then rest + 1 else rest

trading_days_at : (d e m n : ℕ) → d ≡ e → m ≡ n → trading_days d m ≡ trading_days e n
trading_days_at d e m n p q = rw p (rw q refl)

trading_days_none : (d n : ℕ) → n ≡ 0 → trading_days d n ≡ 0
trading_days_none d n q = trading_days_at d d n 0 refl q

-- The count, or the end of the calendar before the day.
abbrev pub IsCount : ℕ → ℕ → Age → Type 0
IsCount days until (aged n) = n ≡ days
IsCount days until past_calendar = AreClosed until (last_day + 1)
IsCount days until unfinished = ⊥

one_more-IsCount :
    (days more until : ℕ) (a : Age)
    → days + 1 ≡ more
    → IsCount days until a
    → IsCount more until (one_more a)
unfolding one_more
one_more-IsCount days more until (aged n) h k = omega (arith, h, k)
one_more-IsCount days more until past_calendar h k = k
one_more-IsCount days more until unfinished h k = k

trading_days-closed : (n d e : ℕ) → AreClosed d e → d + n ≤ e → trading_days d n ≡ 0
trading_days-closed zero d e h k = refl
trading_days-closed (suc n) d e h k =
    let shut : is_trading_day d ≡ false = h d (omega arith) (omega (arith, k)) in
    rw shut (
      trading_days-closed n (d + 1) e (λ x low high. h x (omega (arith, low)) high)
        (omega (arith, k)))

-- The days before the first open one are none of them trading days.
trading_days-skip :
    (m d n : ℕ) → AreClosed d (d + m) → trading_days d (m + n) ≡ trading_days (d + m) n
trading_days-skip zero d n h = trading_days_at d (d + 0) (0 + n) n (omega arith) (omega arith)
trading_days-skip (suc m) d n h =
    let shut : is_trading_day d ≡ false = h d (omega arith) (omega arith) in
    let rest =
      trading_days-skip m (d + 1) n
        (λ x low high. h x (omega (arith, low)) (omega (arith, high))) in
    let one : trading_days d (suc (m + n)) ≡ trading_days (d + 1) (m + n) = rw shut refl in
    trading_days_at d d (suc m + n) (suc (m + n)) refl (omega arith)
    ∙ one
    ∙ rest
    ∙ trading_days_at (d + 1 + m) (d + suc m) n n (omega arith) refl

trading_days-open :
    (d n : ℕ) → is_trading_day d ≡ true → trading_days d (suc n) ≡ trading_days (d + 1) n + 1
trading_days-open d n h = rw h refl

-- From a trading day before the last trade: one, and those from the next trading day on.
trading_days-next :
    (day next last_trade : ℕ)
    → is_trading_day day ≡ true
    → day < last_trade
    → day < next
    → AreClosed (day + 1) next
    → trading_days next (last_trade - next) + 1 ≡ trading_days day (last_trade - day)
trading_days-next day next last_trade on before forward shut =
    let one = trading_days-open day (last_trade - day - 1) on in
    let all : trading_days day (last_trade - day)
        ≡ trading_days (day + 1) (last_trade - day - 1) + 1 =
      trading_days_at day day (last_trade - day) (suc (last_trade - day - 1)) refl
        (omega (arith, before))
      ∙ one in
    elim (Bool-cases (ltb next last_trade)) [
      | inl more ↦
          let span : AreClosed (day + 1) (day + 1 + (next - (day + 1))) =
            λ x low high. shut x low (omega (arith, high, forward)) in
          let skip = trading_days-skip (next - (day + 1)) (day + 1) (last_trade - next) span in
          let from : trading_days (day + 1 + (next - (day + 1))) (last_trade - next)
              ≡ trading_days next (last_trade - next) =
            trading_days_at _ _ (last_trade - next) (last_trade - next) (omega (arith, forward))
              refl in
          let count : trading_days (day + 1) (last_trade - day - 1)
              ≡ trading_days (day + 1) (next - (day + 1) + (last_trade - next)) =
            trading_days_at (day + 1) (day + 1) _ _ refl (ground (arith, more, forward)) in
          sym (all ∙ ap (λ (x : ℕ). x + 1) (count ∙ skip ∙ from))
      | inr done ↦
          let none_left : trading_days next (last_trade - next) ≡ 0 =
            trading_days_none next (last_trade - next) (ground (arith, done)) in
          let closed =
            trading_days-closed (last_trade - day - 1) (day + 1) next shut
              (ground (arith, done, before, forward)) in
          omega (arith, none_left, closed, all)
    ]

later :
    (d next : ℕ)
    → d ≤ last_day
    → next_trading_day d ≡ some next
    → (d < next) × (next ≤ last_day) × (is_trading_day next ≡ true) × AreClosed (d + 1) next
later d next h e =
    let first : IsFirst (d + 1) (last_day + 1) (some next) =
      rw e at (next_trading_day-IsFirst d h) in
    let low = first.0 in
    let high = first.1 in (omega (arith, low), omega (arith, high), first.2, first.3)

none_later : (d : ℕ) → d ≤ last_day → next_trading_day d ≡ none → AreClosed (d + 1) (last_day + 1)
none_later d h e = rw e at (next_trading_day-IsFirst d h)

age_from-done :
    (last_trade left day : ℕ) → ltb day last_trade ≡ false → age_from last_trade left day ≡ aged 0
unfolding age_from
age_from-done last_trade zero day h = rw (h, age_from)
age_from-done last_trade (suc left) day h = rw (h, age_from)

age_from-end :
    (last_trade left day : ℕ)
    → ltb day last_trade ≡ true
    → next_trading_day day ≡ none
    → age_from last_trade (suc left) day ≡ past_calendar
unfolding age_from
age_from-end last_trade left day h e = rw (h, e, age_from)

age_from-step :
    (last_trade left day next : ℕ)
    → ltb day last_trade ≡ true
    → next_trading_day day ≡ some next
    → age_from last_trade (suc left) day ≡ one_more (age_from last_trade left next)
unfolding age_from
age_from-step last_trade left day next h e = rw (h, e, age_from)

-- A step closer, the rest of the steps are enough again.
age_from-IsCount :
    (last_trade left day : ℕ)
    → last_trade ≤ day + left
    → day ≤ last_day
    → is_trading_day day ≡ true
    → IsCount (trading_days day (last_trade - day)) last_trade (age_from last_trade left day)
age_from-IsCount last_trade zero day enough h on =
    rw (age_from-done last_trade zero day (ground (arith, enough)))
      (sym (trading_days_none day (last_trade - day) (omega (arith, enough))))
age_from-IsCount last_trade (suc left) day enough h on = elim (Bool-cases (ltb day last_trade)) [
  | inr done ↦
      rw (age_from-done last_trade (suc left) day done)
        (sym (trading_days_none day (last_trade - day) (ground (arith, done))))
  | inl before ↦ elim (Option-cases (next_trading_day day)) [
    | inl end ↦
        rw (age_from-end last_trade left day before end)
          (λ x low high. none_later day h end x (ground (arith, before, low)) high)
    | inr (next, e) ↦
        let (forward, within, open_, shut) = later day next h e in
        rw (age_from-step last_trade left day next before e) (
          one_more-IsCount (trading_days next (last_trade - next))
            (trading_days day (last_trade - day)) last_trade (age_from last_trade left next)
            (trading_days-next day next last_trade on (ground (arith, before)) forward shut)
            (age_from-IsCount last_trade left next (omega (arith, enough, forward)) within open_))
  ]
]

close_age-some :
    (row_date last_trade day : ℕ)
    → previous_trading_day row_date ≡ some day
    → close_age row_date last_trade ≡ age_from last_trade (last_trade - day) day
unfolding close_age
close_age-some row_date last_trade day e = rw (e, close_age)

-- For a row's date of the calendar that has a trading day before it, the loop ends: with the number of trading
-- days from the last one before the row's date up to the last trade's, that one counted and the last trade's not,
-- or where the calendar ends, no trading day from the last trade's on being left.
pub close_age-IsCount :
    (row_date last_trade day : ℕ)
    → row_date ≤ last_day
    → previous_trading_day row_date ≡ some day
    → IsCount (trading_days day (last_trade - day)) last_trade (close_age row_date last_trade)
close_age-IsCount row_date last_trade day h e =
    let before : IsPrevious row_date (some day) =
      rw e at (previous_trading_day-IsPrevious row_date) in
    let earlier = before.1 in
    rw (close_age-some row_date last_trade day e) (
      age_from-IsCount last_trade (last_trade - day) day (omega arith) (omega (arith, earlier, h))
        before.2)
