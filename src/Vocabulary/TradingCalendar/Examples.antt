-- ===== src/Vocabulary/TradingCalendar/Examples.antt =====
-- Days at which vocabulary/trading_calendar.py is tested.
use delist_detection.Prelude.{◌≡◌, refl, arith, true, some}
use delist_detection.Days.{to_ordinal, of_ordinal, weekday}
use delist_detection.Vocabulary.TradingCalendar.{
  easter, is_trading_day, nyse_holidays, latest_from, previous_trading_day, next_trading_day,
}
use delist_detection.Vocabulary.TradingCalendar.Steps.{next_trading_day-previous}

easter_2024 : easter 2024 ≡ 738976
unfolding easter to_ordinal
easter_2024 = refl

-- Friday 2024-07-05, behind Independence Day.
friday_trades : is_trading_day 739072 ≡ true
unfolding is_trading_day nyse_holidays easter to_ordinal of_ordinal weekday
friday_trades = refl

pub over_the_holiday : previous_trading_day 739072 ≡ some 739070
unfolding previous_trading_day latest_from is_trading_day nyse_holidays easter to_ordinal of_ordinal
    weekday
over_the_holiday = refl

next_trading_day-previous_example : next_trading_day 739070 ≡ some 739072
next_trading_day-previous_example =
    next_trading_day-previous 739072 739070 (omega arith) friday_trades over_the_holiday
