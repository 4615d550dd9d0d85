-- ===== src/Lib.antt =====
-- delist_detection: what the program decides about a delisting, as definitions and theorems.
--
-- The program identifies US securities, finds each one's ending from SEC filings, classifies it, and
-- publishes it with a value. Its parts are the packages of src/delist_detection: identity/ says which
-- issuer a security had and when, endings/ finds, classifies and rewrites an ending, vocabulary/ holds
-- the codes and texts that every part writes and reads back, and terms/, outputs/, handling/ and
-- measurement/ value, publish, use and measure the endings. sources/ and filings/ read the outside.
--
-- Which file models what (paths under src/delist_detection/):
--   Vocabulary/CrspCodes        vocabulary/crsp_codes.py: CrspBucket, DLST_CODE_TO_BUCKET, bucket_for_code
--   Vocabulary/TradingCalendar  vocabulary/trading_calendar.py: nyse_holidays, is_trading_day and the steps
--   Vocabulary/ExitKind         vocabulary/exit_kind.py, in parts: Row (the cells of a delistings.csv
--                               row), Kinds (ending_fields, is_wind_down, is_distress), Endings
--                               (last_endings), Flags (flag_tokens, flag_name, flag_detail), Reasons (the
--                               writers and readers of published reasons), LastTrades (LastTrade, of_row)
--   Endings/EndOfEra            endings/end_of_era.py: Signals (signals, its loop as `scan` and `visit`)
--                               and Resolve (resolve branch by branch, merges, registers_successor)
--   Endings/Classifier          endings/classifier.py: _classify_items
--   Endings/Rewrites            endings/rewrites.py: continuation, security_goes_on, mark_going_on,
--                               reclassify, rewrite_by; MergerValues.drop of terms/merger_value.py
--   Endings/LastTrade           endings/last_trade.py: decide_last_trade, before_successor, at_handoff and
--                               anchor_day; Closing (closing_day_read from the completions found on),
--                               Dating (Dating's readings and confirmations), Entries (of_group,
--                               of_fallback, from_notice), Volume (midas_drop, unexplained)
--   Endings/TradingRecord       endings/trading_record.py: ticker_taken, last_row_trade_day, TradingRecord
--   Endings/Handoffs            endings/handoffs.py: find_handoffs, own_continuation_filing, cusip_switch;
--                               Decisions (issuer_carries_on, decide_handoff), Applied (_near,
--                               _before_taker, the conflicts), Steps (apply_handoffs)
--   Identity/IssuerInForce      identity/issuer_in_force.py: Company (name_at of filings/evidence.py,
--                               _spans, agreeing_since, _filing_around, _deregistered), InForce
--                               (in_force), Timeline (issuer_changes for one security,
--                               with_registrants, listed_issuer)
--   Identity/History            identity/history.py: Ranges (ranges_from_sightings, value_on), Backfill
--                               (is_backfilled, _settling_tail, filtered_ticker_sightings), Endings
--                               (Histories: _ends, _successor_starts, end; keeps_trading), Rows
--                               (_security_rows, _clip_at_takeovers, ticker_range_review), Statuses
--                               (_observation_status)
--   Outputs/Dlret               outputs/dlret.py: decide (_resolve, _merger, the fills), table_dlret
--   Outputs/Verdict             outputs/verdict.py: _own_reasons, _history_reasons, _seed_reasons, the
--                               reasons that decide gives an ending, and Securities
--                               (_security_verdicts)
--   Handling                    handling/handling.py: build_train_label_adjustment, build_backtest_exit,
--                               adjustments_from_rows, firm_month_correction
--   Sources/Retries             sources/retries.py: retrying
--   Sources/SecLimiter          sources/sec_limiter.py: RateLimiter, its acquire and pause as steps
--   Sources/Ftd                 sources/ftd.py: the rows and queries of FtdIndex, Windows (_covered, _merge),
--                               Closes (close_after, close_through, close_age), Asking (_ask, _scan,
--                               _learn, _relabel, _add; names_agree and description_class_letter are
--                               parameters)
--   Vocabulary/Identifiers      vocabulary/identifiers.py: the spellings of a ticker
--   Floats                      the interface of floating-point numbers, and an instance for examples
--   Prelude, Days               shared names and lemmas; dates as ordinals and their ISO text
--
-- The resolver writes its reasons by Vocabulary/ExitKind/Reasons and its codes belong to the buckets of
-- Vocabulary/CrspCodes; the rewrites change the delisting that such a verdict built, the readers of
-- Vocabulary/ExitKind read the row it is published as, Outputs/Dlret values it by its bucket,
-- Endings/LastTrade dates it, and Endings/Handoffs makes a security's ending the continuation into the one
-- that took its ticker, by the rewrites and with a last trade before the taker's first day.
-- Outputs/Verdict says what stands behind it, Identity/History ends its security's ranges at its last
-- trade, read from the rows of Sources/Ftd, and Handling uses that value.
--
-- State and representation. A date is its ordinal (`date.toordinal`): the order of ISO texts is the order
-- of days. A text that the code compares, joins or searches is a list of code points; a sec_id is a
-- string; a CIK is a number. A cell that may be blank is an option. A function that changes an object in
-- place returns the new one; one that raises returns an error and leaves the object to its caller
-- unchanged, since every check stands before the first change. A dictionary is an association list in
-- insertion order. Every loop is a structural recursion: over its list, over the attempts left, or
-- over the days left of the calendar (1 to date.max), at whose ends the code raises. No loop has fuel but
-- the one of close_age, whose steps are bounded by the days between its two dates, which are enough.
-- What threads do to the shared rate limiter is a step relation, and its histories are sequences of steps.
--
-- Parameters: names_agree of vocabulary/names.py, the reads of EDGAR that identity/issuer_in_force.py is
-- given (submissions, exact_names, filed), today's date, the floats with their arithmetic and order, of
-- which the laws of IsFloats are used, the text checks that the classifier gives signals, and, in
-- Identity/History, whether a fails description names a security (description_names of
-- vocabulary/names.py). An index of fails rows is a record of the lists it holds, sorted by date;
-- Sources/Ftd/Asking keeps the rows as they were added and leaves out a read that fails.
-- In Endings/LastTrade what the regular expressions read of a text (its last trade day, the completions it
-- states), the MIDAS volume and the halts of Nasdaq's feed are given by the record Clients; in
-- Endings/Handoffs the answer of price_carried is given, and the items that the pass raises are kept as what
-- they say instead of their text. Where previous_trading_day raises, at the calendar's first days, so does
-- what asks it, and so does a day counted past either end of the calendar in Endings/Handoffs and in the readings
-- of Endings/LastTrade/Entries (days_before and days_after of Vocabulary/TradingCalendar); the other windows of
-- days around a filing are counted without that end.
-- In Outputs/Verdict the answers of _unpriced_gate and _doubted_ending, which compare floats, are fields.
--
-- Not modelled: network clients, caches, parsing by regular expressions, the language-model extraction,
-- and the parts of src/delist_detection not named above.
mod Prelude
pub mod Days
pub mod Vocabulary
pub mod Identity
pub mod Endings
pub mod Floats
pub mod Outputs
pub mod Handling
pub mod Sources
