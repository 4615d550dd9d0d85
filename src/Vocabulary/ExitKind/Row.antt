-- ===== src/Vocabulary/ExitKind/Row.antt =====
-- A row of delistings.csv as the readers of vocabulary/exit_kind.py take it: the columns they name.
-- A date cell is its day's ordinal, whose order is the order of ISO dates as texts; a blank cell is
-- `none`. The bucket cell is the bucket it spells, the code cell its number; the flags are taken apart.
use delist_detection.Prelude.{ℕ, String, Text, Option}
use delist_detection.Vocabulary.CrspCodes.{CrspBucket}

-- The values of last_trade_date_source, `SOURCES`.
pub data Source : Type 0 where
  midas nasdaq_halt ex99_notice eightk_301 closing_day last_sighting fails_rows unsourced : Source

pub record Row : Type 0 where
  pub sec_id : String
  pub successor_sec_id : String
  pub delist_date : ℕ
  pub bucket : CrspBucket
  pub crsp_code : Option ℕ
  pub review_flags : Text
  pub last_trade_date : Option ℕ
  pub last_trade_date_source : Source
  pub delist_filing_date : Option ℕ
  pub delist_filing_form : Text
