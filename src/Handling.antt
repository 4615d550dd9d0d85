-- ===== src/Handling.antt =====
-- handling/handling.py: training labels, backtest exits and the firm month of a delisting. The notes are
-- left out. A record's delist date is the day that `_parse` reads of it, and `today` stands for
-- `date.today()`.
pub mod Rows
pub mod FirmMonth
mod Examples
use delist_detection.Prelude.{
  ℕ, String, Bool, true, false, not, ◌&&◌, ◌||◌, Option, none, some, List, [], ◌∷◌, Text, str_eq,
  if◌then◌else◌,
}
use delist_detection.Floats.{Floats, nought, one, minus_one, minus_half, half, tenth}
use delist_detection.Vocabulary.CrspCodes.{
  CrspBucket, merger, exchange_transfer, liquidation, compliance_failure, expiration,
}
use delist_detection.Outputs.Dlret.{ValueInputs, EndingValue, Exchange, decide}

-- What handling reads of a `DelistRecord`; a successor that is blank is `none`.
pub record DelistRecord : Type 0 where
  pub ticker : Text
  pub bucket : CrspBucket
  pub delist_date : Option ℕ
  pub successor_sec_id : Option String

pub record TrainLabelAdjustment (F : Floats) : Type 0 where
  pub ticker : Text
  pub bucket : CrspBucket
  pub delist_date : ℕ
  pub forward_return : F.Float
  pub keep_in_training : Bool

pub record BacktestExit (F : Floats) : Type 0 where
  pub ticker : Text
  pub bucket : CrspBucket
  pub exit_date : ℕ
  pub exit_price : F.Float
  pub successor_sec_id : Option String

pub record FirmMonthReturn (F : Floats) : Type 0 where
  pub ticker : Text
  pub bucket : CrspBucket
  pub exchange : Exchange
  pub delist_date : ℕ
  pub firm_month_return : F.Float
  pub r_partial : F.Float
  pub dlret : F.Float
  pub drop : Bool

-- A row of delistings.csv as `adjustments_from_rows` reads it: its record (`record_from_row`), its payout
-- (`row_payout`), and its last close and recovery ratio (`_float`).
pub record HandledRow (F : Floats) : Type 0 where
  pub sec_id : String
  pub successor : String
  pub last_trade_close : Option F.Float
  pub read_as : DelistRecord
  pub payout : Option F.Float
  pub recovery : Option F.Float

module _ (F : Floats) (today : ℕ) where
  payout_or : Option F.Float → F.Float → F.Float
  payout_or none last_close = last_close
  payout_or (some payout) last_close = payout

  label : DelistRecord → ℕ → F.Float → Bool → TrainLabelAdjustment F
  label r dd ret keep = record {
    ticker = r.ticker;
    bucket = r.bucket;
    delist_date = dd;
    forward_return = ret;
    keep_in_training = keep;
  }

  merger_return : F.Float → F.Float → F.Float
  merger_return payout last_close =
      if F.lt (F.literal nought) last_close
      then F.sub (F.div payout last_close) (F.literal one)
      else F.literal nought

  label_of :
      DelistRecord → ℕ → CrspBucket → F.Float → Option F.Float → F.Float → TrainLabelAdjustment F
  unfolding label payout_or merger_return
  label_of r dd merger last_close payout recovery =
      label r dd (merger_return (payout_or payout last_close) last_close) true
  label_of r dd exchange_transfer last_close payout recovery = label r dd (F.literal nought) false
  label_of r dd liquidation last_close payout recovery =
      label r dd (F.sub recovery (F.literal one)) true
  label_of r dd compliance_failure last_close payout recovery =
      label r dd (F.literal minus_one) true
  label_of r dd expiration last_close payout recovery = label r dd (F.literal nought) false
  label_of r dd _ last_close payout recovery = label r dd (F.literal minus_half) true

  pub build_train_label_adjustment :
      DelistRecord → F.Float → Option F.Float → F.Float → TrainLabelAdjustment F
  unfolding label_of
  build_train_label_adjustment r last_close payout recovery = elim r.delist_date [
    | none ↦ label r today (F.literal nought) false
    | some dd ↦ label_of r dd r.bucket last_close payout recovery
  ]

  -- `min(a, b)` of two floats.
  least : F.Float → F.Float → F.Float
  least a b = if F.lt b a then b else a

  exit_at : DelistRecord → ℕ → F.Float → Option String → BacktestExit F
  exit_at r dd price successor = record {
    ticker = r.ticker;
    bucket = r.bucket;
    exit_date = dd;
    exit_price = price;
    successor_sec_id = successor;
  }

  merger_price : F.Float → F.Float → F.Float
  unfolding least
  merger_price payout last_close =
      if F.lt payout last_close then least last_close payout else payout

  exit_of : DelistRecord → ℕ → CrspBucket → F.Float → Option F.Float → F.Float → BacktestExit F
  unfolding exit_at payout_or merger_price
  exit_of r dd merger last_close payout recovery =
      exit_at r dd (merger_price (payout_or payout last_close) last_close) none
  exit_of r dd exchange_transfer last_close payout recovery =
      exit_at r dd last_close r.successor_sec_id
  exit_of r dd liquidation last_close payout recovery =
      exit_at r dd (F.mul recovery last_close) none
  exit_of r dd compliance_failure last_close payout recovery = exit_at r dd (F.literal nought) none
  exit_of r dd expiration last_close payout recovery = exit_at r dd (F.literal nought) none
  exit_of r dd _ last_close payout recovery = exit_at r dd (F.mul (F.literal half) last_close) none

  pub build_backtest_exit : DelistRecord → F.Float → Option F.Float → F.Float → BacktestExit F
  unfolding exit_of
  build_backtest_exit r last_close payout recovery =
      exit_of r (elim r.delist_date [ none ↦ today | some dd ↦ dd ]) r.bucket last_close payout
        recovery

  recovery_or : Option F.Float → F.Float
  recovery_or none = F.literal tenth
  recovery_or (some ratio) = ratio

  -- `successor and successor == sec_id`
  pub continues : HandledRow F → Bool
  continues row = not (str_eq row.successor "") && str_eq row.successor row.sec_id

  pub adjustments_from_rows :
      List (HandledRow F) → List (TrainLabelAdjustment F) × List (BacktestExit F)
  unfolding continues recovery_or
  adjustments_from_rows [] = ([], [])
  adjustments_from_rows (row ∷ rows) =
      let (train, exits) = adjustments_from_rows rows in
      if continues row then (train, exits) else elim row.last_trade_close [
        | none ↦ (train, exits)
        | some close ↦ (
          build_train_label_adjustment row.read_as close row.payout (recovery_or row.recovery)
              ∷ train,
          build_backtest_exit row.read_as close row.payout (recovery_or row.recovery) ∷ exits,
        )
      ]

  -- `none` where no last close is divided.
  partial_return : Option F.Float → F.Float → Option F.Float
  partial_return none prior = if F.lt (F.literal nought) prior then none else some F.nan
  partial_return (some last) prior =
      if F.lt (F.literal nought) prior
      then some (F.sub (F.div last prior) (F.literal one))
      else some F.nan

  month_return : F.Float → F.Float → F.Float → F.Float
  month_return dlret prior r_partial =
      if F.is_nan dlret || F.le prior (F.literal nought)
      then F.nan
      else F.sub (F.mul (F.add (F.literal one) r_partial) (F.add (F.literal one) dlret))
          (F.literal one)

  dropped : DelistRecord → Exchange → FirmMonthReturn F
  dropped r exchange = record {
    ticker = r.ticker;
    bucket = r.bucket;
    exchange = exchange;
    delist_date = today;
    firm_month_return = F.nan;
    r_partial = F.nan;
    dlret = F.nan;
    drop = true;
  }

  month_at : DelistRecord → F.Float → Exchange → ℕ → F.Float → F.Float → FirmMonthReturn F
  unfolding month_return
  month_at r prior exchange dd dlret r_partial =
      let month = month_return dlret prior r_partial in
      record {
        ticker = r.ticker;
        bucket = r.bucket;
        exchange = exchange;
        delist_date = dd;
        firm_month_return = month;
        r_partial = r_partial;
        dlret = dlret;
        drop = F.is_nan month;
      }

  month_from :
      DelistRecord → F.Float → Exchange → ℕ → F.Float → Option F.Float → Option (FirmMonthReturn F)
  unfolding month_at
  month_from r prior exchange dd dlret none = none
  month_from r prior exchange dd dlret (some r_partial) =
      some (month_at r prior exchange dd dlret r_partial)

  month_of :
      DelistRecord
      → F.Float
      → ValueInputs F
      → Option ℕ
      → Option (EndingValue F)
      → Option (FirmMonthReturn F)
  unfolding month_from dropped partial_return
  month_of r prior v none e = some (dropped r v.exchange)
  month_of r prior v (some dd) none = none
  month_of r prior v (some dd) (some e) =
      month_from r prior v.exchange dd e.firm_month (partial_return v.last_trade_close prior)

  -- `none` where `decide` or the division of a blank last close raises.
  pub firm_month_correction : DelistRecord → F.Float → ValueInputs F → Option (FirmMonthReturn F)
  unfolding month_of
  firm_month_correction r prior v = month_of r prior v r.delist_date (decide F v)
