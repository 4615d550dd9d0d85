-- ===== src/Handling/Examples.antt =====
-- A delisting at which handling/handling.py is tested, on numbers in hundredths.
use delist_detection.Prelude.{◌≡◌, refl, true, false, none, some, codes}
use delist_detection.Floats.Hundredths.{hundredths, hundredths-IsFloats}
use delist_detection.Vocabulary.CrspCodes
use delist_detection.Outputs.Dlret.{ValueInputs, nasdaq}
use delist_detection.Handling.{DelistRecord, FirmMonthReturn, HandledRow, firm_month_correction}
use delist_detection.Handling.FirmMonth.{IsDropped, firm_month_correction-IsDropped}

abbrev merged : DelistRecord
merged = record {
  ticker = codes "OLD";
  bucket = CrspCodes.merger;
  delist_date = some 735000;
  successor_sec_id = none;
}

abbrev undated : DelistRecord
undated = record merged { delist_date = none }

abbrev handled : HandledRow hundredths
handled = record {
  sec_id = "S1";
  successor = "";
  last_trade_close = some (some (1000, 0));
  read_as = merged;
  payout = some (some (1200, 0));
  recovery = none;
}

abbrev inputs : ValueInputs hundredths
inputs = record {
  bucket = CrspCodes.merger;
  exchange = nasdaq;
  last_trade_close = some (some (1000, 0));
  payout_per_share = some (some (1200, 0));
  stock_ratio = none;
  acquirer_price = none;
  recovery = none;
  print = none;
  plan_value = none;
  payout_confidence = none;
  deregistered = false;
  wind_down = false;
  terms_read = true;
}

abbrev no_month : FirmMonthReturn hundredths
no_month = record {
  ticker = codes "OLD";
  bucket = CrspCodes.merger;
  exchange = nasdaq;
  delist_date = 739000;
  firm_month_return = none;
  r_partial = none;
  dlret = none;
  drop = true;
}

no_month_lem :
    firm_month_correction hundredths 739000 undated (some (900, 0)) inputs ≡ some no_month
unfolding firm_month_correction
no_month_lem = refl

firm_month_correction-IsDropped_example :
    IsDropped hundredths hundredths-IsFloats 739000 undated (some (900, 0)) no_month
firm_month_correction-IsDropped_example =
    firm_month_correction-IsDropped hundredths hundredths-IsFloats 739000 undated (some (900, 0))
      inputs no_month no_month_lem
