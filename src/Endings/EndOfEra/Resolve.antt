-- ===== src/Endings/EndOfEra/Resolve.antt =====
-- `resolve`: the branch that decides, and the two readings that say when the classifier reads more.
mod Rule
pub mod Branches
pub mod ReadBack
use delist_detection.Prelude.{
  ℕ, Bool, not, ◌&&◌, ◌||◌, Option, none, some, [], ◌++◌, Text, codes, leb, ◌==◌, is_some, or_else,
  take, strip_spaces, if◌then◌else◌,
}
use delist_detection.Days.{isoformat}
use delist_detection.Vocabulary.CrspCodes.{
  CrspBucket, continuation_code, exchange_transfer, merger, liquidation, compliance_failure,
}
use delist_detection.Vocabulary.ExitKind.Reasons.{
  continued, relabel, change_in_control_reason, completed_acquisition_reason,
  successor_registration_reason,
}
use delist_detection.Endings.EndOfEra.Signals.{
  Filed, filed_text, OwnExchange, stake_changed, EraSignals, item_day,
}

-- The names that `EraVerdict.branch` takes.
pub data Branch : Type 0 where
  trading successor successor_merger change_in_control bankruptcy completed_merger : Branch
  delisting_notice liquidated continued_filings : Branch

pub record EraVerdict : Type 0 where
  pub branch : Branch
  pub crsp_code : ℕ
  pub bucket : CrspBucket
  pub reason : Text

abbrev pub item_501 : Text
item_501 = codes "5.01"

abbrev pub item_201 : Text
item_201 = codes "2.01"

abbrev pub item_301 : Text
item_301 = codes "3.01"

pub merges : EraSignals → Bool
merges s =
    not (s.trading_after || is_some s.successor_filing)
    && (is_some (item_day item_501 s.item_filed)
        || is_some (item_day item_201 s.item_filed)
          && (is_some s.merger_filing || is_some s.delist_filing))

pub registers_successor : EraSignals → Bool
registers_successor s = is_some s.successor_filing && not s.trading_after

-- `items_code if items_code in MERGER_CODES else 231`
pub merger_code : Option ℕ → ℕ
merger_code none = 231
merger_code (some code) = if code == 200 || code == 231 || code == 233 then code else 231

abbrev verdict : Branch → ℕ → CrspBucket → Text → EraVerdict
verdict branch code bucket reason = record {
  branch = branch;
  crsp_code = code;
  bucket = bucket;
  reason = reason;
}

-- `own.target[:60].strip()`
became_target : Text → Text
became_target target = strip_spaces (take 60 target)

became_text : OwnExchange → Text
unfolding became_target
became_text own =
    codes "each share became "
    ++ (own.ratio
        ++ (codes " shares "
            ++ (became_target own.target
                ++ ((if own.cash then codes " and cash" else []) ++ codes ", a merger (rule 6)"))))

abbrev trades_on : EraVerdict
trades_on = verdict trading continuation_code exchange_transfer continued

abbrev goes_on : Filed → EraVerdict
goes_on filing = verdict successor continuation_code exchange_transfer (
    relabel (
      successor_registration_reason (filed_text filing)
        (codes "the security continues under a successor")))

abbrev changed_stake : Filed → OwnExchange → EraVerdict
changed_stake filing own =
    verdict successor_merger 231 merger
      (successor_registration_reason (filed_text filing) (became_text own))

abbrev change_of_control : Option ℕ → ℕ → EraVerdict
change_of_control items_code day =
    verdict change_in_control (merger_code items_code) merger (change_in_control_reason day)

abbrev completion : Option ℕ → ℕ → Filed → EraVerdict
completion items_code day beside =
    verdict completed_merger (merger_code items_code) merger
      (completed_acquisition_reason day (filed_text beside))

abbrev bankruptcy_sale : Filed → ℕ → EraVerdict
bankruptcy_sale filing day = verdict bankruptcy 470 liquidation (
    relabel (
      codes "Bankruptcy ("
      ++ (filed_text filing
          ++ (codes ", item 1.03) before the completed sale (8-K item 2.01 filed "
              ++ (isoformat day ++ codes ")")))))

abbrev deficiency : Filed → EraVerdict
deficiency notice = verdict delisting_notice 570 compliance_failure (
    relabel
      (codes "Listing deficiency notice (" ++ (filed_text notice ++ codes "), no merger evidence")))

abbrev wind_down : Filed → EraVerdict
wind_down notice = verdict liquidated 400 liquidation (
    relabel (
      codes "Liquidation: delisted while winding down ("
      ++ (filed_text notice ++ codes " announces a liquidating distribution, trust or plan)")))

abbrev filings_stand : EraVerdict
filings_stand = verdict continued_filings continuation_code exchange_transfer continued

-- Branch 2.
resolve_successor : Filed → Option OwnExchange → EraVerdict
resolve_successor filing none = goes_on filing
resolve_successor filing (some own) =
    if stake_changed own then changed_stake filing own else goes_on filing

-- Branches 5b and 6.
resolve_liquidation : Option Filed → EraVerdict
resolve_liquidation (some notice) = wind_down notice
resolve_liquidation none = filings_stand

-- Branch 5, on the first filing day of an 8-K item 3.01, and what follows it.
resolve_notice : Option ℕ → Option Filed → Option Filed → EraVerdict
unfolding resolve_liquidation
resolve_notice (some day) (some notice) liquidation_notice = deficiency notice
resolve_notice _ _ liquidation_notice = resolve_liquidation liquidation_notice

resolve_rest : EraSignals → EraVerdict
unfolding resolve_notice
resolve_rest s =
    resolve_notice (item_day item_301 s.item_filed) s.deficiency_notice s.liquidation_notice

-- Branch 4 at the 8-K item 2.01 filed on `day`, with the merger filing or Form 25 beside it: no
-- bankruptcy 8-K on or before it.
resolve_sale : EraSignals → Option ℕ → ℕ → Filed → EraVerdict
unfolding resolve_rest
resolve_sale s items_code day beside =
    if s.survived then resolve_rest s else completion items_code day beside

resolve_completed : EraSignals → Option ℕ → Option Filed → ℕ → Filed → EraVerdict
unfolding resolve_sale
resolve_completed s items_code none day beside = resolve_sale s items_code day beside
resolve_completed s items_code (some filing) day beside =
    if leb filing.day day then bankruptcy_sale filing day else resolve_sale s items_code day beside

-- Branch 4, on the first filing day of an 8-K item 2.01 and the filing beside it.
resolve_acquisition : EraSignals → Option ℕ → Option ℕ → Option Filed → EraVerdict
unfolding resolve_completed
resolve_acquisition s items_code (some day) (some beside) =
    resolve_completed s items_code s.bankruptcy_filing day beside
resolve_acquisition s items_code _ _ = resolve_rest s

acquisition : EraSignals → Option ℕ → EraVerdict
unfolding resolve_acquisition
acquisition s items_code =
    resolve_acquisition s items_code (item_day item_201 s.item_filed)
      (or_else s.merger_filing s.delist_filing)

-- Branch 3, on the first filing day of an 8-K item 5.01, and what follows it.
resolve_control : EraSignals → Option ℕ → Option ℕ → EraVerdict
unfolding acquisition
resolve_control s items_code (some day) =
    if s.survived then acquisition s items_code else change_of_control items_code day
resolve_control s items_code none = acquisition s items_code

-- Branches 2 to 6, on the successor registration.
resolve_filed : EraSignals → Option ℕ → Option Filed → EraVerdict
unfolding resolve_successor resolve_control
resolve_filed s items_code (some filing) = resolve_successor filing s.successor_terms
resolve_filed s items_code none = resolve_control s items_code (item_day item_501 s.item_filed)

pub resolve : EraSignals → Option ℕ → EraVerdict
unfolding resolve_filed
resolve s items_code =
    if s.trading_after then trades_on else resolve_filed s items_code s.successor_filing
