-- ===== src/Vocabulary/ExitKind/Kinds.antt =====
-- The contract's view of a row: its exit kind, its drop reason, and whether it is a distress ending.
use delist_detection.Prelude.{
  ℕ, ◌≡◌, ◌≢◌, Bool, true, false, not, ◌&&◌, ◌||◌, Option, none, some, arith, ◌==◌, leb, ltb,
  str_eq, if◌then◌else◌,
}
use delist_detection.Vocabulary.CrspCodes
use delist_detection.Vocabulary.CrspCodes.{CrspBucket, bucket_for_code}
use delist_detection.Vocabulary.CrspCodes.LeadingDigit.{bucket_for_code-by_leading_digit}
use delist_detection.Vocabulary.ExitKind.Row.{Row}

-- `EXIT_KINDS`
pub data ExitKind : Type 0 where
  merger exchange liquidation dropped lost_source expiration : ExitKind

-- `DROP_REASONS`
pub data DropReason : Type 0 where
  moved_otc price capital went_private bankruptcy filings_fees guidelines sec_order : DropReason

-- `reason in NOT_DISTRESS`; a blank reason is not.
pub in_not_distress : Option DropReason → Bool
in_not_distress (some moved_otc) = true
in_not_distress (some went_private) = true
in_not_distress _ = false

-- `DROP_REASON_OF_CODE`, a code's number for its text.
reason_of_number : ℕ → Option DropReason
reason_of_number code =
    if code == 470 || code == 574
    then some bankruptcy
    else if code == 520
    then some moved_otc
    else if code == 550 || code == 552
    then some price
    else if code == 560
    then some capital
    else if code == 570 || code == 584
    then some guidelines
    else if code == 573 || code == 585
    then some sec_order
    else if code == 580
    then some filings_fees
    else none

-- `DROP_REASON_OF_CODE.get(code, "")`
pub drop_reason_of_code : Option ℕ → Option DropReason
unfolding reason_of_number
drop_reason_of_code none = none
drop_reason_of_code (some code) = reason_of_number code

pub is_bankruptcy : Option DropReason → Bool
is_bankruptcy (some bankruptcy) = true
is_bankruptcy _ = false

unfoldable pub is_real_ending : Row → Bool
is_real_ending row = not (str_eq row.successor_sec_id row.sec_id)

unfoldable pub is_continuation : Row → Bool
unfolding is_real_ending
is_continuation row = not (str_eq row.successor_sec_id "") && is_real_ending row

-- A blank kind or reason is `none`.
pub record EndingFields : Type 0 where
  pub exit_kind : Option ExitKind
  pub drop_reason : Option DropReason
  pub continuation : Bool

-- `_kind`
kind : CrspBucket → Option DropReason → Option ExitKind × Option DropReason
unfolding is_bankruptcy
kind CrspBucket.merger reason = (some merger, none)
kind CrspBucket.exchange_transfer reason = (some exchange, none)
kind CrspBucket.liquidation reason =
    if is_bankruptcy reason then (some dropped, reason) else (some liquidation, none)
kind CrspBucket.compliance_failure reason = (some dropped, reason)
kind CrspBucket.expiration reason = (some expiration, none)
kind _ reason = (none, none)

pub is_wind_down : CrspBucket → Option ℕ → Bool
unfolding is_bankruptcy
is_wind_down bucket code =
    CrspCodes.is_bucket bucket CrspBucket.liquidation
    && not (is_bankruptcy (drop_reason_of_code code))

unfoldable pub ending_fields : Row → EndingFields
unfolding kind
ending_fields row =
    let (k, reason) = kind row.bucket (drop_reason_of_code row.crsp_code) in
    record { exit_kind = k; drop_reason = reason; continuation = is_continuation row }

is_kind_liquidation : Option ExitKind → Bool
is_kind_liquidation (some liquidation) = true
is_kind_liquidation _ = false

is_kind_dropped : Option ExitKind → Bool
is_kind_dropped (some dropped) = true
is_kind_dropped _ = false

pub is_distress : Row → Bool
unfolding is_kind_liquidation is_kind_dropped in_not_distress
is_distress row =
    let f = ending_fields row in
    is_kind_liquidation f.exit_kind
    || is_kind_dropped f.exit_kind && not (in_not_distress f.drop_reason)

-- The kind a row's bucket gives, by itself.
kinds_closed :
    (bucket : CrspBucket) (reason : Option DropReason)
    → ((kind bucket reason).0 ≢ some lost_source)
      × ((kind bucket reason).1 ≢ none → (kind bucket reason).0 ≡ some dropped)
unfolding kind
kinds_closed CrspBucket.active reason = ground arith
kinds_closed bucket reason = ground arith

-- No row is read as `lost_source`, and a row has a drop reason only if its exit kind is `dropped`.
pub ending_fields-kinds :
    (row : Row)
    → ((ending_fields row).exit_kind ≢ some lost_source)
      × ((ending_fields row).drop_reason ≢ none → (ending_fields row).exit_kind ≡ some dropped)
unfolding ending_fields
ending_fields-kinds row = kinds_closed row.bucket (drop_reason_of_code row.crsp_code)

-- The contract's exit kind is `liquidation` exactly for a wind-down.
pub exit_kind-is_wind_down :
    (row : Row)
    → ((ending_fields row).exit_kind ≡ some liquidation
        → is_wind_down row.bucket row.crsp_code ≡ true)
      × (is_wind_down row.bucket row.crsp_code ≡ true
          → (ending_fields row).exit_kind ≡ some liquidation)
unfolding ending_fields is_wind_down CrspCodes.is_bucket
exit_kind-is_wind_down row = ground arith

-- The distress codes: 400 to 599 but the two up-migrations and a move to OTC.
abbrev pub is_distress_code : ℕ → Bool
is_distress_code code =
    leb 400 code && ltb code 600 && not (code == 501 || code == 502 || code == 520)

-- A row whose bucket is its code's is a distress ending exactly if its code is 400 to 599 and none of
-- 501, 502 and 520.
pub is_distress-is_distress_code :
    (row : Row) (code : ℕ)
    → row.crsp_code ≡ some code
    → row.bucket ≡ bucket_for_code (some code)
    → is_distress row ≡ is_distress_code code
unfolding is_distress ending_fields drop_reason_of_code
is_distress-is_distress_code row code has_code has_bucket =
    ground (arith, bucket_for_code-by_leading_digit code)
