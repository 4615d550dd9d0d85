-- ===== src/Outputs/Dlret.antt =====
-- outputs/dlret.py: the delisting return of one ending, from its value inputs.
mod Examples
mod Fills
mod Methods
use delist_detection.Prelude.{
  Bool, true, false, not, ◌&&◌, ◌||◌, Option, none, some, is_some, if◌then◌else◌,
}
use delist_detection.Floats.{Floats, nought, one, minus_thirty, minus_fifty_five, is_valid}
use delist_detection.Vocabulary.CrspCodes.{
  CrspBucket, merger, exchange_transfer, liquidation, compliance_failure, expiration, unknown,
  is_bucket,
}

-- `Exchange` of vocabulary/exchanges.py
pub data Exchange : Type 0 where
  nyse amex nasdaq other : Exchange

pub data DlretMethod : Type 0 where
  cash_only cash_plus_stock stock_only abstain_no_consideration needs_last_trade : DlretMethod
  exchange_transfer_zero recovery_ratio otc_print plan_stock shumway_nyse_amex : DlretMethod
  shumway_nasdaq pending_recovery pending_terms worthless dropped_expiration : DlretMethod
  assumed_par unresolved : DlretMethod

pub data Kind : Type 0 where
  measured fill : Kind

pub data Grade : Type 0 where
  high medium low : Grade

-- `METHODS`, the kind; the empty text is `none`.
pub kind_of : DlretMethod → Option Kind
kind_of cash_only = some measured
kind_of cash_plus_stock = some measured
kind_of stock_only = some measured
kind_of recovery_ratio = some measured
kind_of otc_print = some measured
kind_of plan_stock = some measured
kind_of worthless = some measured
kind_of exchange_transfer_zero = some fill
kind_of shumway_nyse_amex = some fill
kind_of shumway_nasdaq = some fill
kind_of assumed_par = some fill
kind_of _ = none

-- `METHODS`, the confidence.
pub grade_of : DlretMethod → Grade
grade_of cash_only = medium
grade_of cash_plus_stock = medium
grade_of stock_only = medium
grade_of recovery_ratio = medium
grade_of otc_print = medium
grade_of plan_stock = medium
grade_of exchange_transfer_zero = high
grade_of shumway_nyse_amex = medium
grade_of shumway_nasdaq = medium
grade_of _ = low

-- `_BLANK_IN_TABLE`
pub blank_in_table : DlretMethod → Bool
blank_in_table abstain_no_consideration = true
blank_in_table unresolved = true
blank_in_table pending_recovery = true
blank_in_table pending_terms = true
blank_in_table _ = false

pub is_shumway : DlretMethod → Bool
is_shumway shumway_nyse_amex = true
is_shumway shumway_nasdaq = true
is_shumway _ = false

-- The methods that the par fill replaces.
pub is_unpriced : DlretMethod → Bool
is_unpriced abstain_no_consideration = true
is_unpriced dropped_expiration = true
is_unpriced _ = false

-- The methods that stand for unread terms.
pub is_unread : DlretMethod → Bool
is_unread assumed_par = true
is_unread abstain_no_consideration = true
is_unread _ = false

is_cash_only : DlretMethod → Bool
is_cash_only cash_only = true
is_cash_only _ = false

-- `payout_confidence` that is no grade reads like none.
pub record ValueInputs (F : Floats) : Type 0 where
  pub bucket : CrspBucket
  pub exchange : Exchange
  pub last_trade_close : Option F.Float
  pub payout_per_share : Option F.Float
  pub stock_ratio : Option F.Float
  pub acquirer_price : Option F.Float
  pub recovery : Option F.Float
  pub print : Option F.Float
  pub plan_value : Option F.Float
  pub payout_confidence : Option Grade
  pub deregistered : Bool
  pub wind_down : Bool
  pub terms_read : Bool

pub record Resolved (F : Floats) : Type 0 where
  pub value : F.Float
  pub method : DlretMethod
  pub terminal_value : Option F.Float

pub record EndingValue (F : Floats) : Type 0 where
  pub method : DlretMethod
  pub value : F.Float
  pub terminal_value : Option F.Float
  pub confidence : Grade
  pub firm_month : F.Float

module _ (F : Floats) where
  abbrev resolved : F.Float → DlretMethod → Option F.Float → Resolved F
  resolved value method terminal = record {
    value = value;
    method = method;
    terminal_value = terminal;
  }

  -- `terminal / close - 1.0`
  over : F.Float → F.Float → F.Float
  over terminal close = F.sub (F.div terminal close) (F.literal one)

  shumway : Exchange → Resolved F
  shumway nyse = resolved (F.literal minus_thirty) shumway_nyse_amex none
  shumway amex = resolved (F.literal minus_thirty) shumway_nyse_amex none
  shumway _ = resolved (F.literal minus_fifty_five) shumway_nasdaq none

  negative : Option F.Float → Bool
  negative none = false
  negative (some x) = F.lt x (F.literal nought)

  stock_leg : Option F.Float → Option F.Float → Option F.Float
  stock_leg (some ratio) (some price) = some (F.mul ratio price)
  stock_leg _ _ = none

  -- `float(sum(legs))` starts from 0.
  priced : F.Float → Option F.Float → Option F.Float → Resolved F
  unfolding over
  priced close none none = resolved (F.literal nought) abstain_no_consideration none
  priced close (some cash) none =
      let terminal = F.add (F.literal nought) cash in
      resolved (over terminal close) cash_only (some terminal)
  priced close none (some stock) =
      let terminal = F.add (F.literal nought) stock in
      resolved (over terminal close) stock_only (some terminal)
  priced close (some cash) (some stock) =
      let terminal = F.add (F.add (F.literal nought) cash) stock in
      resolved (over terminal close) cash_plus_stock (some terminal)

  unpriced : Option F.Float → Option F.Float → Resolved F
  unpriced cash stock =
      resolved F.nan
        (if is_some cash || is_some stock then needs_last_trade else abstain_no_consideration) none

  merger_at : Option F.Float → Option F.Float → Option F.Float → Resolved F
  unfolding priced unpriced
  merger_at none cash stock = unpriced cash stock
  merger_at (some close) cash stock =
      if F.lt (F.literal nought) close then priced close cash stock else unpriced cash stock

  -- `_merger` behind its check of the stock leg.
  merger_value : ValueInputs F → Resolved F
  unfolding merger_at negative stock_leg
  merger_value v =
      let stock = stock_leg v.stock_ratio v.acquirer_price in
      if negative v.payout_per_share || negative stock
      then resolved F.nan unresolved none
      else merger_at v.last_trade_close v.payout_per_share stock

  -- One half of the stock leg without the other.
  pub half_stock : Option F.Float → Option F.Float → Bool
  half_stock (some ratio) none = true
  half_stock none (some price) = true
  half_stock _ _ = false

  recovery_at : F.Float → F.Float → Resolved F
  recovery_at close ratio =
      if F.lt ratio (F.literal nought)
      then resolved F.nan unresolved none
      else resolved (F.sub ratio (F.literal one)) recovery_ratio (some (F.mul ratio close))

  print_at : F.Float → Exchange → Option F.Float → Resolved F
  unfolding shumway over
  print_at close exchange none = shumway exchange
  print_at close exchange (some p) =
      if F.lt (F.literal nought) p
      then resolved (over p close) otc_print (some p)
      else shumway exchange

  plan_at : F.Float → Exchange → (print plan : Option F.Float) → Resolved F
  unfolding print_at over
  plan_at close exchange print none = print_at close exchange print
  plan_at close exchange print (some plan) =
      if F.lt (F.literal nought) plan
      then resolved (over plan close) plan_stock (some plan)
      else print_at close exchange print

  -- A liquidation's rules in their order.
  liquidation_at : F.Float → ValueInputs F → Option F.Float → Resolved F
  unfolding plan_at recovery_at
  liquidation_at close v none = plan_at close v.exchange v.print v.plan_value
  liquidation_at close v (some ratio) = recovery_at close ratio

  priced_at : F.Float → ValueInputs F → CrspBucket → Resolved F
  unfolding liquidation_at print_at
  priced_at close v liquidation = liquidation_at close v v.recovery
  priced_at close v compliance_failure = print_at close v.exchange v.print
  priced_at close v _ = resolved (F.literal nought) unresolved none

  distress : Option F.Float → ValueInputs F → Resolved F
  unfolding priced_at
  distress none v = resolved F.nan unresolved none
  distress (some close) v =
      if F.lt (F.literal nought) close
      then priced_at close v v.bucket
      else resolved F.nan unresolved none

  -- `_resolve`; `none` where it raises.
  resolve_at : ValueInputs F → CrspBucket → Option (Resolved F)
  unfolding distress merger_value half_stock
  resolve_at v expiration = some (resolved F.nan dropped_expiration none)
  resolve_at v exchange_transfer = some (resolved (F.literal nought) exchange_transfer_zero none)
  resolve_at v merger =
      if half_stock v.stock_ratio v.acquirer_price then none else some (merger_value v)
  resolve_at v _ = some (distress v.last_trade_close v)

  at_par : ValueInputs F → DlretMethod → Bool
  at_par v method =
      is_valid F v.last_trade_close
      && (is_bucket v.bucket unknown && v.deregistered
          || (is_bucket v.bucket merger || is_bucket v.bucket expiration) && is_unpriced method)

  pub confidence_of : DlretMethod → F.Float → Option Grade → Grade
  unfolding is_cash_only
  confidence_of method value payout_confidence =
      if F.is_nan value
      then low
      else if is_cash_only method
      then elim payout_confidence [ some grade ↦ grade | none ↦ grade_of method ]
      else grade_of method

  par_filled : ValueInputs F → Resolved F → Resolved F
  unfolding at_par
  par_filled v r =
      if at_par v r.method then resolved (F.literal nought) assumed_par v.last_trade_close else r

  wind_down_pending : ValueInputs F → Resolved F → Resolved F
  wind_down_pending v r =
      if v.wind_down && is_shumway r.method then resolved F.nan pending_recovery none else r

  terms_pending : ValueInputs F → Resolved F → Resolved F
  terms_pending v r =
      if is_bucket v.bucket merger && not v.terms_read && is_unread r.method
      then resolved F.nan pending_terms none
      else r

  -- The three fills behind the bucket's rule.
  filled : ValueInputs F → Resolved F → Resolved F
  unfolding par_filled wind_down_pending terms_pending
  filled v base = terms_pending v (wind_down_pending v (par_filled v base))

  decided : ValueInputs F → Resolved F → EndingValue F
  unfolding filled
  decided v base =
      let r = filled v base in
      record {
        method = r.method;
        value = r.value;
        terminal_value = r.terminal_value;
        confidence = confidence_of r.method r.value v.payout_confidence;
        firm_month = base.value;
      }

  pub decide : ValueInputs F → Option (EndingValue F)
  unfolding decided resolve_at
  decide v = elim (resolve_at v v.bucket) [ none ↦ none | some base ↦ some (decided v base) ]

  pub table_dlret : EndingValue F → Option F.Float
  table_dlret e = if blank_in_table e.method then none else some e.value
