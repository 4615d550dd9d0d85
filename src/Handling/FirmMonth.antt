-- ===== src/Handling/FirmMonth.antt =====
-- When `firm_month_correction` of handling/handling.py drops a firm month.
use delist_detection.Prelude.{
  ℕ, ◌≡◌, inl, inr, refl, true, false, ◌||◌, Option, none, some, arith, Bool-cases, Option-cases,
}
use delist_detection.Floats.{Floats, IsFloats, nought, one}
use delist_detection.Outputs.Dlret.{ValueInputs, EndingValue, Exchange, decide}
use delist_detection.Handling.{
  DelistRecord, FirmMonthReturn, firm_month_correction, month_of, month_from, month_at,
  month_return, partial_return, dropped,
}

module _ (F : Floats) (numbers : IsFloats F) (today : ℕ) where
  -- A firm month's drop flag says that its return is no number, which it is where there is no delist date,
  -- no DLRET, or no prior close above zero.
  pub record IsDropped (r : DelistRecord) (prior : F.Float) (m : FirmMonthReturn F) : Type 0 where
    pub flag : m.drop ≡ F.is_nan m.firm_month_return
    pub undated : r.delist_date ≡ none → m.drop ≡ true
    pub unvalued : F.is_nan m.dlret ≡ true → m.drop ≡ true
    pub unpriced : F.lt (F.literal nought) prior ≡ false → m.drop ≡ true

  -- What carries a NaN through the month's formula.
  month_carries :
      (dlret prior r_partial : F.Float)
      → F.is_nan r_partial ≡ true
      → F.is_nan (month_return F today dlret prior r_partial) ≡ true
  unfolding month_return
  month_carries dlret prior r_partial h =
      elim (Bool-cases (F.is_nan dlret || F.le prior (F.literal nought))) [
        | inl bad ↦ rw bad numbers.nan_is
        | inr fine ↦ rw fine (
            numbers.sub_carries _ _
              (numbers.mul_carries _ _ (numbers.add_carries (F.literal one) r_partial h)))
      ]

  month_unvalued :
      (dlret prior r_partial : F.Float)
      → F.is_nan dlret ≡ true
      → F.is_nan (month_return F today dlret prior r_partial) ≡ true
  unfolding month_return
  month_unvalued dlret prior r_partial h = ground (arith, numbers.nan_is)

  partial_unpriced :
      (last : Option F.Float) (prior r_partial : F.Float)
      → F.lt (F.literal nought) prior ≡ false
      → partial_return F today last prior ≡ some r_partial
      → F.is_nan r_partial ≡ true
  unfolding partial_return
  partial_unpriced last prior r_partial h e = ground (arith, numbers.nan_is)

  month_at-IsDropped :
      (r : DelistRecord) (prior : F.Float) (exchange : Exchange) (dd : ℕ)
      (dlret r_partial : F.Float)
      → r.delist_date ≡ some dd
      → (F.lt (F.literal nought) prior ≡ false → F.is_nan r_partial ≡ true)
      → IsDropped r prior (month_at F today r prior exchange dd dlret r_partial)
  unfolding month_at
  month_at-IsDropped r prior exchange dd dlret r_partial dated h = record {
    flag = refl;
    undated = λ e. absurd (ground arith);
    unvalued = month_unvalued dlret prior r_partial;
    unpriced = λ low. month_carries dlret prior r_partial (h low);
  }

  dropped-IsDropped :
      (r : DelistRecord) (prior : F.Float) (exchange : Exchange)
      → IsDropped r prior (dropped F today r exchange)
  unfolding dropped
  dropped-IsDropped r prior exchange = record {
    flag = ground (arith, numbers.nan_is);
    undated = λ _. refl;
    unvalued = λ _. refl;
    unpriced = λ _. refl;
  }

  month_of-IsDropped :
      (r : DelistRecord) (prior : F.Float) (v : ValueInputs F) (date : Option ℕ)
      (e : Option (EndingValue F)) (m : FirmMonthReturn F)
      → r.delist_date ≡ date
      → month_of F today r prior v date e ≡ some m
      → IsDropped r prior m
  unfolding month_of month_from
  month_of-IsDropped r prior v none e m dated h =
      let same : dropped F today r v.exchange ≡ m = ground arith in
      rw same at (dropped-IsDropped r prior v.exchange)
  month_of-IsDropped r prior v (some dd) none m dated h = absurd (ground arith)
  month_of-IsDropped r prior v (some dd) (some e) m dated h =
      elim (Option-cases (partial_return F today v.last_trade_close prior)) [
        | inl raised ↦ absurd (ground arith)
        | inr (part, found) ↦
            let same : month_at F today r prior v.exchange dd e.firm_month part ≡ m =
              ground arith in
            rw same at (
              month_at-IsDropped r prior v.exchange dd e.firm_month part dated
                (λ low. partial_unpriced v.last_trade_close prior part low found))
      ]

  -- Every firm month that is answered: its drop flag says that its return is no number, and it is dropped where
  -- there is no delist date, where the DLRET is no number, and where the prior close is not above zero.
  pub firm_month_correction-IsDropped :
      (r : DelistRecord) (prior : F.Float) (v : ValueInputs F) (m : FirmMonthReturn F)
      → firm_month_correction F today r prior v ≡ some m
      → IsDropped r prior m
  unfolding firm_month_correction
  firm_month_correction-IsDropped r prior v m h =
      month_of-IsDropped r prior v r.delist_date (decide F v) m refl h
