-- ===== src/Outputs/Dlret/Fills.antt =====
-- When `decide` of outputs/dlret.py answers a fill, and with which confidence.
use delist_detection.Prelude.{
  ◌≡◌, ◌≢◌, ◌⊎◌, inl, inr, true, false, none, some, arith, Option-cases, if_ind,
}
use delist_detection.Floats.{Floats, nought, is_valid}
use delist_detection.Vocabulary.CrspCodes
use delist_detection.Vocabulary.CrspCodes.{CrspBucket, is_bucket}
use delist_detection.Outputs.Dlret.{
  DlretMethod, grade_of, is_shumway, is_unread, is_unpriced, assumed_par, exchange_transfer_zero,
  cash_only, high, low, ValueInputs, Resolved, EndingValue, resolve_at, filled, decided, decide,
  confidence_of, half_stock, distress, merger_value,
}
use delist_detection.Outputs.Dlret.Methods.{Every}

module _ (F : Floats) where
  -- Nothing measures the liquidation or the drop: no recovery, no plan, no print, only its last close.
  pub record IsUnmeasured (v : ValueInputs F) : Type 0 where
    pub bucket : (v.bucket ≡ CrspCodes.liquidation) ⊎ (v.bucket ≡ CrspCodes.compliance_failure)
    pub close : is_valid F v.last_trade_close ≡ true
    pub print : is_valid F v.print ≡ false
    pub rules :
        v.bucket ≡ CrspCodes.liquidation → (v.recovery ≡ none) × (is_valid F v.plan_value ≡ false)

  abbrev IsMark : ValueInputs F → Resolved F → Type 0
  IsMark v r = is_shumway r.method ≡ true → IsUnmeasured v

  merger_value-mark : (v : ValueInputs F) → is_shumway (merger_value F v).method ≡ false
  unfolding merger_value is_shumway
  merger_value-mark v = ground arith

  distress-mark :
      (v : ValueInputs F)
      → is_shumway (distress F v.last_trade_close v).method ≡ true
      → IsUnmeasured v
  unfolding distress is_shumway is_valid
  distress-mark v h = record {
    bucket = ground arith;
    close = ground arith;
    print = ground arith;
    rules = ground arith;
  }

  resolve_at-IsMark :
      (v : ValueInputs F) (bucket : CrspBucket) → Every (IsMark v) (resolve_at F v bucket)
  unfolding resolve_at is_shumway
  resolve_at-IsMark v CrspBucket.expiration = λ h. absurd (ground arith)
  resolve_at-IsMark v CrspBucket.exchange_transfer = λ h. absurd (ground arith)
  resolve_at-IsMark v CrspBucket.merger =
      if_ind (Every (IsMark v)) (half_stock F v.stock_ratio v.acquirer_price) none
        (some (merger_value F v)) (λ _. tt) (λ _ h. absurd (ground (arith, merger_value-mark v)))
  resolve_at-IsMark v _ = distress-mark v

  filled-mark :
      (v : ValueInputs F) (r : Resolved F)
      → is_shumway (filled F v r).method ≡ true
      → (is_shumway r.method ≡ true) × (v.wind_down ≡ false)
  unfolding filled is_shumway
  filled-mark v r h = ground arith

  -- A Shumway mark stands only for a liquidation or a drop that nothing measures, with a last close above
  -- zero, and for no wind-down.
  pub decide-mark :
      (v : ValueInputs F) (e : EndingValue F)
      → decide F v ≡ some e
      → is_shumway e.method ≡ true
      → IsUnmeasured v × (v.wind_down ≡ false)
  unfolding decide decided
  decide-mark v e h m = elim (Option-cases (resolve_at F v v.bucket)) [
    | inl raised ↦ absurd (ground arith)
    | inr (r, base) ↦
        let (mark, running) = filled-mark v r (ground arith) in
        let fits : IsMark v r = rw base at (resolve_at-IsMark v v.bucket) in (fits mark, running)
  ]

  -- What the fills make of a value.
  record IsFilled (v : ValueInputs F) (r : Resolved F) : Type 0 where
    unread : v.bucket ≡ CrspCodes.merger → v.terms_read ≡ false → is_unread r.method ≡ false
    par :
        r.method ≡ assumed_par
        → (r.value ≡ F.literal nought)
          × (r.terminal_value ≡ v.last_trade_close)
          × (is_valid F v.last_trade_close ≡ true)
          × ((v.bucket ≡ CrspCodes.merger)
              ⊎ (v.bucket ≡ CrspCodes.expiration)
              ⊎ (v.bucket ≡ CrspCodes.unknown) × (v.deregistered ≡ true))

  -- The rules themselves never assume par.
  resolve_at-par :
      (v : ValueInputs F) (bucket : CrspBucket)
      → Every (λ r. r.method ≢ assumed_par) (resolve_at F v bucket)
  unfolding resolve_at distress merger_value
  resolve_at-par v CrspBucket.expiration = ground arith
  resolve_at-par v CrspBucket.exchange_transfer = ground arith
  resolve_at-par v CrspBucket.merger = ground arith
  resolve_at-par v _ = ground arith

  filled-IsFilled :
      (v : ValueInputs F) (r : Resolved F) → r.method ≢ assumed_par → IsFilled v (filled F v r)
  unfolding filled is_unread is_unpriced is_bucket
  filled-IsFilled v r h = record { unread = ground arith; par = ground arith }

  -- A merger whose terms nothing states has no par value: its method is neither assumed par nor an abstain.
  pub decide-unread :
      (v : ValueInputs F) (e : EndingValue F)
      → decide F v ≡ some e
      → v.bucket ≡ CrspCodes.merger
      → v.terms_read ≡ false
      → is_unread e.method ≡ false
  unfolding decide decided
  decide-unread v e h m u = elim (Option-cases (resolve_at F v v.bucket)) [
    | inl raised ↦ absurd (ground arith)
    | inr (r, base) ↦
        let fits : IsFilled v (filled F v r) =
          filled-IsFilled v r (rw base at (resolve_at-par v v.bucket)) in
        ground (arith, fits.unread m u)
  ]

  decide-decided :
      (v : ValueInputs F) (e : EndingValue F)
      → decide F v ≡ some e
      → (r : Resolved F) × (resolve_at F v v.bucket ≡ some r) × (e ≡ decided F v r)
  unfolding decide
  decide-decided v e h = elim (Option-cases (resolve_at F v v.bucket)) [
    | inl raised ↦ absurd (ground arith)
    | inr (r, base) ↦ (r, base, ground arith)
  ]

  abbrev IsPar : ValueInputs F → EndingValue F → Type 0
  IsPar v e =
      e.method ≡ assumed_par
      → (e.value ≡ F.literal nought)
        × (e.terminal_value ≡ v.last_trade_close)
        × (is_valid F v.last_trade_close ≡ true)
        × ((v.bucket ≡ CrspCodes.merger)
            ⊎ (v.bucket ≡ CrspCodes.expiration)
            ⊎ (v.bucket ≡ CrspCodes.unknown) × (v.deregistered ≡ true))

  decided-IsPar :
      (v : ValueInputs F) (r : Resolved F) → r.method ≢ assumed_par → IsPar v (decided F v r)
  unfolding decided
  decided-IsPar v r h = (filled-IsFilled v r h).par

  -- An assumed par is a return of 0 at the last close, which is above zero, of a merger, an expiration or a
  -- deregistered unknown.
  pub decide-par :
      (v : ValueInputs F) (e : EndingValue F)
      → decide F v ≡ some e
      → e.method ≡ assumed_par
      → (e.value ≡ F.literal nought)
        × (e.terminal_value ≡ v.last_trade_close)
        × (is_valid F v.last_trade_close ≡ true)
        × ((v.bucket ≡ CrspCodes.merger)
            ⊎ (v.bucket ≡ CrspCodes.expiration)
            ⊎ (v.bucket ≡ CrspCodes.unknown) × (v.deregistered ≡ true))
  decide-par v e h =
      let (r, base, same) = decide-decided v e h in
      rw same (decided-IsPar v r (rw base at (resolve_at-par v v.bucket)))

  abbrev IsGraded : ValueInputs F → EndingValue F → Type 0
  IsGraded v e =
      (F.is_nan e.value ≡ true → e.confidence ≡ low)
      × (e.confidence ≡ high
          → (e.method ≡ exchange_transfer_zero)
            ⊎ (e.method ≡ cash_only) × (v.payout_confidence ≡ some high))

  confidence_of-lem :
      (method : DlretMethod) (value : F.Float) (payout_confidence : _)
      → (F.is_nan value ≡ true → confidence_of F method value payout_confidence ≡ low)
        × (confidence_of F method value payout_confidence ≡ high
            → (method ≡ exchange_transfer_zero)
              ⊎ (method ≡ cash_only) × (payout_confidence ≡ some high))
  unfolding confidence_of grade_of
  confidence_of-lem method value payout_confidence = ground arith

  decided-IsGraded : (v : ValueInputs F) (r : Resolved F) → IsGraded v (decided F v r)
  unfolding decided
  decided-IsGraded v r =
      confidence_of-lem (filled F v r).method (filled F v r).value v.payout_confidence

  -- A value that is no number has low confidence; only an exchange transfer's, and a cash value whose own
  -- read is of high confidence, has high confidence.
  pub decide-confidence :
      (v : ValueInputs F) (e : EndingValue F)
      → decide F v ≡ some e
      → (F.is_nan e.value ≡ true → e.confidence ≡ low)
        × (e.confidence ≡ high
            → (e.method ≡ exchange_transfer_zero)
              ⊎ (e.method ≡ cash_only) × (v.payout_confidence ≡ some high))
  decide-confidence v e h =
      let (r, _, same) = decide-decided v e h in rw same (decided-IsGraded v r)
