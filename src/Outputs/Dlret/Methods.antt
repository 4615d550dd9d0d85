-- ===== src/Outputs/Dlret/Methods.antt =====
-- Which methods `decide` of outputs/dlret.py answers, and with which values.
use delist_detection.Prelude.{
  ◌≡◌, ◌≢◌, inl, inr, true, false, ◌||◌, Option, none, some, arith, Bool-cases, Option-cases,
  if_ind,
}
use delist_detection.Floats.{Floats, IsFloats, nought}
use delist_detection.Vocabulary.CrspCodes
use delist_detection.Vocabulary.CrspCodes.{CrspBucket}
use delist_detection.Outputs.Dlret.{
  kind_of, blank_in_table, ValueInputs, Resolved, EndingValue, resolve_at, filled, decided, decide,
  table_dlret, half_stock, distress, priced_at, merger_value, merger_at, priced, unpriced, negative,
  stock_leg,
}

-- `decide` raises exactly for a merger with one half of its stock leg.
pub decide-raises :
    (F : Floats) (v : ValueInputs F)
    → (decide F v ≡ none
        → (v.bucket ≡ CrspCodes.merger) × (half_stock F v.stock_ratio v.acquirer_price ≡ true))
      × (v.bucket ≡ CrspCodes.merger
          → half_stock F v.stock_ratio v.acquirer_price ≡ true
          → decide F v ≡ none)
unfolding decide resolve_at
decide-raises F v = ground arith

-- What holds of an answer, if there is one.
abbrev pub Every {ℓ κ} : {A : Type ℓ} → (A → Type κ) → Option A → Type κ
Every P none = Unit
Every P (some a) = P a

module _ (F : Floats) (numbers : IsFloats F) where
  -- A value of a method with no kind is blank in the table or no number.
  abbrev pub IsKept : Resolved F → Type 0
  IsKept r = blank_in_table r.method ≡ false → kind_of r.method ≡ none → F.is_nan r.value ≡ true

  unpriced_lem : (cash stock : Option F.Float) → IsKept (unpriced F cash stock)
  unfolding unpriced kind_of blank_in_table
  unpriced_lem cash stock = ground (arith, numbers.nan_is)

  priced_lem : (close : F.Float) (cash stock : Option F.Float) → IsKept (priced F close cash stock)
  unfolding priced kind_of blank_in_table
  priced_lem close cash stock = ground arith

  merger_at_lem : (close cash stock : Option F.Float) → IsKept (merger_at F close cash stock)
  unfolding merger_at
  merger_at_lem none cash stock = unpriced_lem cash stock
  merger_at_lem (some close) cash stock = elim (Bool-cases (F.lt (F.literal nought) close)) [
    | inl valid ↦ rw valid (priced_lem close cash stock)
    | inr bad ↦ rw bad (unpriced_lem cash stock)
  ]

  merger_value_lem : (v : ValueInputs F) → IsKept (merger_value F v)
  unfolding merger_value
  merger_value_lem v =
      elim (Bool-cases (
        negative F v.payout_per_share || negative F (stock_leg F v.stock_ratio v.acquirer_price))) [
          | inl bad ↦ rw bad (λ _ _. numbers.nan_is)
          | inr fine ↦ rw fine (
              merger_at_lem v.last_trade_close v.payout_per_share
                (stock_leg F v.stock_ratio v.acquirer_price))
        ]

  distress_lem : (v : ValueInputs F) → IsKept (distress F v.last_trade_close v)
  unfolding distress priced_at kind_of blank_in_table
  distress_lem v = ground (arith, numbers.nan_is)

  resolve_at_lem : (v : ValueInputs F) (bucket : CrspBucket) → Every IsKept (resolve_at F v bucket)
  unfolding resolve_at kind_of
  resolve_at_lem v CrspBucket.expiration = λ _ _. numbers.nan_is
  resolve_at_lem v CrspBucket.exchange_transfer = λ _ k. absurd (ground arith)
  resolve_at_lem v CrspBucket.merger =
      if_ind (Every IsKept) (half_stock F v.stock_ratio v.acquirer_price) none
        (some (merger_value F v)) (λ _. tt) (λ _. merger_value_lem v)
  resolve_at_lem v _ = distress_lem v

  filled_lem : (v : ValueInputs F) (r : Resolved F) → IsKept r → IsKept (filled F v r)
  unfolding filled kind_of blank_in_table
  filled_lem v r h = ground (arith, numbers.nan_is)

  -- A number in the table's dlret column has a kind: it is measured or a fill.
  pub decide-table :
      (v : ValueInputs F) (e : EndingValue F) (x : F.Float)
      → decide F v ≡ some e
      → table_dlret F e ≡ some x
      → F.is_nan x ≡ false
      → kind_of e.method ≢ none
  unfolding decide decided table_dlret
  decide-table v e x h t n none_of = elim (Option-cases (resolve_at F v v.bucket)) [
    | inl raised ↦ absurd (ground arith)
    | inr (r, base) ↦
        let kept : IsKept (filled F v r) =
          filled_lem v r (rw base at (resolve_at_lem v v.bucket)) in
        ground arith
  ]
