-- ===== src/Endings/EndOfEra/Resolve/Rule.antt =====
-- A proof rule for `resolve`: what holds of each verdict it can give, where it gives it, holds of the
-- verdict it gives.
use delist_detection.Prelude.{
  ℕ, ◌≡◌, ◌⊎◌, inl, inr, refl, true, false, Option, none, some, arith, or_else, leb, if_ind,
}
use delist_detection.Endings.EndOfEra.Signals.{
  Filed, OwnExchange, stake_changed, EraSignals, item_day,
}
use delist_detection.Endings.EndOfEra.Resolve.{
  EraVerdict, item_501, item_201, item_301, trades_on, goes_on, changed_stake, change_of_control,
  completion, bankruptcy_sale, deficiency, wind_down, filings_stand, resolve_successor,
  resolve_liquidation, resolve_notice, resolve_rest, resolve_sale, resolve_completed,
  resolve_acquisition, acquisition, resolve_control, resolve_filed, resolve, merges,
}

-- No earlier branch decides: neither still trading nor a successor registration.
pub record Rule (s : EraSignals) (items_code : Option ℕ) (P : EraVerdict → Type 0) : Type 0 where
  pub on_trading : s.trading_after ≡ true → P trades_on
  pub on_successor :
      (filing : Filed)
      → s.trading_after ≡ false
      → s.successor_filing ≡ some filing
      → P (goes_on filing)
  pub on_changed_stake :
      (filing : Filed) (own : OwnExchange)
      → s.trading_after ≡ false
      → s.successor_filing ≡ some filing
      → P (changed_stake filing own)
  pub on_control :
      (day : ℕ)
      → s.trading_after ≡ false
      → s.successor_filing ≡ none
      → s.survived ≡ false
      → item_day item_501 s.item_filed ≡ some day
      → P (change_of_control items_code day)
  pub on_completion :
      (day : ℕ) (beside : Filed)
      → s.trading_after ≡ false
      → s.successor_filing ≡ none
      → s.survived ≡ false
      → item_day item_201 s.item_filed ≡ some day
      → or_else s.merger_filing s.delist_filing ≡ some beside
      → P (completion items_code day beside)
  pub on_bankruptcy :
      (filing : Filed) (day : ℕ) (beside : Filed)
      → s.trading_after ≡ false
      → s.successor_filing ≡ none
      → item_day item_201 s.item_filed ≡ some day
      → or_else s.merger_filing s.delist_filing ≡ some beside
      → P (bankruptcy_sale filing day)
  -- The branches below 4 are reached in two ways: the registrant survived, or no merger branch decides.
  pub on_deficiency :
      (notice : Filed)
      → s.trading_after ≡ false
      → s.successor_filing ≡ none
      → (merges s ≡ true → s.survived ≡ true)
      → P (deficiency notice)
  pub on_liquidation :
      (notice : Filed)
      → s.trading_after ≡ false
      → s.successor_filing ≡ none
      → (merges s ≡ true → s.survived ≡ true)
      → P (wind_down notice)
  pub on_standing :
      s.trading_after ≡ false
      → s.successor_filing ≡ none
      → (merges s ≡ true → s.survived ≡ true)
      → P filings_stand

module _ {s : EraSignals} {items_code : Option ℕ} {P : EraVerdict → Type 0}
    (rule : Rule s items_code P) where
  module _ (off : s.trading_after ≡ false) where
    successor_ind :
        (filing : Filed) (terms : Option OwnExchange)
        → s.successor_filing ≡ some filing
        → P (resolve_successor filing terms)
    unfolding resolve_successor
    successor_ind filing none e = rule.on_successor filing off e
    successor_ind filing (some own) e =
        if_ind P (stake_changed own) (changed_stake filing own) (goes_on filing)
          (λ _. rule.on_changed_stake filing own off e) (λ _. rule.on_successor filing off e)

    module _ (alone : s.successor_filing ≡ none) where
      module _ (quiet : merges s ≡ true → s.survived ≡ true) where
        liquidation_ind : (notice : Option Filed) → P (resolve_liquidation notice)
        unfolding resolve_liquidation
        liquidation_ind (some notice) = rule.on_liquidation notice off alone quiet
        liquidation_ind none = rule.on_standing off alone quiet

        notice_ind :
            (day : Option ℕ) (notice liquidation : Option Filed)
            → P (resolve_notice day notice liquidation)
        unfolding resolve_notice
        notice_ind (some day) (some notice) liquidation = rule.on_deficiency notice off alone quiet
        notice_ind (some day) none liquidation = liquidation_ind liquidation
        notice_ind none notice liquidation = liquidation_ind liquidation

        rest_ind : P (resolve_rest s)
        unfolding resolve_rest
        rest_ind =
            notice_ind (item_day item_301 s.item_filed) s.deficiency_notice s.liquidation_notice

      -- No change in control decided.
      abbrev Calm : Type 0
      Calm = (item_day item_501 s.item_filed ≡ none) ⊎ (s.survived ≡ true)

      no_sale : Calm → item_day item_201 s.item_filed ≡ none → merges s ≡ true → s.survived ≡ true
      unfolding merges
      no_sale calm e m = ground arith

      nothing_beside :
          Calm
          → or_else s.merger_filing s.delist_filing ≡ none
          → merges s ≡ true
          → s.survived ≡ true
      unfolding merges
      nothing_beside calm e m = ground arith

      sale_ind :
          (day : ℕ) (beside : Filed)
          → item_day item_201 s.item_filed ≡ some day
          → or_else s.merger_filing s.delist_filing ≡ some beside
          → P (resolve_sale s items_code day beside)
      unfolding resolve_sale
      sale_ind day beside sold filed =
          if_ind P s.survived (resolve_rest s) (completion items_code day beside)
            (λ lives. rest_ind (λ _. lives))
            (λ died. rule.on_completion day beside off alone died sold filed)

      completed_ind :
          (bankrupt : Option Filed) (day : ℕ) (beside : Filed)
          → item_day item_201 s.item_filed ≡ some day
          → or_else s.merger_filing s.delist_filing ≡ some beside
          → P (resolve_completed s items_code bankrupt day beside)
      unfolding resolve_completed
      completed_ind none day beside sold filed = sale_ind day beside sold filed
      completed_ind (some filing) day beside sold filed =
          if_ind P (leb filing.day day) (bankruptcy_sale filing day)
            (resolve_sale s items_code day beside)
            (λ _. rule.on_bankruptcy filing day beside off alone sold filed)
            (λ _. sale_ind day beside sold filed)

      acquisition_ind :
          Calm
          → (sold : Option ℕ) (beside : Option Filed) → item_day item_201 s.item_filed ≡ sold
          → or_else s.merger_filing s.delist_filing ≡ beside
          → P (resolve_acquisition s items_code sold beside)
      unfolding resolve_acquisition
      acquisition_ind calm (some day) (some beside) e f =
          completed_ind s.bankruptcy_filing day beside e f
      acquisition_ind calm (some day) none e f = rest_ind (nothing_beside calm f)
      acquisition_ind calm none beside e f = rest_ind (no_sale calm e)

      acquired_ind : Calm → P (acquisition s items_code)
      unfolding acquisition
      acquired_ind calm =
          acquisition_ind calm (item_day item_201 s.item_filed)
            (or_else s.merger_filing s.delist_filing) refl refl

      control_ind :
          (day : Option ℕ)
          → item_day item_501 s.item_filed ≡ day
          → P (resolve_control s items_code day)
      unfolding resolve_control
      control_ind none e = acquired_ind (inl e)
      control_ind (some day) e =
          if_ind P s.survived (acquisition s items_code) (change_of_control items_code day)
            (λ lives. acquired_ind (inr lives)) (λ died. rule.on_control day off alone died e)

    filed_ind :
        (filed : Option Filed) → s.successor_filing ≡ filed → P (resolve_filed s items_code filed)
    unfolding resolve_filed
    filed_ind (some filing) e = successor_ind filing s.successor_terms e
    filed_ind none e = control_ind e (item_day item_501 s.item_filed) refl

  pub resolve_ind : P (resolve s items_code)
  unfolding resolve
  resolve_ind =
      if_ind P s.trading_after trades_on (resolve_filed s items_code s.successor_filing)
        rule.on_trading (λ off. filed_ind off s.successor_filing refl)
