-- ===== src/Handling/Rows.antt =====
-- The labels and exits of rows, handling/handling.py.
use delist_detection.Prelude.{
  ℕ, ◌≡◌, refl, Bool, not, ◌&&◌, Option, none, some, List, [], ◌∷◌, map, filter, arith, Text,
  is_some, inl, inr, Bool-cases, Option-cases,
}
use delist_detection.Floats.{Floats}
use delist_detection.Vocabulary.CrspCodes
use delist_detection.Handling.{
  DelistRecord, HandledRow, continues, adjustments_from_rows, build_train_label_adjustment,
  build_backtest_exit, recovery_or,
}

module _ (F : Floats) (today : ℕ) where
  -- A merger is exited at its payout, and at the last close where it has none, whichever of the two is less.
  pub build_backtest_exit-merger :
      (r : DelistRecord) (last_close : F.Float) (payout : Option F.Float) (recovery : F.Float)
      → r.bucket ≡ CrspCodes.merger
      → (build_backtest_exit F today r last_close payout recovery).exit_price
        ≡ elim payout [ some p ↦ p | none ↦ last_close ]
  unfolding build_backtest_exit
  build_backtest_exit-merger r last_close payout recovery h = ground arith

  -- A row that counts: it does not go on as itself, and it has a last close.
  abbrev pub is_handled : HandledRow F → Bool
  is_handled row = not (continues F today row) && is_some row.last_trade_close

  train_ticker :
      (r : DelistRecord) (close : F.Float) (payout : Option F.Float) (recovery : F.Float)
      → (build_train_label_adjustment F today r close payout recovery).ticker ≡ r.ticker
  unfolding build_train_label_adjustment
  train_ticker r close payout recovery = ground arith

  exit_ticker :
      (r : DelistRecord) (close : F.Float) (payout : Option F.Float) (recovery : F.Float)
      → (build_backtest_exit F today r close payout recovery).ticker ≡ r.ticker
  unfolding build_backtest_exit
  exit_ticker r close payout recovery = ground arith

  abbrev pub tickers_of : List (HandledRow F) → List Text
  tickers_of rows = map (λ row. row.read_as.ticker) (filter is_handled rows)

  -- One label and one exit for each row that does not go on as itself and has a last close, in the rows'
  -- order, and none for any other row.
  pub adjustments_from_rows-tickers :
      (rows : List (HandledRow F))
      → (map (λ t. t.ticker) (adjustments_from_rows F today rows).0 ≡ tickers_of rows)
        × (map (λ x. x.ticker) (adjustments_from_rows F today rows).1 ≡ tickers_of rows)
  unfolding adjustments_from_rows
  adjustments_from_rows-tickers [] = (refl, refl)
  adjustments_from_rows-tickers (row ∷ rows) =
      let ih = adjustments_from_rows-tickers rows in
      elim (Bool-cases (continues F today row)) [
        | inl on ↦ rw on ih
        | inr ends ↦ elim (Option-cases row.last_trade_close) [
          | inl blank ↦ rw (ends, blank) ih
          | inr (close, known) ↦
              rw (ends, known)
                (ground (
                  arith,
                  ih,
                  train_ticker row.read_as close row.payout (recovery_or F today row.recovery),
                  exit_ticker row.read_as close row.payout (recovery_or F today row.recovery),
                ))
        ]
      ]
