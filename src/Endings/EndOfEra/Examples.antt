-- ===== src/Endings/EndOfEra/Examples.antt =====
-- Filings and evidence at which `signals` and `resolve` of endings/end_of_era.py are tested.
use delist_detection.Prelude.{arith, ◌≡◌, true, false, none, some, List, [], ◌∷◌, codes, is_among}
use delist_detection.Endings.EndOfEra.Signals.{Filed, Filing, EraSignals, signals, successor_forms}
use delist_detection.Endings.EndOfEra.Signals.Windows.{
  IsEarliest, IsLatest, registers_at, delists_at, merges_at, signals_windows,
}
use delist_detection.Endings.EndOfEra.Resolve.{resolve}
use delist_detection.Endings.EndOfEra.Resolve.Branches.{AgreesWithMerges, resolve-merges}
use delist_detection.Endings.EndOfEra.Resolve.ReadBack.{IsReadBack, resolve-IsReadBack}

-- A proxy statement, then the completed sale and the Form 25 around an end on day 735000.
abbrev sale_filings : List Filing
sale_filings =
    record { form = codes "25-NSE"; day = some 735002; items = [] }
    ∷ record { form = codes "8-K"; day = some 735001; items = codes "2.01" ∷ codes "3.01" ∷ [] }
    ∷ record { form = codes "DEFM14A"; day = some 734900; items = [] }
    ∷ record { form = codes "10-Q"; day = none; items = [] }
    ∷ []

abbrev sale : EraSignals
sale = record {
  trading_after = false;
  item_filed = (codes "2.01", 735001) ∷ (codes "3.01", 735001) ∷ [];
  successor_filing = none;
  merger_filing = some (record { form = codes "DEFM14A"; day = 734900 });
  delist_filing = some (record { form = codes "25-NSE"; day = 735002 });
  deficiency_notice = none;
  bankruptcy_filing = none;
  survived = false;
  liquidation_notice = none;
  successor_terms = none;
}

-- The security goes on under a successor.
abbrev handover : EraSignals
handover = record sale { successor_filing = some (record { form = codes "8-K12B"; day = 735003 }) }

signals_windows_example :
    IsEarliest
      (registers_at 735000)
      sale_filings
      (signals sale_filings 735000 false none none none).successor_filing
    × IsEarliest
        (delists_at 735000)
        sale_filings
        (signals sale_filings 735000 false none none none).delist_filing
    × IsLatest
        (merges_at 735000)
        sale_filings
        (signals sale_filings 735000 false none none none).merger_filing
signals_windows_example = signals_windows sale_filings 735000 false none none none

resolve-merges_example : AgreesWithMerges sale (resolve sale (some 233))
resolve-merges_example = resolve-merges sale (some 233)

of_registration :
    (f : Filed) → handover.successor_filing ≡ some f → is_among f.form successor_forms ≡ true
of_registration f e = ground arith

resolve-IsReadBack_example : IsReadBack (resolve handover none)
resolve-IsReadBack_example = resolve-IsReadBack handover none of_registration
