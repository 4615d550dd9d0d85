-- ===== src/Endings/Handoffs/Examples.antt =====
-- Inputs at which the theorems about endings/handoffs.py apply.
use delist_detection.Prelude.{
  ◌≡◌, ◌≢◌, str_eq, str_eq_iff, String, ◌++◌, refl, true, false, none, some, [], ◌∷◌, codes, arith,
  All, is_some,
}
use delist_detection.Vocabulary.CrspCodes.{merger}
use delist_detection.Vocabulary.ExitKind.Row.{closing_day}
use delist_detection.Vocabulary.ExitKind.LastTrades.{unconfirmed}
use delist_detection.Identity.History.Ranges.{ftd}
use delist_detection.Endings.Handoffs.{HandoffPair, Sightings, find_handoffs}
use delist_detection.Endings.Handoffs.Pairs.{IsSomeHandoff, find_handoffs-AreHandoffs}
use delist_detection.Endings.Handoffs.Decisions.{
  HandoffDecision, Facts, continuation, takeover, decide_handoff, IsDecision,
  decide_handoff-IsDecision,
}
use delist_detection.Endings.Handoffs.Applied.{Row, Place, Issuers, put_back, conflict_of}
use delist_detection.Endings.Handoffs.Steps.{State, Counts, continue_at, apply_handoffs}
use delist_detection.Endings.Handoffs.Steps.Outcomes.{IsOutcome, continue_at-IsOutcome}
use delist_detection.Endings.Handoffs.Steps.Places.{keys}
use delist_detection.Endings.Handoffs.Steps.Totals.{apply_handoffs-keys}

-- The old and the new security of a ticker, spelled with and without its separator.
abbrev sightings : Sightings
sightings =
    (
      "OLD",
      record { day = 736000; value = codes "AB-C"; source = ftd }
          ∷ record { day = 736100; value = codes "AB-C"; source = ftd }
          ∷ [],
    )
    ∷ ("NEW", record { day = 736101; value = codes "ABC"; source = ftd } ∷ [])
    ∷ []

old_is_not_new : ◌≢◌ {A = String} "OLD" "NEW"
old_is_not_new e =
    let same : str_eq "OLD" "NEW" ≡ true = (str_eq_iff "OLD" "NEW").1 e in
    absurd (ground (arith, same))

find_handoffs-AreHandoffs_example : All (IsSomeHandoff sightings) (find_handoffs sightings)
find_handoffs-AreHandoffs_example =
    find_handoffs-AreHandoffs sightings (((λ e. old_is_not_new e), tt), (tt, tt))

abbrev pair : HandoffPair
pair = record {
  ticker = codes "AB-C";
  a = "OLD";
  b = "NEW";
  a_last = 736100;
  b_first = 736101;
  b_first_any = 736101;
  a_last_any = some 736100;
}

abbrev same_issuer : Facts
same_issuer = record {
  filing = none;
  same_issuer = true;
  cusip_switch = false;
  issuer_carries_on = false;
  b_issuer_since = none;
  carried = true;
}

decide_handoff-IsDecision_example : IsDecision pair same_issuer (decide_handoff pair same_issuer)
decide_handoff-IsDecision_example = decide_handoff-IsDecision pair same_issuer

abbrev decision : HandoffDecision
decision = record {
  pair = pair;
  kind = continuation;
  evidence = codes "timing:cik";
  by_filing = false;
}

-- A merger whose worked-out closing day is the taker's first.
abbrev row : Row
row = record {
  delisting = record {
    sec_id = "OLD";
    delist_date = 736110;
    crsp_code = some 241;
    bucket = merger;
    confidence = codes "medium";
    reason = [];
    successor_sec_id = none;
    flags = unconfirmed ∷ [];
    rewrites = [];
  };
  ticker = codes "AB-C";
  cik = 1;
  last_trade = record {
    day = some 736101;
    source = closing_day;
    flags = unconfirmed ∷ [];
    halt_feed_failed = [];
  };
  end_of_era = none;
  filed = none;
  anchor_8k = none;
  ticker_successor = none;
}

abbrev issuers : Issuers
issuers sec_id = some (some 1)

abbrev counts : Counts
counts = record {
  continuations_by_filing = 0;
  continuations_by_timing = 0;
  takeovers = 0;
  conflicts = 0;
  rows_added = 0;
}

abbrev state : State
state = record {
  rows = row ∷ [];
  added = [];
  redated = [];
  notes = [];
  kept = [];
  resolved = [];
  counts = counts;
  payouts = some [];
}

abbrev place : Place
place = record { before = []; row = row; after = [] }

continue_at-IsOutcome_example :
    (st' : State) × (new : Row) × (continue_at state decision none issuers [] (some place)
      ≡ some st')
    × (st'.rows ≡ put_back place new)
    × (is_some st'.payouts ≡ is_some state.payouts)
    × IsOutcome state decision row (conflict_of row decision issuers []) st' new
continue_at-IsOutcome_example =
    continue_at-IsOutcome state decision none issuers [] place (omega arith) (λ h. refl)

-- A takeover behind the continuation.
abbrev takeover_decision : HandoffDecision
takeover_decision = record decision { kind = takeover; evidence = codes "timing" }

apply_handoffs-keys_example :
    (st : State) × (apply_handoffs
        (decision ∷ takeover_decision ∷ [])
        (row ∷ [])
        issuers
        []
        []
        (some [])
      ≡ some st)
    × (keys st.rows ≡ keys (row ∷ []) ++ st.added)
apply_handoffs-keys_example =
    apply_handoffs-keys (decision ∷ takeover_decision ∷ []) (row ∷ []) issuers [] [] [] (
      (omega arith, omega arith, omega arith, (some 1, refl)),
      ((omega arith, omega arith, omega arith, (some 1, refl)), tt),
    )
