-- ===== src/Endings/Handoffs/Steps.antt =====
-- The loop of apply_handoffs, endings/handoffs.py: one decision after the other.
pub mod Continued
pub mod Outcomes
pub mod Places
pub mod Keys
pub mod Totals
use delist_detection.Prelude.{
  ℕ, ◌+◌, Bool, false, not, ◌&&◌, ◌||◌, Option, none, some, List, [], ◌∷◌, ◌++◌, String, Text,
  codes, text_eq, str_eq, is_some, filter, ◌>>=◌, if◌then◌else◌,
}
use delist_detection.Vocabulary.CrspCodes.{is_bucket, merger, unknown}
use delist_detection.Vocabulary.Identifiers.{bare_ticker}
use delist_detection.Vocabulary.ExitKind.LastTrades.{LastTrade, no_day}
use delist_detection.Vocabulary.TradingCalendar.{days_after}
use delist_detection.Identity.History.Endings.{takeover_days}
use delist_detection.Endings.LastTrade.{handoff_day, at_handoff}
use delist_detection.Endings.Handoffs.{HandoffPair, continuation_days}
use delist_detection.Endings.Handoffs.Decisions.{HandoffDecision, Kind, continuation, takeover}
use delist_detection.Endings.Handoffs.Applied.{
  Row, ReviewItem, Conflict, Note, takeover_no_delisting, handoff_conflict, handoff_rebucketed,
  Place, near, put_back, before_taker, unmatched, unmatched_form25, terms_of, link_of, Issuers,
  conflict_of, flagged,
}
use delist_detection.Endings.Rewrites.{
  Delisting, Key, key_of, Payouts, Result, ok, err, is_transfer,
}
use delist_detection.Endings.Rewrites as Rewrites

pub record Counts : Type 0 where
  pub continuations_by_filing : ℕ
  pub continuations_by_timing : ℕ
  pub takeovers : ℕ
  pub conflicts : ℕ
  pub rows_added : ℕ

-- What the loop changes: the rows, those that it added and redated by their keys, the items that it raised,
-- the review rows not dropped yet, the pairs that it resolved, and the counts.
pub record State : Type 0 where
  pub rows : List Row
  pub added : List Key
  pub redated : List Key
  pub notes : List Note
  pub kept : List ReviewItem
  pub resolved : List (Text × String × String)
  pub counts : Counts
  pub payouts : Option Payouts

-- A rewrite's answer; its errors raise.
pub answer {ℓ} : {A : Type ℓ} → Result A → Option A
answer (ok a) = some a
answer (err e) = none

names : Option String → String → Bool
names none b = false
names (some s) b = str_eq s b

-- A's row made the continuation's: one that is no transfer is rewritten, and a transfer is linked to B.
pub rewritten : Delisting → HandoffDecision → Option Payouts → Option (Delisting × Option Payouts)
unfolding answer names
rewritten d decision payouts =
    if not (is_transfer d)
    then (do
      day ← handoff_day decision.pair.a_last decision.pair.b_first
      answer (Rewrites.continuation d (terms_of decision day) payouts))
    else if names d.successor_sec_id decision.pair.b
    then some (d, payouts)
    else (do
      new ← answer (Rewrites.continuation d (link_of decision d.reason) none)
      some (new.0, payouts))

-- `if d.last_trade.day is None`
undated_flags : LastTrade → List Text → List Text
undated_flags lt flags =
    if is_some lt.day then flags else filter (λ f. not (text_eq f no_day)) flags

pub continued : Row → HandoffDecision → Option Payouts → Option (Row × Option Payouts)
unfolding rewritten undated_flags
continued r decision payouts = do
  new ← rewritten r.delisting decision payouts
  last ← at_handoff (some r.last_trade) decision.pair.a_last decision.pair.b_first
  some (
    record r {
      delisting = record new.0 { flags = undated_flags r.last_trade new.0.flags };
      last_trade = last;
    },
    new.1,
  )

-- The day of the Form 25 that it rests on, else the day after A's last sighting.
delist_day : HandoffPair → Option ReviewItem → Option ℕ
delist_day p none = days_after p.a_last 1
delist_day p (some item) = elim item.delist_date [
  | none ↦ days_after p.a_last 1
  | some day ↦ some day
]

-- The row of a continuation whose A has none near it, before it is made the continuation.
blank_row : HandoffDecision → ℕ → LastTrade → ℕ → Row
blank_row decision cik last delist_date = record {
  delisting = record {
    sec_id = decision.pair.a;
    delist_date = delist_date;
    crsp_code = none;
    bucket = unknown;
    confidence = [];
    reason = [];
    successor_sec_id = none;
    flags = [];
    rewrites = [];
  };
  ticker = decision.pair.ticker;
  cik = cik;
  last_trade = last;
  end_of_era = none;
  filed = none;
  anchor_8k = none;
  ticker_successor = none;
}

-- `_continuation_row`; A has to be a security of the run.
pub continuation_row : HandoffDecision → Option (Option ℕ) → Option ReviewItem → Option (Option Row)
unfolding blank_row delist_day answer
continuation_row decision none form25 = none
continuation_row decision (some none) form25 = some none
continuation_row decision (some (some cik)) form25 = do
  delist_date ← delist_day decision.pair form25
  last ← at_handoff none decision.pair.a_last decision.pair.b_first
  let row = blank_row decision cik last delist_date
  day ← handoff_day decision.pair.a_last decision.pair.b_first
  new ← answer (Rewrites.continuation row.delisting (terms_of decision day) none)
  some (some (record row { delisting = new.0 }))

-- The review rows that a continuation explains.
accession_of : Option ReviewItem → Option Text
accession_of none = none
accession_of (some item) = item.accession

is_same : Option Text → Option Text → Bool
is_same (some []) o = false
is_same (some (c ∷ s)) (some t) = text_eq (c ∷ s) t
is_same _ _ = false

pub is_explained : HandoffPair → Option ReviewItem → ReviewItem → Bool
unfolding accession_of is_same
is_explained p form25 r =
    str_eq r.sec_id p.a && text_eq r.flag (codes "ended_without_delisting")
    || is_same (accession_of form25) r.accession
      && text_eq r.flag unmatched_form25
      && (str_eq r.sec_id p.a || str_eq r.sec_id p.b)

pub resolve : State → HandoffPair → Option ReviewItem → State
resolve st p form25 = record st {
  resolved = st.resolved ++ (bare_ticker p.ticker, p.a, p.b) ∷ [];
  kept = filter (λ r. not (is_explained p form25 r)) st.kept;
}

keyed : Bool → Row → List Key
keyed moved r = if moved then key_of r.delisting ∷ [] else []

-- A takeover: the taker on A's row near the handoff.
pub take_over : State → HandoffPair → Option Place → Option State
unfolding keyed
take_over st p none = some (record st { notes = st.notes ++ takeover_no_delisting p.a ∷ [] })
take_over st p (some z) = do
  new ← before_taker (record z.row { ticker_successor = some p.b }) p
  some (record st { rows = put_back z new.0; redated = st.redated ++ keyed new.1 new.0 })

-- A row that stands: its kind, and not its day.
pub stand : State → HandoffPair → Place → Conflict → Option State
unfolding keyed
stand st p z c = do
  new ← before_taker (record z.row { delisting = flagged c p.b z.row.delisting }) p
  some (record st {
    rows = put_back z new.0;
    redated = st.redated ++ keyed new.1 new.0;
    notes = st.notes ++ handoff_conflict p.a c ∷ [];
    counts = record st.counts { conflicts = st.counts.conflicts + 1 };
  })

rebucketed : Row → List Note
rebucketed r =
    if is_bucket r.delisting.bucket merger then handoff_rebucketed r.delisting.sec_id ∷ [] else []

-- A's row kept as the continuation's.
pub keep : State → HandoffDecision → Option ReviewItem → Place → Option State
unfolding rebucketed
keep st decision form25 z = do
  new ← continued z.row decision st.payouts
  some (
      resolve
        (record st {
          rows = put_back z new.0;
          payouts = new.1;
          notes = st.notes ++ rebucketed z.row;
        })
        decision.pair form25)

-- A's row written, unless its issuer is not known.
pub write : State → HandoffDecision → Option ReviewItem → Option Row → State
write st decision form25 none = st
write st decision form25 (some r) =
    resolve
      (record st {
        rows = st.rows ++ r ∷ [];
        added = st.added ++ key_of r.delisting ∷ [];
        counts = record st.counts { rows_added = st.counts.rows_added + 1 };
      })
      decision.pair form25

pub continue_at :
    State → HandoffDecision → Option ReviewItem → Issuers → List Key → Option Place → Option State
continue_at st decision form25 issuers reconciled none = do
  row ← continuation_row decision (issuers decision.pair.a) form25
  some (write st decision form25 row)
continue_at st decision form25 issuers reconciled (some z) =
    elim (conflict_of z.row decision issuers reconciled) [
      | some c ↦ stand st decision.pair z c
      | none ↦ keep st decision form25 z
    ]

counted : HandoffDecision → Counts → Counts
counted decision c = elim decision.kind [
  | takeover ↦ record c { takeovers = c.takeovers + 1 }
  | continuation ↦
      if decision.by_filing
      then record c { continuations_by_filing = c.continuations_by_filing + 1 }
      else record c { continuations_by_timing = c.continuations_by_timing + 1 }
]

-- The decision acted on by its kind.
pub apply_kind :
    Kind → List ReviewItem → Issuers → List Key → HandoffDecision → State → Option State
apply_kind takeover review issuers reconciled decision st = do
  row ← near decision.pair takeover_days st.rows
  take_over st decision.pair row
apply_kind continuation review issuers reconciled decision st = do
  row ← near decision.pair continuation_days st.rows
  form25 ← unmatched decision.pair review
  continue_at st decision form25 issuers reconciled row

pub apply_one : List ReviewItem → Issuers → List Key → HandoffDecision → State → Option State
unfolding counted apply_kind
apply_one review issuers reconciled decision st =
    apply_kind decision.kind review issuers reconciled decision
      (record st { counts = counted decision st.counts })

pub apply_all : List ReviewItem → Issuers → List Key → List HandoffDecision → State → Option State
apply_all review issuers reconciled [] st = some st
apply_all review issuers reconciled (d ∷ ds) st = do
  new ← apply_one review issuers reconciled d st
  apply_all review issuers reconciled ds new

-- `apply_handoffs`
pub apply_handoffs :
    List HandoffDecision
    → List Row
    → Issuers
    → List ReviewItem
    → List Key
    → Option Payouts
    → Option State
apply_handoffs decisions rows issuers review reconciled payouts =
    apply_all review issuers reconciled decisions (record {
      rows = rows;
      added = [];
      redated = [];
      notes = [];
      kept = review;
      resolved = [];
      counts = record {
        continuations_by_filing = 0;
        continuations_by_timing = 0;
        takeovers = 0;
        conflicts = 0;
        rows_added = 0;
      };
      payouts = payouts;
    })
