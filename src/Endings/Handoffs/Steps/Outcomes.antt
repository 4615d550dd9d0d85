-- ===== src/Endings/Handoffs/Steps/Outcomes.antt =====
-- What one decision of apply_handoffs, endings/handoffs.py, leaves of A's row.
use delist_detection.Prelude.{
  ◌+◌, ◌≤◌, ◌≡◌, refl, ap, inl, inr, ◌⊎◌, Bool, true, false, Option, none, some, List, [], ◌∷◌,
  ◌++◌, String, is_some, Bool-cases,
}
use delist_detection.Vocabulary.CrspCodes.{is_bucket, merger}
use delist_detection.Vocabulary.Identifiers.{bare_ticker}
use delist_detection.Endings.LastTrade.Handing.{IsCapped, before_successor-IsCapped}
use delist_detection.Endings.Handoffs.{HandoffPair}
use delist_detection.Endings.Handoffs.Decisions.{HandoffDecision}
use delist_detection.Endings.Handoffs.Applied.{
  Row, ReviewItem, Conflict, handoff_conflict, Place, put_back, trades_on, moves, before_taker,
  Issuers, conflict_of, flagged,
}
use delist_detection.Endings.Handoffs.Steps.{
  State, continue_at, keep, stand, take_over, resolve, keyed, rebucketed,
}
use delist_detection.Endings.Handoffs.Steps.Continued.{IsContinued, continued-IsContinued}
use delist_detection.Endings.Rewrites.{Delisting, Key, key_of}

-- A capped row of an A that did not trade on under another ticker; one that did keeps its last trade.
abbrev pub HasDay : HandoffPair → Row → Row → Type 0
HasDay p r new =
    ((trades_on p ≡ true) × (new.last_trade ≡ r.last_trade))
    ⊎ ((trades_on p ≡ false) × IsCapped new.last_trade p.b_first)

before_taker-HasDay :
    (r : Row) (p : HandoffPair)
    → 3 ≤ p.b_first
    → (new : Row) × (moved : Bool) × (before_taker r p ≡ some (new, moved))
      × (new.delisting ≡ r.delisting)
      × (new.ticker_successor ≡ r.ticker_successor)
      × HasDay p r new
unfolding before_taker
before_taker-HasDay r p past = elim (Bool-cases (trades_on p)) [
  | inl on ↦ (r, false, rw (on, before_taker) refl, refl, refl, inl (on, refl))
  | inr off ↦
      let (capped, e, ends) = before_successor-IsCapped r.last_trade p.b_first past in
      (
        record r { last_trade = capped },
        moves r.last_trade p.b_first,
        rw (off, before_taker, e) refl,
        refl,
        refl,
        inr (off, ends),
      )
]

-- The kind of a delisting, and what the rewrites recorded of it.
abbrev pub HasKind : Delisting → Delisting → Type 0
HasKind d e =
    (e.bucket ≡ d.bucket)
    × (e.crsp_code ≡ d.crsp_code)
    × (e.successor_sec_id ≡ d.successor_sec_id)
    × (e.reason ≡ d.reason)
    × (e.rewrites ≡ d.rewrites)
    × (key_of e ≡ key_of d)

pub flagged-HasKind : (c : Conflict) (b : String) (d : Delisting) → HasKind d (flagged c b d)
unfolding flagged key_of
flagged-HasKind Conflict.unchecked b d = (refl, refl, refl, refl, refl, refl)
flagged-HasKind Conflict.names_another b d = (refl, refl, refl, refl, refl, refl)
flagged-HasKind Conflict.paid_across_issuers b d = (refl, refl, refl, refl, refl, refl)
flagged-HasKind Conflict.reconciled_payout b d = (refl, refl, refl, refl, refl, refl)
flagged-HasKind Conflict.own_statement b d = (refl, refl, refl, refl, refl, refl)
flagged-HasKind Conflict.ended_otherwise b d = (refl, refl, refl, refl, refl, refl)

-- A takeover's target keeps its delisting and names the taker, and its day is capped by the taker's first
-- day, unless it traded on under another ticker.
pub take_over-HasDay :
    (st : State) (p : HandoffPair) (z : Place)
    → 3 ≤ p.b_first
    → (st' : State) × (new : Row) × (take_over st p (some z) ≡ some st')
      × (st'.rows ≡ put_back z new)
      × (new.delisting ≡ z.row.delisting)
      × (new.ticker_successor ≡ some p.b)
      × (st'.payouts ≡ st.payouts)
      × HasDay p z.row new
unfolding take_over
take_over-HasDay st p z past =
    let (new, moved, e, same, taker, day) =
      before_taker-HasDay (record z.row { ticker_successor = some p.b }) p past in
    (
      record st { rows = put_back z new; redated = st.redated ++ keyed moved new },
      new,
      rw (e) refl,
      refl,
      same,
      taker,
      refl,
      day,
    )

pub stand-HasKind :
    (st : State) (p : HandoffPair) (z : Place) (c : Conflict)
    → 3 ≤ p.b_first
    → (st' : State) × (new : Row) × (stand st p z c ≡ some st')
      × (st'.rows ≡ put_back z new)
      × (st'.resolved ≡ st.resolved)
      × (st'.payouts ≡ st.payouts)
      × HasKind z.row.delisting new.delisting
      × HasDay p z.row new
unfolding stand
stand-HasKind st p z c past =
    let (new, moved, e, same, taker, day) =
      before_taker-HasDay (record z.row { delisting = flagged c p.b z.row.delisting }) p past in
    (
      record st {
        rows = put_back z new;
        redated = st.redated ++ keyed moved new;
        notes = st.notes ++ handoff_conflict p.a c ∷ [];
        counts = record st.counts { conflicts = st.counts.conflicts + 1 };
      },
      new,
      rw (e) refl,
      refl,
      refl,
      refl,
      rw same (flagged-HasKind c p.b z.row.delisting),
      day,
    )

keep-IsContinued :
    (st : State) (decision : HandoffDecision) (form25 : Option ReviewItem) (z : Place)
    → 3 ≤ decision.pair.b_first
    → (is_bucket z.row.delisting.bucket merger ≡ true → is_some st.payouts ≡ true)
    → (st' : State) × (new : Row) × (keep st decision form25 z ≡ some st')
      × (st'.rows ≡ put_back z new)
      × (st'.resolved
          ≡ st.resolved
            ++ (bare_ticker decision.pair.ticker, decision.pair.a, decision.pair.b) ∷ [])
      × (is_some st'.payouts ≡ is_some st.payouts)
      × IsContinued z.row decision new
unfolding keep resolve
keep-IsContinued st decision form25 z past paid =
    let (new, pays, e, paid_, continued_) =
      continued-IsContinued z.row decision st.payouts past paid in
    (
      resolve
          (record st {
            rows = put_back z new;
            payouts = pays;
            notes = st.notes ++ rebucketed z.row;
          })
          decision.pair form25,
      new,
      rw (e) refl,
      refl,
      refl,
      paid_,
      continued_,
    )

-- The row is the continuation's, and the pair is resolved; or it stands against a conflict.
abbrev pub IsOutcome : State → HandoffDecision → Row → Option Conflict → State → Row → Type 0
IsOutcome st decision r none st' new =
    IsContinued r decision new
    × (st'.resolved
        ≡ st.resolved ++ (bare_ticker decision.pair.ticker, decision.pair.a, decision.pair.b) ∷ [])
IsOutcome st decision r (some c) st' new =
    HasKind r.delisting new.delisting × HasDay decision.pair r new × (st'.resolved ≡ st.resolved)

continue_by :
    (st : State) (decision : HandoffDecision) (form25 : Option ReviewItem) (issuers : Issuers)
    (reconciled : List Key) (z : Place) (o : Option Conflict)
    → conflict_of z.row decision issuers reconciled ≡ o
    → 3 ≤ decision.pair.b_first
    → (is_bucket z.row.delisting.bucket merger ≡ true → is_some st.payouts ≡ true)
    → (st' : State) × (new : Row) × (continue_at st decision form25 issuers reconciled (some z)
        ≡ some st')
      × (st'.rows ≡ put_back z new)
      × (is_some st'.payouts ≡ is_some st.payouts)
      × IsOutcome st decision z.row o st' new
unfolding continue_at
continue_by st decision form25 issuers reconciled z none e past paid =
    let (st', new, goes, rows, resolved, left, into) =
      keep-IsContinued st decision form25 z past paid in
    (st', new, rw (e, continue_at) goes, rows, left, (into, resolved))
continue_by st decision form25 issuers reconciled z (some c) e past paid =
    let (st', new, goes, rows, resolved, left, kind, day) =
      stand-HasKind st decision.pair z c past in
    (st', new, rw (e, continue_at) goes, rows, ap (λ o. is_some o) left, (kind, day, resolved))

-- A continuation of a row of A always comes to an end, where B's first day is 0001-01-03 or later and a merger's values
-- are given. Without a conflict the row is an exchange transfer into B under its own key, which ends before B's
-- first day unless an exchange print dates it, and the pair is resolved. With one the row keeps its kind, code,
-- successor, reason and key, and the pair is not resolved; its day too is capped by B's first day, unless an exchange print gave it or A
-- traded on under another ticker.
pub continue_at-IsOutcome :
    (st : State) (decision : HandoffDecision) (form25 : Option ReviewItem) (issuers : Issuers)
    (reconciled : List Key) (z : Place)
    → 3 ≤ decision.pair.b_first
    → (is_bucket z.row.delisting.bucket merger ≡ true → is_some st.payouts ≡ true)
    → (st' : State) × (new : Row) × (continue_at st decision form25 issuers reconciled (some z)
        ≡ some st')
      × (st'.rows ≡ put_back z new)
      × (is_some st'.payouts ≡ is_some st.payouts)
      × IsOutcome st decision z.row (conflict_of z.row decision issuers reconciled) st' new
continue_at-IsOutcome st decision form25 issuers reconciled z past paid =
    continue_by st decision form25 issuers reconciled z
      (conflict_of z.row decision issuers reconciled) refl past paid
