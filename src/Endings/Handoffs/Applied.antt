-- ===== src/Endings/Handoffs/Applied.antt =====
-- apply_handoffs of endings/handoffs.py: what each decision does to the delistings and to the review. A row
-- that the program changes in place is put back in its place; the messages of the items that it raises are
-- kept as what they say; `none` is where the program raises.
use delist_detection.Prelude.{
  ℕ, ◌+◌, ◌-◌, Bool, true, false, not, ◌&&◌, ◌||◌, Option, none, some, List, [], ◌∷◌, ◌++◌, String,
  Text, codes, text_eq, text_le, str_eq, ltb, leb, ◌==◌, ◌>>=◌, max, is_some, if◌then◌else◌,
}
use delist_detection.Days.{isoformat}
use delist_detection.Vocabulary.CrspCodes.{is_bucket, exchange_transfer, merger, unknown}
use delist_detection.Vocabulary.ExitKind.LastTrades.{LastTrade, is_exchange_print}
use delist_detection.Vocabulary.ExitKind.Reasons.{continuation_reason, successor_note}
use delist_detection.Vocabulary.TradingCalendar.{previous_trading_day, days_before, days_after}
use delist_detection.Endings.LastTrade.{before_successor, anchor_day, is_past}
use delist_detection.Endings.Handoffs.{HandoffPair}
use delist_detection.Endings.Handoffs.Decisions.{HandoffDecision, timing_cusip}
use delist_detection.Endings.Rewrites.{Delisting, Key, key_of, is_held, Terms, handoff}

abbrev pub form25_near_days : ℕ
form25_near_days = 30

-- `CONTINUATION_FLAG`
abbrev pub continuation_flag : Text
continuation_flag = codes "handoff_continuation"

abbrev pub unmatched_form25 : Text
unmatched_form25 = codes "form25_unmatched"

-- A delisting with what the pass reads of it beside its kind.
pub record Row : Type 0 where
  pub delisting : Delisting
  pub ticker : Text
  pub cik : ℕ
  pub last_trade : LastTrade
  pub end_of_era : Option Text
  pub filed : Option ℕ
  pub anchor_8k : Option ℕ
  pub ticker_successor : Option String

-- A review row, its filing by its accession.
pub record ReviewItem : Type 0 where
  pub sec_id : String
  pub flag : Text
  pub delist_date : Option ℕ
  pub reason : Text
  pub accession : Option Text

-- Why a row stands against a continuation.
pub data Conflict : Type 0 where
  names_another paid_across_issuers unchecked reconciled_payout own_statement ended_otherwise :
      Conflict

-- The items that the pass raises, each of a security.
pub data Note : Type 0 where
  takeover_no_delisting : String → Note
  handoff_conflict : String → Conflict → Note
  handoff_rebucketed : String → Note

-- `_day_of`
pub day_of : Row → ℕ
day_of r = anchor_day r.last_trade r.delisting.delist_date r.filed r.anchor_8k

distance : ℕ → ℕ → ℕ
distance d e = (d - e) + (e - d)

pub is_near : HandoffPair → (lo hi : ℕ) → Row → Bool
unfolding day_of
is_near p lo hi r = str_eq r.delisting.sec_id p.a && leb lo (day_of r) && leb (day_of r) hi

-- The row comes before the other one in the order of `(abs((_day_of(d) - a).days), d.delist_date)`.
pub closer : HandoffPair → Row → Row → Bool
unfolding distance day_of
closer p r s =
    let near = distance (day_of r) p.a_last in
    let far = distance (day_of s) p.a_last in
    ltb near far || (near == far) && ltb r.delisting.delist_date s.delisting.delist_date

-- A row in its place among the others.
pub record Place : Type 0 where
  pub before : List Row
  pub row : Row
  pub after : List Row

unfoldable pub behind : Row → Option Place → Option Place
behind r none = none
behind r (some z) = some (record z { before = r ∷ z.before })

-- The row, unless a later one is nearer.
unfoldable pub nearer : HandoffPair → Row → List Row → Option Place → Option Place
unfolding closer behind
nearer p r rs none = some (record { before = []; row = r; after = rs })
nearer p r rs (some z) =
    if closer p z.row r
    then behind r (some z)
    else some (record { before = []; row = r; after = rs })

-- The nearest row dated from `lo` to `hi`.
unfoldable pub nearest : HandoffPair → (lo hi : ℕ) → List Row → Option Place
unfolding is_near nearer behind
nearest p lo hi [] = none
nearest p lo hi (r ∷ rs) =
    let rest = nearest p lo hi rs in if is_near p lo hi r then nearer p r rs rest else behind r rest

-- `_near`
unfoldable pub near : HandoffPair → ℕ → List Row → Option (Option Place)
unfolding nearest
near p days rows = do
  lo ← days_before p.a_last days
  hi ← days_after (max p.a_last p.b_first) days
  some (nearest p lo hi rows)

unfoldable pub put_back : Place → Row → List Row
put_back z r = z.before ++ r ∷ z.after

-- A lived on under another ticker: B's first day does not say when it stopped.
pub trades_on : HandoffPair → Bool
trades_on p = elim p.a_last_any [ none ↦ false | some last ↦ ltb p.a_last last ]

-- Whether `before_successor` moves the day.
pub moves : LastTrade → ℕ → Bool
moves lt b_first = elim (previous_trading_day b_first) [
  | none ↦ false
  | some p ↦ not (is_exchange_print lt.source) && is_past lt.day p
]

-- `_before_taker`: the row, and whether its day moved.
unfoldable pub before_taker : Row → HandoffPair → Option (Row × Bool)
unfolding trades_on moves
before_taker r p =
    if trades_on p then some (r, false) else elim (before_successor r.last_trade p.b_first) [
      | none ↦ none
      | some capped ↦ some (record r { last_trade = capped }, moves r.last_trade p.b_first)
    ]

-- A's ambiguous Form 25 that took effect soon after the handoff.
is_unmatched : HandoffPair → (hi : ℕ) → ReviewItem → Bool
is_unmatched p hi r =
    str_eq r.sec_id p.a
    && text_eq r.flag unmatched_form25
    && is_some r.accession
    && elim r.delist_date [ none ↦ false | some day ↦ leb p.a_last day && leb day hi ]

-- The order of `(delist_date, reason)`, of items that have a date.
dated_before : ReviewItem → ReviewItem → Bool
dated_before r s = elim r.delist_date [
  | none ↦ true
  | some d ↦ elim s.delist_date [
    | none ↦ false
    | some e ↦ ltb d e || (d == e) && text_le r.reason s.reason
  ]
]

-- The first of them that took effect by `hi`.
pub unmatched_by : HandoffPair → (hi : ℕ) → List ReviewItem → Option ReviewItem
unfolding is_unmatched dated_before
unmatched_by p hi [] = none
unmatched_by p hi (r ∷ rs) =
    let rest = unmatched_by p hi rs in
    if is_unmatched p hi r
    then some (elim rest [ none ↦ r | some s ↦ if dated_before r s then r else s ])
    else rest

-- `_unmatched_form25`
unfoldable pub unmatched : HandoffPair → List ReviewItem → Option (Option ReviewItem)
unfolding unmatched_by
unmatched p review = do
  hi ← days_after (max p.a_last p.b_first) form25_near_days
  some (unmatched_by p hi review)

-- `_continuation_reason`
pub reason_of : HandoffDecision → ℕ → Text
reason_of d day =
    let p = d.pair in
    continuation_reason d.evidence (
      codes p.a
      ++ (codes " last traded as "
          ++ (p.ticker
              ++ (codes " on "
                  ++ (isoformat day
                      ++ (codes " and "
                          ++ (codes p.b
                              ++ (codes " took the ticker from "
                                  ++ (isoformat p.b_first
                                      ++ (codes "; holders' shares became "
                                          ++ (codes p.b ++ codes "'s")))))))))))

-- The terms that `_continue` gives the rewrite.
unfoldable pub terms_of : HandoffDecision → ℕ → Terms
unfolding reason_of
terms_of d day = record {
  successor = d.pair.b;
  rule = handoff;
  reason = some (reason_of d day);
  confidence = some (if d.by_filing then codes "high" else codes "medium");
  flag = some continuation_flag;
  how = codes "handoff";
  evidence = d.evidence;
  successor_from = isoformat d.pair.b_first;
}

-- A transfer that names no successor yet keeps its kind: a note is added to its reason.
unfoldable pub link_of : HandoffDecision → Text → Terms
link_of d reason = record {
  successor = d.pair.b;
  rule = handoff;
  reason = some (reason ++ successor_note (codes "handoff") d.evidence);
  confidence = none;
  flag = some continuation_flag;
  how = codes "handoff";
  evidence = d.evidence;
  successor_from = isoformat d.pair.b_first;
}

names_other : Option String → String → Bool
names_other none b = false
names_other (some s) b = not (str_eq s "" || str_eq s b)

is_statement : Option Text → Bool
is_statement none = false
is_statement (some t) = text_eq t (codes "successor_merger")

-- What the run knows of a security's issuer: none of a security that it does not hold.
abbrev pub Issuers : Type 0
Issuers = String → Option (Option ℕ)

-- A security of the run that has no issuer.
is_unissued : Option (Option ℕ) → Bool
is_unissued (some none) = true
is_unissued _ = false

pub conflict_of : Row → HandoffDecision → Issuers → List Key → Option Conflict
unfolding names_other is_statement is_unissued
conflict_of r d issuers reconciled =
    let is_merger = is_bucket r.delisting.bucket merger in
    if names_other r.delisting.successor_sec_id d.pair.b
    then some names_another
    else if is_merger && text_eq d.evidence timing_cusip
    then some (if is_unissued (issuers d.pair.b) then unchecked else paid_across_issuers)
    else if is_merger && not d.by_filing && is_held (key_of r.delisting) reconciled
    then some reconciled_payout
    else if is_merger && is_statement r.end_of_era
    then some own_statement
    else if not is_merger
        && not (is_bucket r.delisting.bucket exchange_transfer)
        && not (is_bucket r.delisting.bucket unknown)
    then some ended_otherwise
    else none

-- `d.add_flag(f"{HANDOFF_UNCHECKED}:{p.b}")`, where the handoff could not be checked.
unfoldable pub flagged : Conflict → String → Delisting → Delisting
flagged unchecked b d = record d { flags = d.flags ++ (codes "handoff_unchecked:" ++ codes b) ∷ [] }
flagged _ b d = d
