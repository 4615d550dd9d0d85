-- ===== src/Endings/Handoffs/Steps/Totals.antt =====
-- apply_handoffs of endings/handoffs.py comes to an end, with every row in its place.
use delist_detection.Prelude.{
  ℕ, ◌+◌, ◌<◌, max, arith, ◌≤◌, ◌≡◌, refl, ap, ◌∙◌, true, Option, none, some, List, [], ◌∷◌, ◌++◌,
  is_some, All,
}
use delist_detection.Identity.History.Endings.{takeover_days}
use delist_detection.Vocabulary.TradingCalendar.{last_day, days_after-some}
use delist_detection.Endings.Handoffs.{HandoffPair, continuation_days}
use delist_detection.Endings.Handoffs.Decisions.{HandoffDecision, Kind, continuation, takeover}
use delist_detection.Endings.Handoffs.Applied.{
  Row, ReviewItem, Place, unmatched, unmatched_by, form25_near_days, Issuers,
}
use delist_detection.Endings.Handoffs.Steps.{
  State, apply_one, apply_kind, apply_all, apply_handoffs, continue_at, take_over, write, resolve,
  counted,
}
use delist_detection.Endings.Handoffs.Steps.Continued.{continuation_row-written}
use delist_detection.Endings.Handoffs.Steps.Outcomes.{take_over-HasDay, continue_at-IsOutcome}
use delist_detection.Endings.Handoffs.Steps.Places.{keys, near-found}
use delist_detection.Endings.Handoffs.Steps.Keys.{apply_handoffs-HasKeys}
use delist_detection.Endings.Rewrites.{Key, Payouts}

-- A pair that the pass can act on: B's first day has a trading day before it, the days looked at around the handoff,
-- at most 120 before A's last and 120 after both, are the calendar's, and A is a security of the run.
abbrev pub IsActionable : Issuers → HandoffDecision → Type 0
IsActionable issuers decision =
    (3 ≤ decision.pair.b_first)
    × (takeover_days < decision.pair.a_last)
    × (max decision.pair.a_last decision.pair.b_first + takeover_days ≤ last_day)
    × ((issuer : Option ℕ) × (issuers decision.pair.a ≡ some issuer))

-- A state, with the merger values still given.
abbrev IsReady : Option State → Type 0
IsReady o = (st : State) × (o ≡ some st) × (is_some st.payouts ≡ true)

take_over-IsReady :
    (st : State) (decision : HandoffDecision) (o : Option Place)
    → 3 ≤ decision.pair.b_first
    → is_some st.payouts ≡ true
    → IsReady (take_over st decision.pair o)
unfolding take_over
take_over-IsReady st decision none past paid = (_, refl, paid)
take_over-IsReady st decision (some z) past paid =
    let (st', new, e, rows, same, taker, left, day) = take_over-HasDay st decision.pair z past in
    (st', e, ap (λ o. is_some o) left ∙ paid)

write-payouts :
    (st : State) (decision : HandoffDecision) (form25 : Option ReviewItem) (o : Option Row)
    → (write st decision form25 o).payouts ≡ st.payouts
unfolding write resolve
write-payouts st decision form25 none = refl
write-payouts st decision form25 (some r) = refl

continue_at-IsReady :
    (st : State) (decision : HandoffDecision) (form25 : Option ReviewItem) (issuers : Issuers)
    (reconciled : List Key) (o : Option Place)
    → IsActionable issuers decision
    → is_some st.payouts ≡ true
    → IsReady (continue_at st decision form25 issuers reconciled o)
unfolding continue_at
continue_at-IsReady st decision form25 issuers reconciled none (past, early, late, (issuer, known))
      paid =
    let (row, e, _) = continuation_row-written decision issuer form25 past (omega (arith, late)) in
    (
      write st decision form25 row,
      rw (known, continue_at, e) refl,
      ap (λ o. is_some o) (write-payouts st decision form25 row) ∙ paid,
    )
continue_at-IsReady st decision form25 issuers reconciled (some z) able paid =
    let (st', new, e, rows, left, outcome) =
      continue_at-IsOutcome st decision form25 issuers reconciled z able.0 (λ h. paid) in
    (st', e, left ∙ paid)

unmatched-found :
    (p : HandoffPair) (review : List ReviewItem)
    → max p.a_last p.b_first + form25_near_days ≤ last_day
    → (o : Option ReviewItem) × (unmatched p review ≡ some o)
unfolding unmatched
unmatched-found p review late =
    let by = days_after-some (max p.a_last p.b_first) form25_near_days late in
    (unmatched_by p (max p.a_last p.b_first + form25_near_days) review, rw (by, unmatched) refl)

apply_kind-IsReady :
    (kind : Kind) (review : List ReviewItem) (issuers : Issuers) (reconciled : List Key)
    (decision : HandoffDecision) (st : State)
    → IsActionable issuers decision
    → is_some st.payouts ≡ true
    → IsReady (apply_kind kind review issuers reconciled decision st)
unfolding apply_kind
apply_kind-IsReady takeover review issuers reconciled decision st able paid =
    let (o, on) = near-found decision.pair takeover_days st.rows able.1 able.2 in
    rw (on, apply_kind) (take_over-IsReady st decision o able.0 paid)
apply_kind-IsReady continuation review issuers reconciled decision st able paid =
    let early = able.1 in
    let late = able.2 in
    let (o, on) =
      near-found decision.pair continuation_days st.rows (omega (arith, early))
        (omega (arith, late)) in
    let (form25, found) = unmatched-found decision.pair review (omega (arith, late)) in
    rw (on, found, apply_kind)
      (continue_at-IsReady st decision form25 issuers reconciled o able paid)

apply_one-IsReady :
    (review : List ReviewItem) (issuers : Issuers) (reconciled : List Key)
    (decision : HandoffDecision) (st : State)
    → IsActionable issuers decision
    → is_some st.payouts ≡ true
    → IsReady (apply_one review issuers reconciled decision st)
unfolding apply_one
apply_one-IsReady review issuers reconciled decision st able paid =
    apply_kind-IsReady decision.kind review issuers reconciled decision
      (record st { counts = counted decision st.counts }) able paid

apply_all-IsReady :
    (review : List ReviewItem) (issuers : Issuers) (reconciled : List Key)
    (decisions : List HandoffDecision) (st : State)
    → All (IsActionable issuers) decisions
    → is_some st.payouts ≡ true
    → IsReady (apply_all review issuers reconciled decisions st)
unfolding apply_all
apply_all-IsReady review issuers reconciled [] st able paid = (st, refl, paid)
apply_all-IsReady review issuers reconciled (d ∷ ds) st able paid =
    let (next, e, left) = apply_one-IsReady review issuers reconciled d st able.0 paid in
    let (last, f, right) = apply_all-IsReady review issuers reconciled ds next able.1 left in
    (last, rw (e, apply_all) f, right)

-- The pass over any decisions comes to an end, where each B's first day is 0001-01-03 or later, each A's last
-- day is later than the calendar's 120th day, both days are 120 days or more before the calendar's last, each
-- A is a security of the run, and the merger values are given. The rows that it leaves are the ones that it
-- was given, in their order and under their keys, with the rows that it added behind them: none is lost,
-- doubled or moved.
pub apply_handoffs-keys :
    (decisions : List HandoffDecision) (rows : List Row) (issuers : Issuers)
    (review : List ReviewItem) (reconciled : List Key) (payouts : Payouts)
    → All (IsActionable issuers) decisions
    → (st : State) × (apply_handoffs decisions rows issuers review reconciled (some payouts)
        ≡ some st)
      × (keys st.rows ≡ keys rows ++ st.added)
unfolding apply_handoffs
apply_handoffs-keys decisions rows issuers review reconciled payouts able =
    let has = apply_handoffs-HasKeys decisions rows issuers review reconciled (some payouts) in
    let (st, e, _) = apply_all-IsReady review issuers reconciled decisions _ able refl in
    (st, e, rw e at has)
