-- ===== src/Endings/Handoffs/Steps/Keys.antt =====
-- The rows of apply_handoffs, endings/handoffs.py, by their keys.
use delist_detection.Prelude.{
  ◌≡◌, sym, ◌∙◌, ap, inl, inr, Option, none, some, List, [], ◌∷◌, ◌++◌, append_assoc, append-nil,
  Option-cases,
}
use delist_detection.Identity.History.Endings.{takeover_days}
use delist_detection.Endings.Handoffs.{HandoffPair, continuation_days}
use delist_detection.Endings.Handoffs.Decisions.{HandoffDecision, Kind, continuation, takeover}
use delist_detection.Endings.Handoffs.Applied.{
  Row, ReviewItem, Conflict, Place, near, put_back, before_taker, unmatched, Issuers, conflict_of,
  flagged,
}
use delist_detection.Endings.Handoffs.Steps.{
  State, apply_one, apply_all, apply_handoffs, continue_at, keep, stand, take_over, write, resolve,
  continued, continuation_row, apply_kind, counted,
}
use delist_detection.Endings.Handoffs.Steps.Outcomes.{flagged-HasKind}
use delist_detection.Endings.Rewrites.{Key, key_of, Payouts}
use delist_detection.Endings.Handoffs.Steps.Places.{
  keys, IsPlaceOf, near-IsPlaceIn, keys-append, keys-put_back, continued-IsSameRow,
  before_taker-IsSameRow,
}

-- The rows are the first ones with the added ones behind them.
abbrev pub HasKeys : List Key → Option State → Type 0
HasKeys base none = Unit
HasKeys base (some st) = keys st.rows ≡ base ++ st.added

-- The state with a row put back under its key.
put_back-HasKeys :
    (base : List Key) (st : State) (z : Place) (new : Row)
    → put_back z z.row ≡ st.rows
    → key_of new.delisting ≡ key_of z.row.delisting
    → keys st.rows ≡ base ++ st.added
    → keys (put_back z new) ≡ base ++ st.added
put_back-HasKeys base st z new place same h = keys-put_back z new same ∙ (ap keys place ∙ h)

take_over-HasKeys :
    (base : List Key) (st : State) (p : HandoffPair) (o : Option Place)
    → IsPlaceOf st.rows o
    → keys st.rows ≡ base ++ st.added
    → HasKeys base (take_over st p o)
unfolding take_over
take_over-HasKeys base st p none place h = h
take_over-HasKeys base st p (some z) place h =
    let r : Row = record z.row { ticker_successor = some p.b } in
    let same = before_taker-IsSameRow r p in
    elim (Option-cases (before_taker r p)) [
      | inl off ↦ rw (off, take_over) tt
      | inr (new, on) ↦
          rw (on, take_over) (put_back-HasKeys base st z new.0 place (rw on at same) h)
    ]

stand-HasKeys :
    (base : List Key) (st : State) (p : HandoffPair) (z : Place) (c : Conflict)
    → put_back z z.row ≡ st.rows
    → keys st.rows ≡ base ++ st.added
    → HasKeys base (stand st p z c)
unfolding stand
stand-HasKeys base st p z c place h =
    let r : Row = record z.row { delisting = flagged c p.b z.row.delisting } in
    let same = before_taker-IsSameRow r p in
    elim (Option-cases (before_taker r p)) [
      | inl off ↦ rw (off, stand) tt
      | inr (new, on) ↦
          let kept : key_of new.0.delisting ≡ key_of r.delisting = rw on at same in
          rw (on, stand)
            (put_back-HasKeys base st z new.0 place
              (kept ∙ (flagged-HasKind c p.b z.row.delisting).5) h)
    ]

keep-HasKeys :
    (base : List Key) (st : State) (decision : HandoffDecision) (form25 : Option ReviewItem)
    (z : Place)
    → put_back z z.row ≡ st.rows
    → keys st.rows ≡ base ++ st.added
    → HasKeys base (keep st decision form25 z)
unfolding keep resolve
keep-HasKeys base st decision form25 z place h =
    let same = continued-IsSameRow z.row decision st.payouts in
    elim (Option-cases (continued z.row decision st.payouts)) [
      | inl off ↦ rw (off, keep) tt
      | inr (new, on) ↦ rw (on, keep) (put_back-HasKeys base st z new.0 place (rw on at same) h)
    ]

write-HasKeys :
    (base : List Key) (st : State) (decision : HandoffDecision) (form25 : Option ReviewItem)
    (o : Option Row)
    → keys st.rows ≡ base ++ st.added
    → keys (write st decision form25 o).rows ≡ base ++ (write st decision form25 o).added
unfolding write resolve
write-HasKeys base st decision form25 none h = h
write-HasKeys base st decision form25 (some r) h =
    let k = key_of r.delisting ∷ [] in
    keys-append st.rows (r ∷ []) ∙ (ap (λ ks. ks ++ k) h ∙ append_assoc base st.added k)

continue_at-HasKeys :
    (base : List Key) (st : State) (decision : HandoffDecision) (form25 : Option ReviewItem)
    (issuers : Issuers) (reconciled : List Key) (o : Option Place)
    → IsPlaceOf st.rows o
    → keys st.rows ≡ base ++ st.added
    → HasKeys base (continue_at st decision form25 issuers reconciled o)
unfolding continue_at
continue_at-HasKeys base st decision form25 issuers reconciled none place h =
    elim (Option-cases (continuation_row decision (issuers decision.pair.a) form25)) [
      | inl off ↦ rw (off, continue_at) tt
      | inr (row, on) ↦ rw (on, continue_at) (write-HasKeys base st decision form25 row h)
    ]
continue_at-HasKeys base st decision form25 issuers reconciled (some z) place h =
    elim (Option-cases (conflict_of z.row decision issuers reconciled)) [
      | inl free ↦ rw (free, continue_at) (keep-HasKeys base st decision form25 z place h)
      | inr (c, against) ↦
          rw (against, continue_at) (stand-HasKeys base st decision.pair z c place h)
    ]

apply_kind-HasKeys :
    (base : List Key) (kind : Kind) (review : List ReviewItem) (issuers : Issuers)
    (reconciled : List Key) (decision : HandoffDecision) (st : State)
    → keys st.rows ≡ base ++ st.added
    → HasKeys base (apply_kind kind review issuers reconciled decision st)
unfolding apply_kind
apply_kind-HasKeys base takeover review issuers reconciled decision st h =
    let place = near-IsPlaceIn decision.pair takeover_days st.rows in
    elim (Option-cases (near decision.pair takeover_days st.rows)) [
      | inl off ↦ rw (off, apply_kind) tt
      | inr (o, on) ↦
          rw (on, apply_kind) (take_over-HasKeys base st decision.pair o (rw on at place) h)
    ]
apply_kind-HasKeys base continuation review issuers reconciled decision st h =
    let place = near-IsPlaceIn decision.pair continuation_days st.rows in
    elim (Option-cases (near decision.pair continuation_days st.rows)) [
      | inl off ↦ rw (off, apply_kind) tt
      | inr (o, on) ↦ elim (Option-cases (unmatched decision.pair review)) [
        | inl late ↦ rw (on, late, apply_kind) tt
        | inr (form25, found) ↦
            rw (on, found, apply_kind)
              (continue_at-HasKeys base st decision form25 issuers reconciled o (rw on at place) h)
      ]
    ]

apply_one-HasKeys :
    (base : List Key) (review : List ReviewItem) (issuers : Issuers) (reconciled : List Key)
    (decision : HandoffDecision) (st : State)
    → keys st.rows ≡ base ++ st.added
    → HasKeys base (apply_one review issuers reconciled decision st)
unfolding apply_one
apply_one-HasKeys base review issuers reconciled decision st h =
    apply_kind-HasKeys base decision.kind review issuers reconciled decision
      (record st { counts = counted decision st.counts }) h

apply_all-HasKeys :
    (base : List Key) (review : List ReviewItem) (issuers : Issuers) (reconciled : List Key)
    (decisions : List HandoffDecision) (st : State)
    → keys st.rows ≡ base ++ st.added
    → HasKeys base (apply_all review issuers reconciled decisions st)
unfolding apply_all
apply_all-HasKeys base review issuers reconciled [] st h = h
apply_all-HasKeys base review issuers reconciled (d ∷ ds) st h =
    let step = apply_one-HasKeys base review issuers reconciled d st h in
    elim (Option-cases (apply_one review issuers reconciled d st)) [
      | inl off ↦ rw (off, apply_all) tt
      | inr (new, on) ↦
          rw (on, apply_all)
            (apply_all-HasKeys base review issuers reconciled ds new (rw on at step))
    ]

pub apply_handoffs-HasKeys :
    (decisions : List HandoffDecision) (rows : List Row) (issuers : Issuers)
    (review : List ReviewItem) (reconciled : List Key) (payouts : Option Payouts)
    → HasKeys (keys rows) (apply_handoffs decisions rows issuers review reconciled payouts)
unfolding apply_handoffs
apply_handoffs-HasKeys decisions rows issuers review reconciled payouts =
    apply_all-HasKeys (keys rows) review issuers reconciled decisions _
      (sym (append-nil (keys rows)))
