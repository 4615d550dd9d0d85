-- ===== src/Endings/Handoffs/Steps/Continued.antt =====
-- What a continuation of endings/handoffs.py makes of A's row.
use delist_detection.Prelude.{
  ℕ, ◌≤◌, ◌≡◌, refl, inl, inr, true, false, Option, none, some, String, or_true, str_eq_iff,
  is_some, arith, Bool-cases, ◌+◌, Option-cases,
}
use delist_detection.Vocabulary.CrspCodes.{is_bucket, exchange_transfer, merger}
use delist_detection.Vocabulary.TradingCalendar.Steps.{previous_trading_day-some}
use delist_detection.Endings.LastTrade.Handing.{
  EndsBefore, handoff_day-before, at_handoff-EndsBefore,
}
use delist_detection.Vocabulary.TradingCalendar.{last_day, days_after-some}
use delist_detection.Endings.Handoffs.{HandoffPair}
use delist_detection.Endings.Handoffs.Decisions.{HandoffDecision}
use delist_detection.Endings.Handoffs.Applied.{Row, ReviewItem, terms_of, link_of}
use delist_detection.Endings.Handoffs.Steps.{
  answer, names, rewritten, continued, undated_flags, continuation_row, blank_row, delist_day,
}
use delist_detection.Endings.Rewrites.{
  Delisting, Payouts, key_of, is_transfer, continued_into, drop_from,
}
use delist_detection.Endings.Rewrites.Kinds.{
  continuation-goes, continued_into-lem, is_some-drop_from, is_bucket→eq, is_transfer→eq,
}

-- A continuation into B of the delisting.
abbrev pub IsInto : Delisting → String → Delisting → Type 0
IsInto d b new =
    (new.bucket ≡ exchange_transfer) × (new.successor_sec_id ≡ some b) × (key_of new ≡ key_of d)

names-some : (o : Option String) (b : String) → names o b ≡ true → o ≡ some b
unfolding names
names-some none b h = absurd (ground arith)
names-some (some s) b h = let same = str_eq_iff s b in ground (arith, same)

not_both : (d : Delisting) → is_transfer d ≡ true → is_bucket d.bucket merger ≡ true → ⊥
unfolding is_bucket
not_both d there on =
    let one = is_transfer→eq d there in
    let other = is_bucket→eq d.bucket merger on in ground (arith, one, other)

rewritten-other :
    (d : Delisting) (decision : HandoffDecision) (payouts : Option Payouts)
    → is_transfer d ≡ false
    → 3 ≤ decision.pair.b_first
    → (is_bucket d.bucket merger ≡ true → is_some payouts ≡ true)
    → (new : Delisting) × (pays : Option Payouts) × (rewritten d decision payouts
        ≡ some (new, pays))
      × (is_some pays ≡ is_some payouts)
      × IsInto d decision.pair.b new
unfolding rewritten answer terms_of
rewritten-other d decision payouts other past paid =
    let p = decision.pair in
    let (day, at_day, _, _) =
      handoff_day-before p.a_last p.b_first (previous_trading_day-some p.b_first past) in
    let goes = continuation-goes d (terms_of decision day) payouts (or_true (is_transfer d)) paid in
    (
      continued_into d (terms_of decision day),
      drop_from payouts (key_of d),
      rw (other, rewritten, at_day, goes) refl,
      is_some-drop_from payouts (key_of d),
      continued_into-lem d (terms_of decision day),
    )

rewritten-transfer :
    (d : Delisting) (decision : HandoffDecision) (payouts : Option Payouts)
    → is_transfer d ≡ true
    → (new : Delisting) × (pays : Option Payouts) × (rewritten d decision payouts
        ≡ some (new, pays))
      × (is_some pays ≡ is_some payouts)
      × IsInto d decision.pair.b new
unfolding rewritten answer link_of
rewritten-transfer d decision payouts there =
    elim (Bool-cases (names d.successor_sec_id decision.pair.b)) [
      | inl linked ↦ (
        d,
        payouts,
        rw (there, rewritten, linked) refl,
        refl,
        (is_transfer→eq d there, names-some d.successor_sec_id decision.pair.b linked, refl),
      )
      | inr open_ ↦
          let goes =
            continuation-goes d (link_of decision d.reason) none (ground (arith, there))
              (λ k. absurd (not_both d there k)) in
          (
            continued_into d (link_of decision d.reason),
            payouts,
            rw (there, rewritten, open_, goes) refl,
            refl,
            continued_into-lem d (link_of decision d.reason),
          )
    ]

pub rewritten-IsInto :
    (d : Delisting) (decision : HandoffDecision) (payouts : Option Payouts)
    → 3 ≤ decision.pair.b_first
    → (is_bucket d.bucket merger ≡ true → is_some payouts ≡ true)
    → (new : Delisting) × (pays : Option Payouts) × (rewritten d decision payouts
        ≡ some (new, pays))
      × (is_some pays ≡ is_some payouts)
      × IsInto d decision.pair.b new
rewritten-IsInto d decision payouts past paid = elim (Bool-cases (is_transfer d)) [
  | inl there ↦ rewritten-transfer d decision payouts there
  | inr other ↦ rewritten-other d decision payouts other past paid
]

-- A's row as B's continuation: a transfer into B under its own key, which ends before B's first day unless an
-- exchange print dates it.
abbrev pub IsContinued : Row → HandoffDecision → Row → Type 0
IsContinued r decision new =
    IsInto r.delisting decision.pair.b new.delisting
    × EndsBefore new.last_trade decision.pair.b_first

pub continued-IsContinued :
    (r : Row) (decision : HandoffDecision) (payouts : Option Payouts)
    → 3 ≤ decision.pair.b_first
    → (is_bucket r.delisting.bucket merger ≡ true → is_some payouts ≡ true)
    → (new : Row) × (pays : Option Payouts) × (continued r decision payouts ≡ some (new, pays))
      × (is_some pays ≡ is_some payouts)
      × IsContinued r decision new
unfolding continued key_of
continued-IsContinued r decision payouts past paid =
    let p = decision.pair in
    let (d, pays, goes, paid_, into) = rewritten-IsInto r.delisting decision payouts past paid in
    let (last, at_last, ends) = at_handoff-EndsBefore (some r.last_trade) p.a_last p.b_first past in
    (
      record r {
        delisting = record d { flags = undated_flags r.last_trade d.flags };
        last_trade = last;
      },
      pays,
      rw (goes, continued, at_last) refl,
      paid_,
      (into, ends),
    )

delist_day-some :
    (p : HandoffPair) (form25 : Option ReviewItem)
    → p.a_last + 1 ≤ last_day
    → (day : ℕ) × (delist_day p form25 ≡ some day)
unfolding delist_day
delist_day-some p none early = (p.a_last + 1, days_after-some p.a_last 1 early)
delist_day-some p (some item) early = elim (Option-cases item.delist_date) [
  | inl off ↦ (p.a_last + 1, rw (off) (days_after-some p.a_last 1 early))
  | inr (day, on) ↦ (day, rw on refl)
]

-- A row is written for an A of the run, unless its issuer is not known: then there is none.
pub continuation_row-written :
    (decision : HandoffDecision) (issuer : Option ℕ) (form25 : Option ReviewItem)
    → 3 ≤ decision.pair.b_first
    → decision.pair.a_last + 1 ≤ last_day
    → (row : Option Row) × (continuation_row decision (some issuer) form25 ≡ some row)
      × (is_some row ≡ is_some issuer)
unfolding continuation_row answer terms_of blank_row is_bucket
continuation_row-written decision none form25 past early = (none, refl, refl)
continuation_row-written decision (some cik) form25 past early =
    let p = decision.pair in
    let (last, at_last, ends) = at_handoff-EndsBefore none p.a_last p.b_first past in
    let (day, at_day, _, _) =
      handoff_day-before p.a_last p.b_first (previous_trading_day-some p.b_first past) in
    let (delist_date, dated) = delist_day-some p form25 early in
    let row = blank_row decision cik last delist_date in
    let goes =
      continuation-goes row.delisting (terms_of decision day) none
        (or_true (is_transfer row.delisting)) (λ h. absurd (ground (arith, h))) in
    (
      some (record row { delisting = continued_into row.delisting (terms_of decision day) }),
      rw (dated, at_last, at_day, goes) refl,
      refl,
    )
