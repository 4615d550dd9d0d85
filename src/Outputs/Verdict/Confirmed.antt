-- ===== src/Outputs/Verdict/Confirmed.antt =====
-- An ending and a seed without a reason (outputs/verdict.py).
use delist_detection.Prelude.{
  ℕ, ◌≤◌, ◌≡◌, ◌≢◌, refl, sym, ◌∙◌, ap, Bool, true, false, not, ◌&&◌, ◌||◌, Option, none, some,
  List, [], ◌∷◌, ◌++◌, Text, any, ltb, ◌==◌, ==→eq, is_some, arith, All,
}
use delist_detection.Vocabulary.ExitKind.Row.{Row}
use delist_detection.Vocabulary.ExitKind.Kinds.{is_continuation, ending_fields}
use delist_detection.Vocabulary.ExitKind.LastTrades.{
  of_row, effective_of, end_day_of, published, confirmed, is_exchange_print, print_confirmed,
  print_confirmed-parts, print_confirmed-published,
}
use delist_detection.Vocabulary.ExitKind.Reasons.{rests_on_continued_filings}
use delist_detection.Outputs.Verdict.{
  EndingRow, ContinuationReading, Reason, Interval, raised, is_sure, is_blank, evidence_tests,
  evidence_reasons, rests_on_delinquency, after_effective, last_trade_tests, last_trade_by,
  last_trade_reasons, own_reasons, runs_past, history_reasons, ending_reasons, unchecked,
}

raised-nil :
    (cs : List (Bool × Reason)) → raised cs ≡ [] → All (λ (c : Bool × Reason). c.0 ≡ false) cs
unfolding raised
raised-nil [] h = tt
raised-nil ((true, r) ∷ cs) h = cc
raised-nil ((false, r) ∷ cs) h = (refl, raised-nil cs h)

append_nil : (xs ys : List Reason) → xs ++ ys ≡ [] → (xs ≡ []) × (ys ≡ [])
append_nil [] ys h = (refl, h)
append_nil (x ∷ xs) ys h = cc

not-false : (b : Bool) → not b ≡ false → b ≡ true
not-false true h = refl
not-false false h = cc

after_effective-nil :
    (day : ℕ) (effective : Option ℕ)
    → All (λ (c : Bool × Reason). c.0 ≡ false) (after_effective day effective)
    → (e : ℕ) → effective ≡ some e
    → day ≤ e
unfolding after_effective
after_effective-nil day none h e k = cc
after_effective-nil day (some last) h e k =
    let early = h.0 in
    let same : last ≡ e = ap (λ (o : Option ℕ). elim o [ none ↦ 0 | some x ↦ x ]) k in
    ground (arith, early, same)

last_trade_tests-nil :
    (row : Row) (day : ℕ)
    → (of_row row).day ≡ some day
    → All (λ (c : Bool × Reason). c.0 ≡ false) (last_trade_tests row day)
    → print_confirmed (of_row row) (effective_of row) ≡ true
unfolding last_trade_tests
last_trade_tests-nil row day on h =
    print_confirmed-parts (of_row row) day (effective_of row) on
      (not-false (confirmed (of_row row)) h.1.0)
      (not-false (is_exchange_print (of_row row).source) h.0)
      (after_effective-nil day (effective_of row) h.1.1.1)

last_trade_by-nil :
    (row : Row) (o : Option ℕ)
    → (of_row row).day ≡ o
    → last_trade_by row o ≡ []
    → print_confirmed (of_row row) (effective_of row) ≡ true
unfolding last_trade_by
last_trade_by-nil row none on h = cc
last_trade_by-nil row (some day) on h =
    last_trade_tests-nil row day on (raised-nil (last_trade_tests row day) h)

last_trade_reasons-nil :
    (row : Row)
    → last_trade_reasons row ≡ []
    → print_confirmed (of_row row) (effective_of row) ≡ true
unfolding last_trade_reasons
last_trade_reasons-nil row h = last_trade_by-nil row (of_row row).day refl h

-- An interval that does not run past the day: it has an end, no later than the day.
abbrev pub EndsBy : ℕ → Option ℕ → Type 0
EndsBy day none = ⊥
EndsBy day (some to) = to ≤ day

EndsBy-runs_past : (day : ℕ) (i : Interval) → runs_past day i ≡ false → EndsBy day i.valid_to
unfolding runs_past
EndsBy-runs_past day i h = by_end i.valid_to h
  where
    by_end : (o : Option ℕ) → (elim o [ none ↦ true | some to ↦ ltb day to ]) ≡ false → EndsBy day o
    by_end none k = cc
    by_end (some to) k = ground (arith, k)

none_past :
    (day : ℕ) (is : List Interval)
    → any (runs_past day) is ≡ false
    → All (λ i. EndsBy day i.valid_to) is
none_past day [] h = tt
none_past day (i ∷ is) h =
    let parts = split (runs_past day i) (any (runs_past day) is) h in
    (EndsBy-runs_past day i parts.0, none_past day is parts.1)
  where
    split : (a b : Bool) → (a || b) ≡ false → (a ≡ false) × (b ≡ false)
    split a b k = (ground (arith, k), ground (arith, k))

history_reasons-nil :
    (row : Row) (is : List Interval)
    → is_continuation row ≡ false
    → history_reasons row is true ≡ []
    → (is ≢ []) × All (λ i. EndsBy (end_day_of row) i.valid_to) is
unfolding history_reasons
history_reasons-nil row [] ending h = cc
history_reasons-nil row (i ∷ is) ending h =
    let tests : raised (
          (
            any (runs_past (end_day_of row)) (i ∷ is),
            Reason.history_after_last_trade (end_day_of row),
          )
          ∷ [])
        ≡ [] =
      rw ending at h in
    (
      (λ e. cc),
      none_past (end_day_of row) (i ∷ is)
          (raised-nil
            ((
              any (runs_past (end_day_of row)) (i ∷ is),
              Reason.history_after_last_trade (end_day_of row),
            )
              ∷ [])
            tests).0,
    )

own_reasons-last_trade :
    (r : EndingRow) (issuer_cik : Text) (reading : ContinuationReading) (named : Bool)
    → is_continuation r.row ≡ false
    → own_reasons r issuer_cik reading named ≡ []
    → (evidence_reasons r issuer_cik reading named ≡ []) × (last_trade_reasons r.row ≡ [])
unfolding own_reasons
own_reasons-last_trade r issuer_cik reading named ending h =
    let h' : evidence_reasons r issuer_cik reading named
          ++ (unchecked r.row ++ last_trade_reasons r.row)
        ≡ [] =
      rw ending at h in
    let (evidence, rest) =
      append_nil (evidence_reasons r issuer_cik reading named)
        (unchecked r.row ++ last_trade_reasons r.row) h' in
    (evidence, (append_nil (unchecked r.row) (last_trade_reasons r.row) rest).1)

-- What a confirmed ending, no continuation, stands on.
pub record IsBacked (r : EndingRow) (intervals : List Interval) (last_day : ℕ) : Type 0 where
  pub known_kind : is_some (ending_fields r.row).exit_kind ≡ true
  pub not_by_continued_filings : rests_on_continued_filings r.reason ≡ false
  pub not_by_delinquency : rests_on_delinquency r.reason ≡ false
  pub printed : print_confirmed (of_row r.row) (effective_of r.row) ≡ true
  pub day_published : published r.row ≡ some (end_day_of r.row)
  pub has_history : intervals ≢ []
  pub history_ends : All (λ i. EndsBy (end_day_of r.row) i.valid_to) intervals
  pub is_last : r.row.delist_date ≡ last_day

unless : (a b c : Bool) → c ≡ false → (a && not (b && c)) ≡ false → a ≡ false
unless a b c h k = ground (arith, h, k)

-- An ending that is no continuation and is confirmed: its security is confirmed; its exit kind is known and
-- rests on neither the continued-filings rule nor the delinquent-filer default; its last trade is an exchange
-- print, confirmed, no later than its Form 25's effective day, and published; it is its security's last
-- ending; and its security has a history, of which every interval ends no later than that day.
pub ending_reasons-IsBacked :
    (r : EndingRow) (security : Option (List Reason)) (issuer_cik : Text)
    (reading : ContinuationReading) (named : Bool) (intervals : List Interval) (last_day : ℕ)
    → is_continuation r.row ≡ false
    → ending_reasons r security (own_reasons r issuer_cik reading named) intervals last_day ≡ []
    → (is_sure security ≡ true) × IsBacked r intervals last_day
unfolding ending_reasons evidence_reasons evidence_tests
ending_reasons-IsBacked r security issuer_cik reading named intervals last_day ending h =
    let is_last = r.row.delist_date == last_day in
    let own = own_reasons r issuer_cik reading named in
    let past = history_reasons r.row intervals is_last in
    let sure_test = (not (is_sure security), Reason.security_uncertain) ∷ [] in
    let last_test = (not is_last, Reason.earlier_ending last_day) ∷ [] in
    let (sure, rest) = append_nil (raised sure_test) (own ++ (past ++ raised last_test)) h in
    let (by_itself, others) = append_nil own (past ++ raised last_test) rest in
    let (history, latest) = append_nil past (raised last_test) others in
    let last = not-false is_last (raised-nil last_test latest).0 in
    let (evidence, trade) = own_reasons-last_trade r issuer_cik reading named ending by_itself in
    let tests = raised-nil (evidence_tests r issuer_cik reading named) evidence in
    let print = last_trade_reasons-nil r.row trade in
    let (nonempty, ends) =
      history_reasons-nil r.row intervals ending
        (ap (history_reasons r.row intervals) (sym last) ∙ history) in
    (
      not-false (is_sure security) (raised-nil sure_test sure).0,
      record {
        known_kind = not-false (is_some (ending_fields r.row).exit_kind) tests.1.1.1.1.1.0;
        not_by_continued_filings =
            unless (rests_on_continued_filings r.reason) (not (is_blank reading.filing))
              (is_continuation r.row) ending tests.1.1.0;
        not_by_delinquency = tests.1.1.1.1.1.1.0;
        printed = print;
        day_published = (print_confirmed-published r.row print).0;
        has_history = nonempty;
        history_ends = ends;
        is_last = ==→eq r.row.delist_date last_day last;
      },
    )
