-- ===== src/Endings/EndOfEra/Signals/Windows.antt =====
-- What `signals` finds: the first or the last filing in its window, whatever the filings' order.
use mathlib.Core.List.{Memᴰ}
use delist_detection.Prelude.{
  ℕ, ◌≡◌, refl, sym, ◌∙◌, Bool, true, false, not, ◌&&◌, Option, none, some, List, [], ◌∷◌, inl, inr,
  arith, Text, codes, starts_with, text_eq, is_among, any, or_else, All, All-mem, All-self,
  All-sorted_by, All-of_sorted_by, sorted_by, sorted_by-IsSortedBy, Option-cases, if◌then◌else◌,
}
use delist_detection.Endings.EndOfEra.Signals.{
  Filed, Filing, Found, within, visit_filing, scan, filing_key, signals, items_before_days,
  items_after_days, merger_filing_before_days, merger_filing_after_days, merger_filing_forms,
  delist_forms, successor_forms,
}
use delist_detection.Endings.EndOfEra.Signals.Hits.{
  Test, filed_as, hit, first_of, last_of, IsHit, NotBefore, NotAfter, Misses, first_of-none,
  last_of-none, first_of-IsHit, last_of-IsHit, first_of-NotBefore, last_of-NotAfter,
}

-- The loop's variables are the first or the last hits of their tests.
abbrev pub near : ℕ → ℕ → Bool
near on d = within on items_before_days items_after_days d

abbrev pub registers_at : ℕ → Test
registers_at on f d = near on d && is_among f.form successor_forms

abbrev pub delists_at : ℕ → Test
delists_at on f d = near on d && is_among f.form delist_forms

abbrev pub merges_at : ℕ → Test
merges_at on f d =
    within on merger_filing_before_days merger_filing_after_days d
    && is_among f.form merger_filing_forms

abbrev pub reports_at : Text → ℕ → Test
reports_at item on f d =
    near on d
    && (not (is_among f.form successor_forms)
        && (starts_with f.form (codes "8-K") && any (λ u. text_eq u item) f.items))

keep_or_take {ℓ} :
    {A : Type ℓ} (t : Bool) (x : A) (o : Option A)
    → (if t then some x else o) ≡ or_else (if t then some x else none) o
keep_or_take true x o = refl
keep_or_take false x o = refl

module _ (on : ℕ) (f : Filing) (s : Found) where
  successor-visit : (visit_filing on f s).successor ≡ or_else s.successor (hit (registers_at on) f)
  unfolding hit visit_filing
  successor-visit = ground arith

  delist-visit : (visit_filing on f s).delist ≡ or_else s.delist (hit (delists_at on) f)
  unfolding hit visit_filing
  delist-visit = ground arith

  merger-visit : (visit_filing on f s).merger ≡ or_else (hit (merges_at on) f) s.merger
  unfolding hit visit_filing
  merger-visit = elim (Option-cases f.day) [
    | inl e ↦ rw (e, visit_filing, hit)
    | inr (d, e) ↦
        rw (e, visit_filing, hit) (keep_or_take (merges_at on f d) (filed_as f d) s.merger)
  ]

or_else_assoc {ℓ} :
    {A : Type ℓ} (a b c : Option A) → or_else (or_else a b) c ≡ or_else a (or_else b c)
or_else_assoc none b c = refl
or_else_assoc (some x) b c = refl

scan-successor :
    (on : ℕ) (fs : List Filing) (s : Found)
    → (scan on fs s).successor ≡ or_else s.successor (first_of (registers_at on) fs)
unfolding scan first_of
scan-successor on [] s = ground arith
scan-successor on (f ∷ fs) s =
    scan-successor on fs (visit_filing on f s)
    ∙ (rw successor-visit
        (or_else_assoc s.successor (hit (registers_at on) f) (first_of (registers_at on) fs)))

scan-delist :
    (on : ℕ) (fs : List Filing) (s : Found)
    → (scan on fs s).delist ≡ or_else s.delist (first_of (delists_at on) fs)
unfolding scan first_of
scan-delist on [] s = ground arith
scan-delist on (f ∷ fs) s =
    scan-delist on fs (visit_filing on f s)
    ∙ (rw delist-visit
        (or_else_assoc s.delist (hit (delists_at on) f) (first_of (delists_at on) fs)))

scan-merger :
    (on : ℕ) (fs : List Filing) (s : Found)
    → (scan on fs s).merger ≡ or_else (last_of (merges_at on) fs) s.merger
unfolding scan last_of
scan-merger on [] s = refl
scan-merger on (f ∷ fs) s =
    scan-merger on fs (visit_filing on f s)
    ∙ (rw merger-visit
        (sym (or_else_assoc (last_of (merges_at on) fs) (hit (merges_at on) f) s.merger)))

-- What a variable of the loop holds at the end: a hit in the window that no other precedes, or nothing
-- where nothing hits.
pub record IsEarliest (test : Test) (filings : List Filing) (o : Option Filed) : Type 0 where
  pub found : (x : Filed) → o ≡ some x → IsHit test filings x × All (NotBefore test x) filings
  pub absent : o ≡ none → All (Misses test) filings

pub record IsLatest (test : Test) (filings : List Filing) (o : Option Filed) : Type 0 where
  pub found : (x : Filed) → o ≡ some x → IsHit test filings x × All (NotAfter test x) filings
  pub absent : o ≡ none → All (Misses test) filings

module _ (test : Test) (filings : List Filing) where
  IsHit-sorted : (x : Filed) → IsHit test (sorted_by filing_key filings) x → IsHit test filings x
  IsHit-sorted x (f, m, a, b, c) = (
    f,
    All-mem (λ g. Memᴰ g filings) (sorted_by filing_key filings)
        (All-sorted_by filing_key (λ g. Memᴰ g filings) filings (All-self filings)) m,
    a,
    b,
    c,
  )

  first_of-IsEarliest : IsEarliest test filings (first_of test (sorted_by filing_key filings))
  first_of-IsEarliest = record {
    found = λ x e. (
      IsHit-sorted x (first_of-IsHit test (sorted_by filing_key filings) x e),
      All-of_sorted_by filing_key (NotBefore test x) filings (
          first_of-NotBefore test (sorted_by filing_key filings) x
            (sorted_by-IsSortedBy filing_key filings) e),
    );
    absent = λ e.
        All-of_sorted_by filing_key (Misses test) filings
          (first_of-none test (sorted_by filing_key filings) e);
  }

  last_of-IsLatest : IsLatest test filings (last_of test (sorted_by filing_key filings))
  last_of-IsLatest = record {
    found = λ x e. (
      IsHit-sorted x (last_of-IsHit test (sorted_by filing_key filings) x e),
      All-of_sorted_by filing_key (NotAfter test x) filings (
          last_of-NotAfter test (sorted_by filing_key filings) x
            (sorted_by-IsSortedBy filing_key filings) e),
    );
    absent = λ e.
        All-of_sorted_by filing_key (Misses test) filings
          (last_of-none test (sorted_by filing_key filings) e);
  }

or_else-none {ℓ} : {A : Type ℓ} (o : Option A) → or_else o none ≡ o
or_else-none none = refl
or_else-none (some a) = refl

-- Whatever the order of the filings: the successor registration and the Form 25 are the earliest of their
-- forms from 30 days before the end to 120 days after it, and the merger filing is the latest of its forms
-- from 540 days before the end to 30 days after it; each is absent exactly where no filing qualifies.
pub signals_windows :
    (filings : List Filing) (on : ℕ) (trading_after : Bool)
    (deficiency bankruptcy liquidation : Option Filed)
    → IsEarliest
        (registers_at on)
        filings
        (signals filings on trading_after deficiency bankruptcy liquidation).successor_filing
      × IsEarliest
          (delists_at on)
          filings
          (signals filings on trading_after deficiency bankruptcy liquidation).delist_filing
      × IsLatest
          (merges_at on)
          filings
          (signals filings on trading_after deficiency bankruptcy liquidation).merger_filing
unfolding signals
signals_windows filings on trading_after deficiency bankruptcy liquidation = (
  rw scan-successor (first_of-IsEarliest (registers_at on) filings),
  rw scan-delist (first_of-IsEarliest (delists_at on) filings),
  rw scan-merger (rw or_else-none (last_of-IsLatest (merges_at on) filings)),
)
