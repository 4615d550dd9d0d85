-- ===== src/Endings/Handoffs.antt =====
-- endings/handoffs.py: the pairs of securities of which one takes the other's ticker (`find_handoffs`) and
-- what each pair is (`decide_handoff`). The mapping of a ticker's spans is the list of its securities in the
-- order of the sightings' mapping, which holds each security once.
pub mod Pairs
pub mod Decisions
pub mod Applied
pub mod Steps
mod Examples
use delist_detection.Prelude.{
  ℕ, ◌+◌, ◌-◌, Bool, not, ◌&&◌, ◌||◌, Option, none, some, List, [], ◌∷◌, ◌++◌, String, Text, codes,
  text_eq, text_le, str_eq, is_among, ltb, leb, ◌==◌, filter, max, min, is_some, sort_with,
  if◌then◌else◌,
}
use delist_detection.Vocabulary.Identifiers.{bare_ticker}
use delist_detection.Identity.History.Ranges.{Sighting}
use delist_detection.Identity.History.Endings.{takeover_days}
use delist_detection.Sources.Ftd.{FtdRow, FtdIndex, by_symbol}
use delist_detection.Endings.LastTrade.Dating.{EdgarSubmission}

abbrev pub overlap_days : ℕ
overlap_days = 10

abbrev pub continuation_days : ℕ
continuation_days = 10

abbrev pub issuer_age_days : ℕ
issuer_age_days = 365

-- At most `n` days from `lo` to `hi`, and more than `n`.
pub at_most : ℕ → (lo hi : ℕ) → Bool
at_most n lo hi = leb hi (lo + n)

pub more_than : ℕ → (lo hi : ℕ) → Bool
more_than n lo hi = ltb (lo + n) hi

-- `abs(_days(d, e)) <= n`
pub within : ℕ → ℕ → ℕ → Bool
unfolding at_most
within n d e = at_most n d e && at_most n e d

pub record HandoffPair : Type 0 where
  pub ticker : Text
  pub a : String
  pub b : String
  pub a_last : ℕ
  pub b_first : ℕ
  pub b_first_any : ℕ
  pub a_last_any : Option ℕ

-- A security's sightings, by sec_id.
abbrev pub Sightings : Type 0
Sightings = List (String × List Sighting)

-- A security under a ticker: its first and last day under it, the ticker's first spelling, and its first and
-- last day under any.
pub record Span : Type 0 where
  pub sec_id : String
  pub first : ℕ
  pub last : ℕ
  pub label : Text
  pub first_any : ℕ
  pub last_any : ℕ

pub is_under : Text → Sighting → Bool
is_under t s = text_eq (bare_ticker s.value) t

pub first_in : Sighting → List Sighting → ℕ
first_in s [] = s.day
first_in s (x ∷ xs) = min s.day (first_in x xs)

pub last_in : Sighting → List Sighting → ℕ
last_in s [] = s.day
last_in s (x ∷ xs) = max s.day (last_in x xs)

-- The security's span under the ticker, in front of the others'. A security with a sighting under the ticker
-- has one: its days under any ticker are not of none.
with_span : String → List Sighting → List Sighting → List Span → List Span
unfolding first_in last_in
with_span sec_id [] all rest = rest
with_span sec_id (s ∷ under) [] rest = rest
with_span sec_id (s ∷ under) (x ∷ xs) rest =
    record {
      sec_id = sec_id;
      first = first_in s under;
      last = last_in s under;
      label = s.value;
      first_any = first_in x xs;
      last_any = last_in x xs;
    }
    ∷ rest

pub spans_under : Text → Sightings → List Span
unfolding with_span is_under
spans_under t [] = []
spans_under t (e ∷ es) = with_span e.0 (filter (is_under t) e.1) e.1 (spans_under t es)

-- The tickers sighted, bare, each once.
tickers_in : List Sighting → List Text → List Text
tickers_in [] seen = seen
tickers_in (s ∷ ss) seen =
    let t = bare_ticker s.value in tickers_in ss (if is_among t seen then seen else seen ++ t ∷ [])

pub tickers_of : Sightings → List Text → List Text
unfolding tickers_in
tickers_of [] seen = seen
tickers_of (e ∷ es) seen = tickers_of es (tickers_in e.1 seen)

-- `a <= b` of two ids
id_le : String → String → Bool
id_le a b = text_le (codes a) (codes b)

-- The order of `(first, sec_id)`.
pub began_before : Span → Span → Bool
unfolding id_le
began_before v w = ltb v.first w.first || (v.first == w.first) && id_le v.sec_id w.sec_id

-- The next one's first day is at most so long before or after the first one's last.
pub meets : Span → Span → Bool
unfolding at_most
meets v w = at_most overlap_days w.first v.last && at_most takeover_days v.last w.first

pair_of : Span → Span → HandoffPair
pair_of v w = record {
  ticker = v.label;
  a = v.sec_id;
  b = w.sec_id;
  a_last = v.last;
  b_first = w.first;
  b_first_any = w.first_any;
  a_last_any = some v.last_any;
}

-- Each span with the next.
pub pairs_of : List Span → List HandoffPair
unfolding meets pair_of
pairs_of [] = []
pairs_of (v ∷ []) = []
pairs_of (v ∷ w ∷ ws) =
    let rest = pairs_of (w ∷ ws) in if meets v w then pair_of v w ∷ rest else rest

pub pairs_under : Text → Sightings → List HandoffPair
unfolding spans_under began_before pairs_of
pairs_under t sightings = pairs_of (sort_with began_before (spans_under t sightings))

pairs_among : List Text → Sightings → List HandoffPair
unfolding pairs_under
pairs_among [] sightings = []
pairs_among (t ∷ ts) sightings = pairs_under t sightings ++ pairs_among ts sightings

-- The order of `(ticker, a_last, a, b)`.
pair_before : HandoffPair → HandoffPair → Bool
unfolding id_le
pair_before p q =
    text_le p.ticker q.ticker
    && (not (text_eq p.ticker q.ticker)
        || (ltb p.a_last q.a_last
            || (p.a_last == q.a_last)
              && (id_le p.a q.a && (not (str_eq p.a q.a) || id_le p.b q.b))))

pub find_handoffs : Sightings → List HandoffPair
unfolding pairs_among tickers_of pair_before
find_handoffs sightings = sort_with pair_before (pairs_among (tickers_of sightings []) sightings)

-- A filing by its form, accession and day.
pub record Filing : Type 0 where
  pub form : Text
  pub accession : Text
  pub day : ℕ

-- The order of `(filing_date, form, accession)`.
filed_before : Filing → Filing → Bool
filed_before f g =
    ltb f.day g.day
    || (f.day == g.day)
      && (text_le f.form g.form && (not (text_eq f.form g.form) || text_le f.accession g.accession))

-- `SUCCESSOR_FORMS`
abbrev successor_forms : List Text
successor_forms = codes "8-K12B" ∷ codes "8-K12G3" ∷ []

registrations : List EdgarSubmission → ℕ → List Filing
registrations [] day = []
registrations (f ∷ fs) day =
    let rest = registrations fs day in
    elim f.filing_date [
      | none ↦ rest
      | some filed ↦
          if is_among f.form successor_forms && leb (day - 30) filed && leb filed (day + 60)
          then record { form = f.form; accession = f.accession; day = filed } ∷ rest
          else rest
    ]

pub own_continuation_filing : List EdgarSubmission → ℕ → Option Filing
unfolding registrations filed_before
own_continuation_filing filings day = elim (sort_with filed_before (registrations filings day)) [
  | [] ↦ none
  | f ∷ _ ↦ some f
]

last_row : FtdRow → List FtdRow → FtdRow
last_row r [] = r
last_row r (s ∷ rs) = last_row s rs

-- A's last row and B's first, where both are near the handoff.
switched : HandoffPair → List FtdRow → List FtdRow → Option (FtdRow × FtdRow)
unfolding last_row within
switched pair [] bs = none
switched pair (r ∷ rs) [] = none
switched pair (r ∷ rs) (s ∷ ss) =
    if within continuation_days pair.b_first (last_row r rs).date
      && within continuation_days pair.b_first s.date
    then some (last_row r rs, s)
    else none

-- `_switch_rows`
pub switch_rows : FtdIndex → HandoffPair → List Text → List Text → Option (FtdRow × FtdRow)
unfolding switched
switch_rows ftd pair a_cusips b_cusips =
    let rows = by_symbol ftd pair.ticker none none in
    switched pair (filter (λ r. is_among r.cusip a_cusips) rows)
      (filter (λ r. is_among r.cusip b_cusips && not (is_among r.cusip a_cusips)) rows)

pub cusip_switch : FtdIndex → HandoffPair → List Text → List Text → Bool
unfolding switch_rows
cusip_switch ftd pair a_cusips b_cusips = is_some (switch_rows ftd pair a_cusips b_cusips)
