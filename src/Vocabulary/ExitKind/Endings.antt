-- ===== src/Vocabulary/ExitKind/Endings.antt =====
-- `last_endings`: each security's last real ending, as a dictionary in insertion order.
use mathlib.Core.List.{Memᴰ}
use delist_detection.Prelude.{
  ◌≤◌, String, ◌≡◌, refl, true, false, Option, none, some, List, [], ◌∷◌, inl, inr, arith, str_eq,
  str_eq_iff, if◌then◌else◌, or_else, All, All-map, All-filter, All-filter_of, All-sorted_by,
  All-of_sorted_by, All-of_filter, filter, sorted_by, IsSortedBy, sorted_by-IsSortedBy, Bool-cases,
  Option-cases, All-self, All-zip, sym, ◌∙◌,
}
use delist_detection.Vocabulary.ExitKind.Row.{Row}
use delist_detection.Vocabulary.ExitKind.Kinds.{is_real_ending}

-- `out[k] = r`: a new key goes last, an old one keeps its place.
unfoldable pub put : String → Row → List (String × Row) → List (String × Row)
put k r [] = (k, r) ∷ []
put k r ((j, q) ∷ out) = if str_eq j k then (j, r) ∷ out else (j, q) ∷ put k r out

unfoldable pub lookup : String → List (String × Row) → Option Row
lookup k [] = none
lookup k ((j, q) ∷ out) = if str_eq j k then some q else lookup k out

-- The loop of `last_endings`.
unfoldable pub assign : List Row → List (String × Row) → List (String × Row)
assign [] out = out
assign (r ∷ rows) out = assign rows (put r.sec_id r out)

unfoldable pub last_endings : List Row → List (String × Row)
last_endings delistings =
    assign (sorted_by (λ r. r.delist_date) (filter is_real_ending delistings)) []

lookup-put :
    (k j : String) (r : Row) (out : List (String × Row))
    → lookup k (put j r out) ≡ (if str_eq j k then some r else lookup k out)
unfolding lookup put
lookup-put k j r [] = refl
lookup-put k j r ((i, q) ∷ out) =
    ground (arith, lookup-put k j r out, str_eq_iff i j, str_eq_iff i k, str_eq_iff j k)

-- The last row of security `k`.
last_match : String → List Row → Option Row
last_match k [] = none
last_match k (r ∷ rows) = or_else (last_match k rows) (if str_eq r.sec_id k then some r else none)

lookup-assign :
    (k : String) (rows : List Row) (out : List (String × Row))
    → lookup k (assign rows out) ≡ or_else (last_match k rows) (lookup k out)
unfolding assign last_match
lookup-assign k [] out = refl
lookup-assign k (r ∷ rows) out =
    ground (arith, lookup-assign k rows (put r.sec_id r out), lookup-put k r.sec_id r out)

lookup-last_endings :
    (k : String) (delistings : List Row)
    → lookup k (last_endings delistings)
      ≡ last_match k (sorted_by (λ r. r.delist_date) (filter is_real_ending delistings))
unfolding last_endings lookup
lookup-last_endings k delistings =
    ground (
      arith,
      lookup-assign k (sorted_by (λ r. r.delist_date) (filter is_real_ending delistings)) [],
    )

last_match-All :
    (P : Row → Type 0) (k : String) (rows : List Row) (r : Row)
    → All P rows
    → last_match k rows ≡ some r
    → P r × (str_eq r.sec_id k ≡ true)
unfolding last_match
last_match-All P k [] r h e = cc
last_match-All P k (q ∷ rows) r h e = elim (Option-cases (last_match k rows)) [
  | inl absent ↦ elim (Bool-cases (str_eq q.sec_id k)) [
    | inl hit ↦ let same : q ≡ r = ground arith in (rw same at h.0, rw same at hit)
    | inr miss ↦ absurd (ground arith)
  ]
  | inr (s, found) ↦
      let same : s ≡ r = ground arith in last_match-All P k rows r h.1 (rw same at found)
]

last_match-none :
    (k : String) (rows : List Row)
    → last_match k rows ≡ none
    → All (λ q. str_eq q.sec_id k ≡ false) rows
unfolding last_match
last_match-none k [] e = tt
last_match-none k (q ∷ rows) e = (ground arith, last_match-none k rows (ground arith))

abbrev NotAfter : String → Row → Row → Type 0
NotAfter k r q = str_eq q.sec_id k ≡ true → q.delist_date ≤ r.delist_date

last_match-latest :
    (k : String) (rows : List Row) (r : Row)
    → IsSortedBy (λ q. q.delist_date) rows
    → last_match k rows ≡ some r
    → All (NotAfter k r) rows
unfolding last_match
last_match-latest k [] r h e = tt
last_match-latest k (q ∷ rows) r h e = elim (Option-cases (last_match k rows)) [
  | inl absent ↦
      let same : q ≡ r = ground arith in
      (
        rw same (λ _. omega arith),
        All-map (λ p. str_eq p.sec_id k ≡ false) (NotAfter k r)
            (λ p miss hit. absurd (ground arith)) rows (last_match-none k rows absent),
      )
  | inr (s, found) ↦
      let same : s ≡ r = ground arith in
      let found_r : last_match k rows ≡ some r = rw same at found in
      (
        (λ _. (last_match-All (λ p. q.delist_date ≤ p.delist_date) k rows r h.0 found_r).0),
        last_match-latest k rows r h.1 found_r,
      )
]

-- `r` is the security's real ending on the latest day.
pub record IsLastEnding (k : String) (delistings : List Row) (r : Row) : Type 0 where
  pub listed : Memᴰ r delistings
  pub real : is_real_ending r ≡ true
  pub own : r.sec_id ≡ k
  pub latest :
      All
        (λ q. is_real_ending q ≡ true → str_eq q.sec_id k ≡ true → q.delist_date ≤ r.delist_date)
        delistings

abbrev endings_by_date : List Row → List Row
endings_by_date delistings = sorted_by (λ r. r.delist_date) (filter is_real_ending delistings)

abbrev IsListedEnding : List Row → Row → Type 0
IsListedEnding delistings r = Memᴰ r delistings × (is_real_ending r ≡ true)

endings_by_date-listed :
    (delistings : List Row) → All (IsListedEnding delistings) (endings_by_date delistings)
endings_by_date-listed delistings =
    All-sorted_by (λ r. r.delist_date) (IsListedEnding delistings)
      (filter is_real_ending delistings)
      (All-zip (λ r. Memᴰ r delistings) (λ r. is_real_ending r ≡ true)
        (filter is_real_ending delistings)
        (All-filter_of (λ r. Memᴰ r delistings) is_real_ending delistings (All-self delistings))
        (All-filter is_real_ending delistings))

-- The entry of a security is its real ending on the latest day, and a security with no entry has no
-- real ending among the rows.
pub lookup-last_endings_lem :
    (k : String) (delistings : List Row)
    → ((r : Row) → lookup k (last_endings delistings) ≡ some r → IsLastEnding k delistings r)
      × (lookup k (last_endings delistings) ≡ none
          → All (λ q. is_real_ending q ≡ true → str_eq q.sec_id k ≡ false) delistings)
lookup-last_endings_lem k delistings = (found, absent)
  where
    rows : List Row
    rows = endings_by_date delistings

    found : (r : Row) → lookup k (last_endings delistings) ≡ some r → IsLastEnding k delistings r
    found r e =
        let e' : last_match k rows ≡ some r = sym (lookup-last_endings k delistings) ∙ e in
        let ((listed, real), own) =
          last_match-All (IsListedEnding delistings) k rows r (endings_by_date-listed delistings)
            e' in
        record {
          listed = listed;
          real = real;
          own = (str_eq_iff r.sec_id k).0 own;
          latest = All-of_filter (NotAfter k r) is_real_ending delistings (
              All-of_sorted_by (λ q. q.delist_date) (NotAfter k r)
                (filter is_real_ending delistings)
                (last_match-latest k rows r
                  (sorted_by-IsSortedBy (λ q. q.delist_date) (filter is_real_ending delistings))
                  e'));
        }

    absent :
        lookup k (last_endings delistings) ≡ none
        → All (λ q. is_real_ending q ≡ true → str_eq q.sec_id k ≡ false) delistings
    absent e =
        All-of_filter (λ q. str_eq q.sec_id k ≡ false) is_real_ending delistings
          (All-of_sorted_by (λ q. q.delist_date) (λ q. str_eq q.sec_id k ≡ false)
            (filter is_real_ending delistings)
            (last_match-none k rows (sym (lookup-last_endings k delistings) ∙ e)))
