-- ===== src/Endings/Handoffs/Pairs.antt =====
-- What find_handoffs of endings/handoffs.py pairs.
use delist_detection.Prelude.{
  ℕ, ◌+◌, ◌≤◌, ◌≡◌, ◌≢◌, AreDistinct, sort_with-AreDistinct, refl, sym, inl, inr, Bool, true, false,
  some, List, [], ◌∷◌, String, Text, leb, ◌==◌, any, or_true, filter, max, min, arith, All, All-map,
  All-append, All-sort_with, sort_with, IsSortedBy, sort_with-IsSortedBy, Bool-cases,
}
use mathlib.Core.List.{Memᴰ}
use mathlib.Core.Path.{subst}
use delist_detection.Identity.History.Ranges.{Sighting}
use delist_detection.Endings.Handoffs.{
  HandoffPair, Sightings, Span, is_under, first_in, last_in, with_span, spans_under, tickers_of,
  began_before, meets, pair_of, pairs_of, pairs_under, pairs_among, pair_before, find_handoffs,
  at_most,
}

-- A sighting on the day, and none before it, or none after.
abbrev pub IsFirstOf : ℕ → List Sighting → Type 0
IsFirstOf d ss = (any (λ s. s.day == d) ss ≡ true) × All (λ s. d ≤ s.day) ss

abbrev pub IsLastOf : ℕ → List Sighting → Type 0
IsLastOf d ss = (any (λ s. s.day == d) ss ≡ true) × All (λ s. s.day ≤ d) ss

first_in-le : (s : Sighting) (ss : List Sighting) → All (λ x. first_in s ss ≤ x.day) (s ∷ ss)
unfolding first_in
first_in-le s [] = (omega arith, tt)
first_in-le s (x ∷ xs) = (
  omega arith,
  All-map (λ (y : Sighting). first_in x xs ≤ y.day)
      (λ (y : Sighting). min s.day (first_in x xs) ≤ y.day) (λ y h. omega (arith, h)) (x ∷ xs)
      (first_in-le x xs),
)

last_in-le : (s : Sighting) (ss : List Sighting) → All (λ x. x.day ≤ last_in s ss) (s ∷ ss)
unfolding last_in
last_in-le s [] = (omega arith, tt)
last_in-le s (x ∷ xs) = (
  omega arith,
  All-map (λ (y : Sighting). y.day ≤ last_in x xs)
      (λ (y : Sighting). y.day ≤ max s.day (last_in x xs)) (λ y h. omega (arith, h)) (x ∷ xs)
      (last_in-le x xs),
)

-- A sighting is on the day.
abbrev pub is_on : ℕ → List Sighting → Bool
is_on d ss = any (λ s. s.day == d) ss

is_on-here : (d : ℕ) (s : Sighting) (ss : List Sighting) → d ≡ s.day → is_on d (s ∷ ss) ≡ true
is_on-here d s ss e = ground (arith, e)

is_on-later :
    (d e : ℕ) (s : Sighting) (ss : List Sighting)
    → d ≡ e
    → is_on e ss ≡ true
    → is_on d (s ∷ ss) ≡ true
is_on-later d e s ss same h =
    let on : is_on d ss ≡ true = subst (λ x. is_on x ss ≡ true) (sym same) h in
    rw (on) (or_true (s.day == d))

first_in-is_on : (s : Sighting) (ss : List Sighting) → is_on (first_in s ss) (s ∷ ss) ≡ true
unfolding first_in
first_in-is_on s [] = is_on-here s.day s [] refl
first_in-is_on s (x ∷ xs) = elim (Bool-cases (leb s.day (first_in x xs))) [
  | inl le ↦ is_on-here (min s.day (first_in x xs)) s (x ∷ xs) (ground (arith, le))
  | inr gt ↦
      is_on-later (min s.day (first_in x xs)) (first_in x xs) s (x ∷ xs) (ground (arith, gt))
        (first_in-is_on x xs)
]

last_in-is_on : (s : Sighting) (ss : List Sighting) → is_on (last_in s ss) (s ∷ ss) ≡ true
unfolding last_in
last_in-is_on s [] = is_on-here s.day s [] refl
last_in-is_on s (x ∷ xs) = elim (Bool-cases (leb (last_in x xs) s.day)) [
  | inl le ↦ is_on-here (max s.day (last_in x xs)) s (x ∷ xs) (ground (arith, le))
  | inr gt ↦
      is_on-later (max s.day (last_in x xs)) (last_in x xs) s (x ∷ xs) (ground (arith, gt))
        (last_in-is_on x xs)
]

-- The span is that of a security of the run under the ticker: its first and last days are its earliest and
-- latest sightings under it, and the days under any ticker its earliest and latest of all.
abbrev pub IsSpanOf : Text → Span → String × List Sighting → Type 0
IsSpanOf t v e =
    (v.sec_id ≡ e.0)
    × IsFirstOf v.first (filter (is_under t) e.1)
    × IsLastOf v.last (filter (is_under t) e.1)
    × IsFirstOf v.first_any e.1
    × IsLastOf v.last_any e.1

abbrev pub IsSpan : Text → Sightings → Span → Type 0
IsSpan t sightings v = (e : String × List Sighting) × Memᴰ e sightings × IsSpanOf t v e

with_span-All :
    (P : Span → Type 0) (t : Text) (sec_id : String) (under all : List Sighting) (rest : List Span)
    → ((v : Span)
        → (v.sec_id ≡ sec_id)
          × IsFirstOf v.first under
          × IsLastOf v.last under
          × IsFirstOf v.first_any all
          × IsLastOf v.last_any all
        → P v)
    → All P rest
    → All P (with_span sec_id under all rest)
unfolding with_span
with_span-All P t sec_id [] all rest f h = h
with_span-All P t sec_id (s ∷ under) [] rest f h = h
with_span-All P t sec_id (s ∷ under) (x ∷ xs) rest f h = (
  f _ (
    refl,
    (first_in-is_on s under, first_in-le s under),
    (last_in-is_on s under, last_in-le s under),
    (first_in-is_on x xs, first_in-le x xs),
    (last_in-is_on x xs, last_in-le x xs),
  ),
  h,
)

IsSpan-tail :
    (t : Text) (e : String × List Sighting) (es : Sightings) (v : Span)
    → IsSpan t es v
    → IsSpan t (e ∷ es) v
IsSpan-tail t e es v h = (h.0, Memᴰ.tail h.1, h.2)

spans_under-AreSpans :
    (t : Text) (sightings : Sightings) → All (IsSpan t sightings) (spans_under t sightings)
unfolding spans_under
spans_under-AreSpans t [] = tt
spans_under-AreSpans t (e ∷ es) =
    with_span-All (IsSpan t (e ∷ es)) t e.0 (filter (is_under t) e.1) e.1 (spans_under t es)
      (λ v h. (e, Memᴰ.head refl, h))
      (All-map (IsSpan t es) (IsSpan t (e ∷ es)) (IsSpan-tail t e es) (spans_under t es)
        (spans_under-AreSpans t es))

-- A is B's predecessor under a ticker: both are securities of the run sighted under it, A no later than B, A's
-- last day and B's first under it and B's first and A's last under any are those of their sightings, and B's first
-- day is at most 10 days before A's last and at most 120 days after it. They are two securities.
abbrev pub IsHandoff : Text → Sightings → HandoffPair → Type 0
IsHandoff t sightings p =
    (ea eb : String × List Sighting) × Memᴰ ea sightings
    × Memᴰ eb sightings
    × (p.a ≡ ea.0)
    × (p.b ≡ eb.0)
    × IsLastOf p.a_last (filter (is_under t) ea.1)
    × IsFirstOf p.b_first (filter (is_under t) eb.1)
    × IsFirstOf p.b_first_any eb.1
    × ((l : ℕ) × (p.a_last_any ≡ some l) × IsLastOf l ea.1)
    × ((f : ℕ) × IsFirstOf f (filter (is_under t) ea.1) × (f ≤ p.b_first))
    × (p.a_last ≤ p.b_first + 10)
    × (p.b_first ≤ p.a_last + 120)
    × (p.a ≢ p.b)

pair_of-IsHandoff :
    (t : Text) (sightings : Sightings) (v w : Span)
    → IsSpan t sightings v
    → IsSpan t sightings w
    → v.first ≤ w.first
    → v.sec_id ≢ w.sec_id
    → meets v w ≡ true
    → IsHandoff t sightings (pair_of v w)
unfolding pair_of meets at_most
pair_of-IsHandoff t sightings v w (ea, ma, sa) (eb, mb, sb) le apart h = (
  ea,
  eb,
  ma,
  mb,
  sa.0,
  sb.0,
  sa.2,
  sb.1,
  sb.3,
  (v.last_any, refl, sa.4),
  (v.first, sa.1, le),
  ground arith,
  ground arith,
  apart,
)

began_before-le : (v w : Span) → began_before v w ≡ true → v.first ≤ w.first
unfolding began_before
began_before-le v w h = ground arith

not_began_before-le : (v w : Span) → began_before v w ≡ false → w.first ≤ v.first
unfolding began_before
not_began_before-le v w h = ground arith

pairs_of-AreHandoffs :
    (t : Text) (sightings : Sightings) (spans : List Span)
    → All (IsSpan t sightings) spans
    → IsSortedBy (λ v. v.first) spans
    → AreDistinct (λ v. v.sec_id) spans
    → All (IsHandoff t sightings) (pairs_of spans)
unfolding pairs_of
pairs_of-AreHandoffs t sightings [] h k apart = tt
pairs_of-AreHandoffs t sightings (v ∷ []) h k apart = tt
pairs_of-AreHandoffs t sightings (v ∷ w ∷ ws) h k apart =
    let rest = pairs_of-AreHandoffs t sightings (w ∷ ws) h.1 k.1 apart.1 in
    elim (Bool-cases (meets v w)) [
      | inl on ↦ rw on (pair_of-IsHandoff t sightings v w h.0 h.1.0 k.0.0 apart.0.0 on, rest)
      | inr off ↦ rw off rest
    ]

-- A ticker's spans are of securities that are apart where those of the sightings are.
with_span-ids :
    (P : String → Type 0) (sec_id : String) (under all : List Sighting) (rest : List Span)
    → P sec_id
    → All (λ v. P v.sec_id) rest
    → All (λ v. P v.sec_id) (with_span sec_id under all rest)
unfolding with_span
with_span-ids P sec_id [] all rest p h = h
with_span-ids P sec_id (s ∷ under) [] rest p h = h
with_span-ids P sec_id (s ∷ under) (x ∷ xs) rest p h = (p, h)

spans_under-ids :
    (P : String → Type 0) (t : Text) (sightings : Sightings)
    → All (λ e. P e.0) sightings
    → All (λ v. P v.sec_id) (spans_under t sightings)
unfolding spans_under
spans_under-ids P t [] h = tt
spans_under-ids P t (e ∷ es) h =
    with_span-ids P e.0 (filter (is_under t) e.1) e.1 (spans_under t es) h.0
      (spans_under-ids P t es h.1)

with_span-AreDistinct :
    (sec_id : String) (under all : List Sighting) (rest : List Span)
    → All (λ v. sec_id ≢ v.sec_id) rest
    → AreDistinct (λ v. v.sec_id) rest
    → AreDistinct (λ v. v.sec_id) (with_span sec_id under all rest)
unfolding with_span
with_span-AreDistinct sec_id [] all rest p h = h
with_span-AreDistinct sec_id (s ∷ under) [] rest p h = h
with_span-AreDistinct sec_id (s ∷ under) (x ∷ xs) rest p h = (p, h)

spans_under-AreDistinct :
    (t : Text) (sightings : Sightings)
    → AreDistinct (λ e. e.0) sightings
    → AreDistinct (λ v. v.sec_id) (spans_under t sightings)
unfolding spans_under
spans_under-AreDistinct t [] h = tt
spans_under-AreDistinct t (e ∷ es) h =
    with_span-AreDistinct e.0 (filter (is_under t) e.1) e.1 (spans_under t es)
      (spans_under-ids (λ i. e.0 ≢ i) t es h.0) (spans_under-AreDistinct t es h.1)

pairs_under-AreHandoffs :
    (t : Text) (sightings : Sightings)
    → AreDistinct (λ e. e.0) sightings
    → All (IsHandoff t sightings) (pairs_under t sightings)
unfolding pairs_under
pairs_under-AreHandoffs t sightings apart =
    let spans = spans_under t sightings in
    pairs_of-AreHandoffs t sightings (sort_with began_before spans)
      (All-sort_with began_before (IsSpan t sightings) spans (spans_under-AreSpans t sightings))
      (sort_with-IsSortedBy began_before (λ v. v.first) began_before-le not_began_before-le spans)
      (sort_with-AreDistinct began_before (λ v. v.sec_id) spans
        (spans_under-AreDistinct t sightings apart))

abbrev pub IsSomeHandoff : Sightings → HandoffPair → Type 0
IsSomeHandoff sightings p = (t : Text) × IsHandoff t sightings p

pairs_among-AreHandoffs :
    (ts : List Text) (sightings : Sightings)
    → AreDistinct (λ e. e.0) sightings
    → All (IsSomeHandoff sightings) (pairs_among ts sightings)
unfolding pairs_among
pairs_among-AreHandoffs [] sightings apart = tt
pairs_among-AreHandoffs (t ∷ ts) sightings apart =
    All-append (IsSomeHandoff sightings) (pairs_under t sightings) (pairs_among ts sightings)
      (All-map (IsHandoff t sightings) (IsSomeHandoff sightings) (λ p h. (t, h))
        (pairs_under t sightings) (pairs_under-AreHandoffs t sightings apart))
      (pairs_among-AreHandoffs ts sightings apart)

-- Of sightings that hold each security once, every pair is of two different securities of the run that were sighted under one ticker, the first no later than the second. Its
-- days are those of their sightings: the first one's last and the second one's first under the ticker, and under any.
-- The second one's first day is at most 10 days before the first one's last and at most 120 days after it.
pub find_handoffs-AreHandoffs :
    (sightings : Sightings)
    → AreDistinct (λ e. e.0) sightings
    → All (IsSomeHandoff sightings) (find_handoffs sightings)
unfolding find_handoffs
find_handoffs-AreHandoffs sightings apart =
    All-sort_with pair_before (IsSomeHandoff sightings)
      (pairs_among (tickers_of sightings []) sightings)
      (pairs_among-AreHandoffs (tickers_of sightings []) sightings apart)
