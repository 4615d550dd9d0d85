-- ===== src/Outputs/Verdict/Securities/Placed.antt =====
-- A security without a reason (outputs/verdict.py).
use delist_detection.Prelude.{
  ℕ, ◌≡◌, refl, ap, Bool, true, false, not, ◌&&◌, ◌||◌, Option, none, some, List, [], ◌∷◌, ◌++◌,
  String, str_eq, Text, filter, map, any, arith, inl, inr, is_among, text_le, insert_with,
  sort_with, All, All-map, Bool-cases, if◌then◌else◌,
}
use delist_detection.Vocabulary.ExitKind.Kinds.{is_real_ending}
use delist_detection.Outputs.Verdict.{Interval, covered, is_blank}
use delist_detection.Outputs.Verdict.Securities.Clashes.{AreApart, overlapping-AreApart}
use delist_detection.Outputs.Verdict.Securities.{
  SecurityRow, TickerRow, Seed, Delisted, Tables, SecurityReason, raised_if, is_introduction, is_of,
  intervals_of, stale_seed, is_outside, outside_reasons, overlapping, distinct, sorted_set, is_open,
  later_end, last_end, closed_by, closed_without_ending, bankruptcy_reasons, security_reasons,
}

append_none : (xs ys : List SecurityReason) → xs ++ ys ≡ [] → (xs ≡ []) × (ys ≡ [])
append_none [] ys h = (refl, h)
append_none (x ∷ xs) ys h = cc

raised_if-nil : (b : Bool) (r : SecurityReason) → raised_if b r ≡ [] → b ≡ false
unfolding raised_if
raised_if-nil true r h = cc
raised_if-nil false r h = refl

outside_reasons-nil : (seeds : List Seed) → outside_reasons seeds ≡ [] → seeds ≡ []
unfolding outside_reasons
outside_reasons-nil [] h = refl
outside_reasons-nil (s ∷ ss) h = cc

filter-none :
    (p : Seed → Bool) (seeds : List Seed) → filter p seeds ≡ [] → All (λ s. p s ≡ false) seeds
filter-none p [] h = tt
filter-none p (s ∷ ss) h = elim (Bool-cases (p s)) [
  | inl kept ↦ absurd (cons_nil s (filter p ss) (rw kept at h))
  | inr out ↦ (out, filter-none p ss (rw out at h))
]
  where
    cons_nil : (x : Seed) (xs : List Seed) → x ∷ xs ≡ [] → ⊥
    cons_nil x xs k = cc

map-none : (f : Text → SecurityReason) (ts : List Text) → map f ts ≡ [] → ts ≡ []
map-none f [] h = refl
map-none f (t ∷ ts) h = cc

-- An introduction of the security is within its history, or its snapshot is stale.
abbrev pub is_accounted : String → List TickerRow → Option (Delisted × Bool) → Seed → Bool
is_accounted sid rows settled seed =
    not (is_of sid seed)
    || (not (is_introduction seed.as_of seed.era)
        || (covered (intervals_of sid rows) seed.as_of || stale_seed seed settled))

accounted :
    (a b c d : Bool)
    → (a && (b && (not c && not d))) ≡ false
    → (not a || (not b || (c || d))) ≡ true
accounted a b c d h = ground (arith, h)

is_outside-is_accounted :
    (sid : String) (rows : List TickerRow) (settled : Option (Delisted × Bool)) (seed : Seed)
    → is_outside sid rows settled seed ≡ false
    → is_accounted sid rows settled seed ≡ true
unfolding is_outside
is_outside-is_accounted sid rows settled seed h =
    accounted (is_of sid seed) (is_introduction seed.as_of seed.era)
      (covered (intervals_of sid rows) seed.as_of) (stale_seed seed settled) h

distinct-nil : (ts : List Text) → distinct ts ≡ [] → ts ≡ []
unfolding distinct
distinct-nil [] h = refl
distinct-nil (t ∷ ts) h = elim (Bool-cases (is_among t (distinct ts))) [
  | inl there ↦ absurd (among_none t (distinct ts) there (rw there at h))
  | inr new ↦ absurd (cons_none t (distinct ts) (rw new at h))
]
  where
    among_none : (u : Text) (us : List Text) → is_among u us ≡ true → us ≡ [] → ⊥
    among_none u [] k e = cc
    among_none u (v ∷ us) k e = cc

    cons_none : (u : Text) (us : List Text) → u ∷ us ≡ [] → ⊥
    cons_none u us e = cc

insert_with-nil : (t : Text) (ts : List Text) → insert_with text_le t ts ≡ [] → ⊥
insert_with-nil t [] h = cc
insert_with-nil t (u ∷ us) h = elim (Bool-cases (text_le t u)) [
  | inl le ↦ none t (u ∷ us) (rw le at h)
  | inr gt ↦ none u (insert_with text_le t us) (rw gt at h)
]
  where
    none : (x : Text) (xs : List Text) → x ∷ xs ≡ [] → ⊥
    none x xs e = cc

sorted_set-nil : (ts : List Text) → sorted_set ts ≡ [] → ts ≡ []
unfolding sorted_set
sorted_set-nil ts h = distinct-nil ts (sort_nil (distinct ts) h)
  where
    sort_nil : (us : List Text) → sort_with text_le us ≡ [] → us ≡ []
    sort_nil [] k = refl
    sort_nil (u ∷ us) k = absurd (insert_with-nil u (sort_with text_le us) k)

last_end-none : (is : List Interval) → last_end is ≡ none → any is_open is ≡ true
unfolding last_end later_end is_open
last_end-none [] h = cc
last_end-none (i ∷ is) h = by_end i.valid_to (last_end is) (last_end-none is) h
  where
    by_end :
        (o rest : Option ℕ)
        → (rest ≡ none → any is_open is ≡ true)
        → later_end o rest ≡ none
        → ((elim o [ none ↦ true | some to ↦ false ]) || any is_open is) ≡ true
    by_end none rest f k = refl
    by_end (some to) none f k = f refl
    by_end (some to) (some later) f k = cc

-- Observed, gone from every interval, and with no real ending.
abbrev pub is_lost : SecurityRow → List Interval → List Delisted → Bool
is_lost s [] endings = false
is_lost s (i ∷ is) endings =
    s.observed
    && (not (any (λ d. is_real_ending d.ending.row) endings) && not (any is_open (i ∷ is)))

closed_by-nil : (o : Option ℕ) → closed_by o ≡ [] → o ≡ none
unfolding closed_by
closed_by-nil none h = refl
closed_by-nil (some end) h = cc

closed_without_ending-nil :
    (s : SecurityRow) (is : List Interval) (endings : List Delisted)
    → closed_without_ending s is endings ≡ []
    → is_lost s is endings ≡ false
unfolding closed_without_ending
closed_without_ending-nil s [] endings h = refl
closed_without_ending-nil s (i ∷ is) endings h =
    by_test s.observed (any (λ d. is_real_ending d.ending.row) endings) h
  where
    by_test :
        (a b : Bool)
        → (if not a || b then [] else closed_by (last_end (i ∷ is))) ≡ []
        → (a && (not b && not (any is_open (i ∷ is)))) ≡ false
    by_test false b k = refl
    by_test true true k = refl
    by_test true false k = ap not (last_end-none (i ∷ is) (closed_by-nil (last_end (i ∷ is)) k))

-- What a confirmed security stands on.
pub record IsPlaced (t : Tables) (s : SecurityRow) : Type 0 where
  pub has_filing : (s.is_placeholder && not (t.has_evidence s.sec_id)) ≡ false
  pub has_issuer : (s.observed && (not s.is_placeholder && is_blank s.issuer_cik)) ≡ false
  pub seeds_accounted :
      All
        (λ seed. is_accounted s.sec_id t.ticker_history (t.settled s.sec_id) seed ≡ true)
        t.observation_map
  pub no_clash : AreApart t.delistings s.sec_id t.ticker_history
  pub not_lost :
      is_lost s
        (map (λ r. r.interval) (filter (λ r. str_eq r.sec_id s.sec_id) t.ticker_history))
        (filter (λ d. str_eq d.ending.row.sec_id s.sec_id) t.delistings)
      ≡ false

-- A confirmed security: a placeholder has a filing that ties its ticker to its CIK, and an observed security
-- with a FIGI has an issuer; each of its introductions is within its history or a stale snapshot after its
-- settled last ending; none of its rows shares a day of a ticker with a security that no ending links it to;
-- and it is not an observed one whose every interval is closed with no real ending.
pub security_reasons-IsPlaced :
    (t : Tables) (s : SecurityRow) → security_reasons t s ≡ [] → IsPlaced t s
unfolding security_reasons
security_reasons-IsPlaced t s h =
    let own = filter (λ r. str_eq r.sec_id s.sec_id) t.ticker_history in
    let endings = filter (λ d. str_eq d.ending.row.sec_id s.sec_id) t.delistings in
    let settled = t.settled s.sec_id in
    let outside = filter (is_outside s.sec_id t.ticker_history settled) t.observation_map in
    let clashes = sorted_set (overlapping t.delistings s.sec_id t.ticker_history) in
    let closed = closed_without_ending s (map (λ r. r.interval) own) endings in
    let filed =
      raised_if (s.is_placeholder && not (t.has_evidence s.sec_id))
        (SecurityReason.placeholder_without_ticker_filing s.issuer_cik) in
    let unresolved =
      raised_if (s.observed && (not s.is_placeholder && is_blank s.issuer_cik))
        SecurityReason.issuer_unresolved in
    let left = closed ++ bankruptcy_reasons s own in
    let (a, h1) =
      append_none filed
        (unresolved
          ++ (outside_reasons outside ++ (map SecurityReason.ticker_overlap clashes ++ left)))
        h in
    let (b, h2) =
      append_none unresolved
        (outside_reasons outside ++ (map SecurityReason.ticker_overlap clashes ++ left)) h1 in
    let (c, h3) =
      append_none (outside_reasons outside) (map SecurityReason.ticker_overlap clashes ++ left)
        h2 in
    let (d, h4) = append_none (map SecurityReason.ticker_overlap clashes) left h3 in
    let (e, _) = append_none closed (bankruptcy_reasons s own) h4 in
    record {
      has_filing =
          raised_if-nil (s.is_placeholder && not (t.has_evidence s.sec_id))
            (SecurityReason.placeholder_without_ticker_filing s.issuer_cik) a;
      has_issuer =
          raised_if-nil (s.observed && (not s.is_placeholder && is_blank s.issuer_cik))
            SecurityReason.issuer_unresolved b;
      seeds_accounted =
          All-map (λ seed. is_outside s.sec_id t.ticker_history settled seed ≡ false)
            (λ seed. is_accounted s.sec_id t.ticker_history settled seed ≡ true)
            (is_outside-is_accounted s.sec_id t.ticker_history settled) t.observation_map
            (filter-none (is_outside s.sec_id t.ticker_history settled) t.observation_map
              (outside_reasons-nil outside c));
      no_clash = overlapping-AreApart t.delistings s.sec_id t.ticker_history (
          sorted_set-nil (overlapping t.delistings s.sec_id t.ticker_history)
            (map-none SecurityReason.ticker_overlap clashes d));
      not_lost = closed_without_ending-nil s (map (λ r. r.interval) own) endings e;
    }
