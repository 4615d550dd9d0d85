-- ===== src/Sources/Ftd/Closes/Reading.antt =====
-- Which row the closes are read from.
use mathlib.Core.Path.{subst}
use mathlib.Core.List.{Memᴰ, reverse-cons, reverse-reverse}
use delist_detection.Prelude.{
  ℕ, ◌≤◌, ◌<◌, ◌≡◌, refl, sym, ap, ◌∙◌, true, false, not, inl, inr, Option, none, some, List, [],
  ◌∷◌, ◌++◌, reverse, arith, Bool, ◌&&◌, Bool-cases, filter, All-self, All-zip, All-filter,
  All-of_filter, is_among, All, All-map, All-append, ◌⊎◌, All-filter_of, All-mem, IsSortedBy,
  sort_with-IsSortedBy, Text, Option-cases,
}
use delist_detection.Vocabulary.TradingCalendar.{sub_trading_days}
use delist_detection.Sources.Ftd.{
  FtdRow, FtdIndex, slice, by_cusip, by_symbol, rows_under, row_before, from_on, up_to,
}
use delist_detection.Vocabulary.Identifiers.{upper, normalize_ticker}
use delist_detection.Sources.Ftd.Slices.{
  slice-filter, slice-IsSortedBy, slice-dates, kept-IsSortedBy,
}
use delist_detection.Sources.Ftd.Closes.{
  Close, Key, of_cusip, of_symbol, rows_at, positive, first_priced, close_through,
}

-- Each key's rows are sorted by date.
pub record IsIndex (index : FtdIndex) : Type 0 where
  pub cusips_sorted : (c : Text) → IsSortedBy (λ r. r.date) (index.rows_by_cusip c)
  pub symbols_sorted : (s : Text) → IsSortedBy (λ r. r.date) (index.rows_by_symbol s)

before_le : (r s : FtdRow) → row_before r s ≡ true → r.date ≤ s.date
unfolding row_before
before_le r s h = ground arith

not_before_le : (r s : FtdRow) → row_before r s ≡ false → s.date ≤ r.date
unfolding row_before
not_before_le r s h = ground arith

abbrev Spans : ℕ → ℕ → List FtdRow → Type 0
Spans lo hi rows = IsSortedBy (λ r. r.date) rows × All (λ r. (lo ≤ r.date) × (r.date ≤ hi)) rows

slice-Spans :
    (rows : List FtdRow) (lo hi : ℕ)
    → IsSortedBy (λ r. r.date) rows
    → Spans lo hi (slice rows (some lo) (some hi))
slice-Spans rows lo hi h = (slice-IsSortedBy rows (some lo) (some hi) h, slice-dates rows lo hi h)

rows_under-IsSortedBy :
    (alias : Option Text) (index : FtdIndex) (s : Text)
    → IsIndex index
    → IsSortedBy (λ r. r.date) (rows_under alias index s)
unfolding rows_under
rows_under-IsSortedBy none index s h = h.symbols_sorted s
rows_under-IsSortedBy (some canon) index s h =
    sort_with-IsSortedBy row_before (λ r. r.date) before_le not_before_le
      (index.rows_by_symbol s ++ index.rows_by_symbol canon)

by_symbol-Spans :
    (index : FtdIndex) (symbol : Text) (lo hi : ℕ)
    → IsIndex index
    → Spans lo hi (by_symbol index symbol (some lo) (some hi))
unfolding by_symbol
by_symbol-Spans index symbol lo hi h =
    let s = normalize_ticker symbol in
    slice-Spans (rows_under (index.aliases s) index s) lo hi
      (rows_under-IsSortedBy (index.aliases s) index s h)

rows_at-Spans :
    (index : FtdIndex) (key : Key) (lo hi : ℕ)
    → IsIndex index
    → Spans lo hi (rows_at index key lo hi)
unfolding rows_at by_cusip
rows_at-Spans index (of_cusip cusip) lo hi h =
    slice-Spans (index.rows_by_cusip (upper cusip)) lo hi (h.cusips_sorted (upper cusip))
rows_at-Spans index (of_symbol symbol skip) lo hi h =
    let spans = by_symbol-Spans index symbol lo hi h in
    (
      kept-IsSortedBy (λ r. not (is_among r.cusip skip))
          (by_symbol index symbol (some lo) (some hi)) spans.0,
      All-filter_of (λ r. (lo ≤ r.date) × (r.date ≤ hi)) (λ r. not (is_among r.cusip skip))
          (by_symbol index symbol (some lo) (some hi)) spans.1,
    )

-- A row of the list with the close's price, above zero, on the close's row date.
abbrev pub IsRead : Close → FtdRow → Type 0
IsRead c r = (r.price ≡ some c.price) × (0 < c.price) × (r.date ≡ c.row_date)

positive-some : (price : Option ℕ) (p : ℕ) → positive price ≡ some p → (price ≡ some p) × (0 < p)
unfolding positive
positive-some none p h = cc
positive-some (some q) p h = ground (arith, h)

positive-none : (price : Option ℕ) (p : ℕ) → positive price ≡ none → price ≡ some p → p ≡ 0
unfolding positive
positive-none none p h e = cc
positive-none (some q) p h e = ground (arith, h, e)

-- The later of the rows first.
abbrev AreBack : List FtdRow → Type 0
AreBack [] = Unit
AreBack (r ∷ rs) = All (λ s. s.date ≤ r.date) rs × AreBack rs

AreBack-last :
    (rs : List FtdRow) (r : FtdRow)
    → All (λ s. r.date ≤ s.date) rs
    → AreBack rs
    → AreBack (rs ++ r ∷ [])
AreBack-last [] r h k = (tt, tt)
AreBack-last (s ∷ rs) r h k =
    (All-append (λ x. x.date ≤ s.date) rs (r ∷ []) k.0 (h.0, tt), AreBack-last rs r h.1 k.1)

All-reverse {κ} : (P : FtdRow → Type κ) (rs : List FtdRow) → All P rs → All P (reverse rs)
All-reverse P [] h = tt
All-reverse P (r ∷ rs) h =
    rw (reverse-cons r rs) (All-append P (reverse rs) (r ∷ []) (All-reverse P rs h.1) (h.0, tt))

AreBack-reverse : (rs : List FtdRow) → IsSortedBy (λ r. r.date) rs → AreBack (reverse rs)
AreBack-reverse [] h = tt
AreBack-reverse (r ∷ rs) h = rw (reverse-cons r rs) (
    AreBack-last (reverse rs) r (All-reverse (λ s. r.date ≤ s.date) rs h.0)
      (AreBack-reverse rs h.1))

first_priced-here :
    (r : FtdRow) (rs : List FtdRow) (p : ℕ)
    → positive r.price ≡ some p
    → first_priced (r ∷ rs) ≡ some (record { price = p; row_date = r.date })
unfolding first_priced
first_priced-here r rs p h = rw (h, first_priced)

first_priced-later :
    (r : FtdRow) (rs : List FtdRow)
    → positive r.price ≡ none
    → first_priced (r ∷ rs) ≡ first_priced rs
unfolding first_priced
first_priced-later r rs h = rw (h, first_priced)

some_price :
    (p d : ℕ) (c : Close)
    → ◌≡◌ {A = Option Close} (some (record { price = p; row_date = d })) (some c)
    → (p ≡ c.price) × (d ≡ c.row_date)
some_price p d c h = (ap price_of h, ap day_of h)
  where
    price_of : Option Close → ℕ
    price_of none = p
    price_of (some k) = k.price

    day_of : Option Close → ℕ
    day_of none = d
    day_of (some k) = k.row_date

above_as : (p q : ℕ) → 0 < p → p ≡ q → 0 < q
above_as p q h e = omega (arith, h, e)

-- A row without a price above zero, or one no later than the close's.
abbrev pub IsNoLater : Close → FtdRow → Type 0
IsNoLater c s = (positive s.price ≡ none) ⊎ (s.date ≤ c.row_date)

first_priced-latest :
    (rs : List FtdRow) (c : Close)
    → AreBack rs
    → first_priced rs ≡ some c
    → ((r : FtdRow) × Memᴰ r rs × IsRead c r) × All (IsNoLater c) rs
unfolding first_priced
first_priced-latest [] c h e = cc
first_priced-latest (r ∷ rs) c h e = elim (Option-cases (positive r.price)) [
  | inl unpriced ↦
      let ((s, there, read), rest) =
        first_priced-latest rs c h.1 (sym (first_priced-later r rs unpriced) ∙ e) in
      ((s, Memᴰ.tail there, read), (inl unpriced, rest))
  | inr (p, priced) ↦
      let same : some (record { price = p; row_date = r.date }) ≡ some c =
        sym (first_priced-here r rs p priced) ∙ e in
      let (price, above) = positive-some r.price p priced in
      let amount = some_price p r.date c same in
      let day = amount.1 in
      (
        (
          r,
          Memᴰ.head refl,
          (price ∙ ap (λ (q : ℕ). some q) amount.0, above_as p c.price above amount.0, day),
        ),
        (
          inr (omega (arith, day)),
          All-map (λ s. s.date ≤ r.date) (IsNoLater c) (λ s k. inr (omega (arith, k, day))) rs h.0,
        ),
      )
]

-- The rows that an index holds of a key, and those of them that a close may be read from.
abbrev pub held_of : FtdIndex → Key → List FtdRow
held_of index (of_cusip cusip) = index.rows_by_cusip (upper cusip)
held_of index (of_symbol symbol skip) =
    rows_under (index.aliases (normalize_ticker symbol)) index (normalize_ticker symbol)

abbrev pub is_read : Key → FtdRow → Bool
is_read (of_cusip cusip) r = true
is_read (of_symbol symbol skip) r = not (is_among r.cusip skip)

filter-all : (rs : List FtdRow) → filter (λ r. true) rs ≡ rs
filter-all [] = refl
filter-all (r ∷ rs) = ap (λ (ss : List FtdRow). r ∷ ss) (filter-all rs)

-- The rows read in a span are the key's rows dated in it.
rows_at-filter :
    (index : FtdIndex) (key : Key) (lo hi : ℕ)
    → IsIndex index
    → rows_at index key lo hi
      ≡ filter
          (is_read key)
          (filter (λ r. from_on (some lo) r.date && up_to (some hi) r.date) (held_of index key))
unfolding rows_at by_cusip by_symbol
rows_at-filter index (of_cusip cusip) lo hi h =
    slice-filter (index.rows_by_cusip (upper cusip)) (some lo) (some hi)
      (h.cusips_sorted (upper cusip))
    ∙ sym (filter-all _)
rows_at-filter index (of_symbol symbol skip) lo hi h =
    let s = normalize_ticker symbol in
    ap (filter (is_read (of_symbol symbol skip))) (
      slice-filter (rows_under (index.aliases s) index s) (some lo) (some hi)
        (rows_under-IsSortedBy (index.aliases s) index s h))

-- A row that the close is not read past: it may not be read, it is dated outside the span, it has no price above
-- zero, or it is no later than the close's row.
abbrev pub IsPassed : Key → ℕ → ℕ → Close → FtdRow → Type 0
IsPassed key lo day c s = (is_read key s ≡ false) ⊎ (s.date < lo) ⊎ (day < s.date) ⊎ IsNoLater c s

span_cases :
    (lo day d : ℕ) → (d < lo) ⊎ (day < d) ⊎ ((from_on (some lo) d && up_to (some day) d) ≡ true)
unfolding from_on up_to
span_cases lo day d = ground arith

passed :
    (key : Key) (lo day : ℕ) (c : Close) (s : FtdRow)
    → ((from_on (some lo) s.date && up_to (some day) s.date) ≡ true
        → is_read key s ≡ true
        → IsNoLater c s)
    → IsPassed key lo day c s
passed key lo day c s f = elim (Bool-cases (is_read key s)) [
  | inr skipped ↦ inl skipped
  | inl may ↦ elim (span_cases lo day s.date) [
    | inl before ↦ inr (inl before)
    | inr (inl after) ↦ inr (inr (inl after))
    | inr (inr within) ↦ inr (inr (inr (f within may)))
  ]
]

-- Of an index whose lists are sorted by date: the close that `close_through` gives is read from a row that the
-- index holds of the key (under a symbol, one of no CUSIP to skip), priced above zero and dated in the days
-- that it looks back over, the day itself among them. Every later row of the key that may be read has no price
-- above zero or is dated past the day: it is the latest close known on the day.
pub close_through-latest :
    (index : FtdIndex) (key : Key) (day max_back lo : ℕ) (c : Close)
    → IsIndex index
    → sub_trading_days day max_back ≡ some lo
    → close_through index key day max_back ≡ some c
    → ((r : FtdRow) × Memᴰ r (held_of index key) × (is_read key r ≡ true) × IsRead c r)
      × All (IsPassed key lo day c) (held_of index key)
      × (lo ≤ c.row_date)
      × (c.row_date ≤ day)
unfolding close_through
close_through-latest index key day max_back lo c h back e =
    let rows = rows_at index key lo day in
    let held = held_of index key in
    let span : FtdRow → Bool = λ r. from_on (some lo) r.date && up_to (some day) r.date in
    let (sorted, dates) = rows_at-Spans index key lo day h in
    let read : first_priced (reverse rows) ≡ some c = rw back at e in
    let ((r, there, is), rest) =
      first_priced-latest (reverse rows) c (AreBack-reverse rows sorted) read in
    let (low, high) =
      All-mem (λ s. (lo ≤ s.date) × (s.date ≤ day)) (reverse rows)
        (All-reverse (λ s. (lo ≤ s.date) × (s.date ≤ day)) rows dates) there in
    let same = rows_at-filter index key lo day h in
    let members : All (λ s. Memᴰ s held × (is_read key s ≡ true)) rows =
      subst (λ (xs : List FtdRow). All (λ s. Memᴰ s held × (is_read key s ≡ true)) xs) (sym same)
        (All-zip (λ s. Memᴰ s held) (λ s. is_read key s ≡ true)
          (filter (is_read key) (filter span held))
          (All-filter_of (λ s. Memᴰ s held) (is_read key) (filter span held)
            (All-filter_of (λ s. Memᴰ s held) span held (All-self held)))
          (All-filter (is_read key) (filter span held))) in
    let (held_r, may) =
      All-mem (λ s. Memᴰ s held × (is_read key s ≡ true)) (reverse rows)
        (All-reverse (λ s. Memᴰ s held × (is_read key s ≡ true)) rows members) there in
    let back_again : All (IsNoLater c) rows =
      subst (λ (xs : List FtdRow). All (IsNoLater c) xs) (reverse-reverse rows)
        (All-reverse (IsNoLater c) (reverse rows) rest) in
    let of_span =
      All-of_filter (λ s. is_read key s ≡ true → IsNoLater c s) span held
        (All-of_filter (IsNoLater c) (is_read key) (filter span held)
          (subst (λ (xs : List FtdRow). All (IsNoLater c) xs) same back_again)) in
    let on = is.2 in
    (
      (r, held_r, may, is),
      All-map (λ s. span s ≡ true → is_read key s ≡ true → IsNoLater c s) (IsPassed key lo day c)
          (λ s f. passed key lo day c s f) held of_span,
      omega (arith, low, on),
      omega (arith, high, on),
    )
