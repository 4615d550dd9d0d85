-- ===== src/Outputs/Verdict/Securities/Clashes.antt =====
-- The overlaps of tickers in `_security_verdicts` (outputs/verdict.py).
use mathlib.Core.List.{Memᴰ}
use delist_detection.Prelude.{
  ◌≡◌, refl, ap, Bool, true, false, not, ◌&&◌, ◌||◌, Option, none, some, List, [], ◌∷◌, String,
  str_eq, Text, text_eq, text_eq→eq, text_eq_refl, or_else, filter, map, any, arith, inl, inr, All,
  All-map, All-mem, All-self, All-of_filter, All-filter, All-filter_of, All-zip, str_eq_iff,
  Bool-cases, Option-cases, if◌then◌else◌,
}
use delist_detection.Outputs.Verdict.Securities.{
  TickerRow, Delisted, clashes, shares, in_order, last_shared, overlapping_in, overlapping,
}

any-none {ℓ} :
    {A : Type ℓ} (p : A → Bool) (xs : List A) → any p xs ≡ false → All (λ x. p x ≡ false) xs
any-none p [] h = tt
any-none p (x ∷ xs) h = let parts = split (p x) (any p xs) h in (parts.0, any-none p xs parts.1)
  where
    split : (a b : Bool) → (a || b) ≡ false → (a ≡ false) × (b ≡ false)
    split a b k = (ground (arith, k), ground (arith, k))

module _ (delistings : List Delisted) (sid : String) (rows : List TickerRow) where
  overlapping_in-nil :
      (rs : List TickerRow)
      → overlapping_in delistings sid rows rs ≡ []
      → All
          (λ r.
            last_shared delistings rows sid r.sec_id (in_order (map (λ x. x.ticker) rows)) ≡ none)
          rs
  unfolding overlapping_in
  overlapping_in-nil [] h = tt
  overlapping_in-nil (r ∷ rs) h =
      elim (Option-cases
        (last_shared delistings rows sid r.sec_id (in_order (map (λ x. x.ticker) rows)))) [
          | inl nothing ↦ (nothing, overlapping_in-nil rs (rw (nothing, overlapping_in) at h))
          | inr (t, e) ↦
              absurd
                (cons_none t (overlapping_in delistings sid rows rs) (rw (e, overlapping_in) at h))
        ]
    where
      cons_none : (u : Text) (us : List Text) → u ∷ us ≡ [] → ⊥
      cons_none u us k = cc

  or_none :
      (o : Option Text) (b : Bool) (t : Text)
      → or_else o (if b then some t else none) ≡ none
      → (o ≡ none) × (b ≡ false)
  or_none none true t h = cc
  or_none none false t h = (refl, refl)
  or_none (some u) b t h = cc

  last_shared-none :
      (other : String) (ts : List Text)
      → last_shared delistings rows sid other ts ≡ none
      → All (λ t. shares delistings rows sid other t ≡ false) ts
  unfolding last_shared
  last_shared-none other [] h = tt
  last_shared-none other (t ∷ ts) h =
      let (rest, here) =
        or_none (last_shared delistings rows sid other ts) (shares delistings rows sid other t) t
          h in
      (here, last_shared-none other ts rest)

  All-of_in_order : (P : Text → Type 0) (ts : List Text) → All P (in_order ts) → All P ts
  unfolding in_order
  All-of_in_order P [] h = tt
  All-of_in_order P (t ∷ ts) h = (
    h.0,
    All-of_in_order P ts (
        All-map (λ u. not (text_eq u t) ≡ true → P u) P
          (λ u f. elim (Bool-cases (text_eq u t)) [
            | inl same ↦ rw (text_eq→eq u t same) h.0
            | inr other ↦ f (ap not other)
          ])
          (in_order ts) (All-of_filter P (λ u. not (text_eq u t)) (in_order ts) h.1)),
  )

  ticker_of :
      (P : Text → Type 0) (rs : List TickerRow) (a : TickerRow)
      → All P (map (λ x. x.ticker) rs)
      → Memᴰ a rs
      → P a.ticker
  ticker_of P [] a h m = elim m [ ]
  ticker_of P (x ∷ rs) a h (Memᴰ.head e) = rw e h.0
  ticker_of P (x ∷ rs) a h (Memᴰ.tail m) = ticker_of P rs a h.1 m

  drop_true : (a b c : Bool) → b ≡ true → (a && (b && c)) ≡ false → (a && c) ≡ false
  drop_true a b c h k = ground (arith, h, k)

  inside_any : (a : Bool) {x : Bool} → (a && x) ≡ false → a ≡ true → x ≡ false
  inside_any true h k = h
  inside_any false h k = cc

  pub overlapping-clashes :
      (a b : TickerRow)
      → overlapping delistings sid rows ≡ []
      → Memᴰ a rows
      → Memᴰ b rows
      → str_eq a.sec_id sid ≡ true
      → str_eq b.sec_id b.sec_id ≡ true
      → clashes delistings a b ≡ false
  unfolding overlapping shares
  overlapping-clashes a b h ma mb own self =
      let tickers = in_order (map (λ x. x.ticker) rows) in
      let unshared =
        All-mem (λ r. last_shared delistings rows sid r.sec_id tickers ≡ none) rows
          (overlapping_in-nil rows h) mb in
      let of_ticker =
        ticker_of (λ t. shares delistings rows sid b.sec_id t ≡ false) rows a
          (All-of_in_order (λ t. shares delistings rows sid b.sec_id t ≡ false)
            (map (λ x. x.ticker) rows) (last_shared-none b.sec_id tickers unshared))
          ma in
      let of_a =
        All-mem
          (λ x.
            (str_eq x.sec_id sid
              && (text_eq x.ticker a.ticker
                  && any (λ y. str_eq y.sec_id b.sec_id && clashes delistings x y) rows))
            ≡ false)
          rows
          (any-none
            (λ x.
              str_eq x.sec_id sid
              && (text_eq x.ticker a.ticker
                  && any (λ y. str_eq y.sec_id b.sec_id && clashes delistings x y) rows))
            rows of_ticker)
          ma in
      let none_with =
        inside_any (str_eq a.sec_id sid)
          (drop_true (str_eq a.sec_id sid) (text_eq a.ticker a.ticker)
            (any (λ y. str_eq y.sec_id b.sec_id && clashes delistings a y) rows)
            (text_eq_refl a.ticker) of_a)
          own in
      inside_any (str_eq b.sec_id b.sec_id)
        (All-mem (λ y. (str_eq y.sec_id b.sec_id && clashes delistings a y) ≡ false) rows
          (any-none (λ y. str_eq y.sec_id b.sec_id && clashes delistings a y) rows none_with) mb)
        self

-- No row of the security clashes with any row.
abbrev pub AreApart : List Delisted → String → List TickerRow → Type 0
AreApart delistings sid rows =
    All (λ a. All (λ b. clashes delistings a b ≡ false) rows)
      (filter (λ r. str_eq r.sec_id sid) rows)

pub overlapping-AreApart :
    (delistings : List Delisted) (sid : String) (rows : List TickerRow)
    → overlapping delistings sid rows ≡ []
    → AreApart delistings sid rows
overlapping-AreApart delistings sid rows h =
    let own : TickerRow → Bool = λ r. str_eq r.sec_id sid in
    All-map (λ a. Memᴰ a rows × (own a ≡ true))
      (λ a. All (λ b. clashes delistings a b ≡ false) rows)
      (λ a k.
        All-map (λ b. Memᴰ b rows) (λ b. clashes delistings a b ≡ false)
          (λ b m.
            overlapping-clashes delistings sid rows a b h k.0 m k.1
              ((str_eq_iff b.sec_id b.sec_id).1 refl))
          rows (All-self rows))
      (filter own rows)
      (All-zip (λ a. Memᴰ a rows) (λ a. own a ≡ true) (filter own rows)
        (All-filter_of (λ a. Memᴰ a rows) own rows (All-self rows)) (All-filter own rows))
