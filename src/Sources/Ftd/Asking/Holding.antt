-- ===== src/Sources/Ftd/Asking/Holding.antt =====
-- What an ask of sources/ftd.py's FtdIndex holds: every row of a key's windows.
use delist_detection.Prelude.{
  ℕ, ◌≡◌, ◌≤◌, refl, Bool, true, or_true, Option, none, some, List, [], ◌∷◌, ◌++◌, Text, text_eq,
  text_eq→eq, text_eq_refl, is_among, any, filter, inl, inr, arith, Bool-cases,
}
use mathlib.Core.List.{Memᴰ}
use delist_detection.Sources.Ftd.{FtdRow, same_price}
use delist_detection.Sources.Ftd.Asking.{
  FtdSource, Readers, Index, relabel, relabelled, label, same_line, same_row, add, add_all,
  read_all,
}

module _ {ℓ} {A : Type ℓ} where
  any-append : (p : A → Bool) (xs ys : List A) → any p xs ≡ true → any p (xs ++ ys) ≡ true
  any-append p [] ys h = absurd (ground (arith, h))
  any-append p (x ∷ xs) ys h = elim (Bool-cases (p x)) [
    | inl here ↦ rw here refl
    | inr later ↦
        let rest : any p xs ≡ true = rw later at h in rw (any-append p xs ys rest) (or_true (p x))
  ]

  any-append_right : (p : A → Bool) (xs ys : List A) → any p ys ≡ true → any p (xs ++ ys) ≡ true
  any-append_right p [] ys h = h
  any-append_right p (x ∷ xs) ys h = rw (any-append_right p xs ys h) (or_true (p x))

-- A row with the line's day, CUSIP, description and price is held, whatever its symbol.
abbrev pub is_held : FtdRow → Index → Bool
is_held r ix = any (same_line r) ix.seen

same_price_refl : (o : Option ℕ) → same_price o o ≡ true
unfolding same_price
same_price_refl none = refl
same_price_refl (some p) = ground arith

same_line_refl : (r : FtdRow) → same_line r r ≡ true
unfolding same_line
same_line_refl r =
    let cusip = text_eq_refl r.cusip in
    let description = text_eq_refl r.description in
    let price = same_price_refl r.price in ground (arith, cusip, description, price)

same_line-relabelled : (r : FtdRow) (o : Option Text) → same_line r (relabelled r o) ≡ true
unfolding relabelled same_line
same_line-relabelled r none = same_line_refl r
same_line-relabelled r (some canon) = same_line_refl r

same_price_trans :
    (o p q : Option ℕ) → same_price o p ≡ true → same_price p q ≡ true → same_price o q ≡ true
unfolding same_price
same_price_trans none none none h k = refl
same_price_trans none none (some c) h k = k
same_price_trans none (some b) q h k = absurd (ground (arith, h))
same_price_trans (some a) none q h k = absurd (ground (arith, h))
same_price_trans (some a) (some b) none h k = k
same_price_trans (some a) (some b) (some c) h k = ground (arith, h, k)

text_eq_trans : (s t u : Text) → text_eq s t ≡ true → text_eq t u ≡ true → text_eq s u ≡ true
text_eq_trans s t u h k = let same : s ≡ t = text_eq→eq s t h in rw same k

same_line_trans :
    (r s t : FtdRow) → same_line r s ≡ true → same_row s t ≡ true → same_line r t ≡ true
unfolding same_line same_row
same_line_trans r s t h k =
    let cusip = text_eq_trans r.cusip s.cusip t.cusip (ground (arith, h)) (ground (arith, k)) in
    let description =
      text_eq_trans r.description s.description t.description (ground (arith, h))
        (ground (arith, k)) in
    let price = same_price_trans r.price s.price t.price (ground (arith, h)) (ground (arith, k)) in
    ground (arith, h, k, cusip, description, price)

any_trans :
    (r s : FtdRow) (seen : List FtdRow)
    → same_line r s ≡ true
    → any (same_row s) seen ≡ true
    → any (same_line r) seen ≡ true
any_trans r s [] h k = absurd (ground (arith, k))
any_trans r s (t ∷ ts) h k = elim (Bool-cases (same_row s t)) [
  | inl here ↦ rw (same_line_trans r s t h here) refl
  | inr later ↦
      let rest : any (same_row s) ts ≡ true = rw later at k in
      rw (any_trans r s ts h rest) (or_true (same_line r t))
]

-- An added row is held, and what was held stays held.
add-is_held : (rd : Readers) (ix : Index) (r : FtdRow) → is_held r (add rd ix r) ≡ true
unfolding add relabel
add-is_held rd ix r =
    let new = relabelled r (label rd ix r) in
    let line = same_line-relabelled r (label rd ix r) in
    elim (Bool-cases (any (same_row new) ix.seen)) [
      | inl there ↦ rw (there, add) (any_trans r new ix.seen line there)
      | inr absent ↦
          let here : any (same_line r) (new ∷ []) ≡ true = rw line refl in
          rw (absent, add) (any-append_right (same_line r) ix.seen (new ∷ []) here)
    ]

add-keeps :
    (rd : Readers) (ix : Index) (r s : FtdRow)
    → is_held s ix ≡ true
    → is_held s (add rd ix r) ≡ true
unfolding add relabel
add-keeps rd ix r s h =
    let new = relabelled r (label rd ix r) in
    elim (Bool-cases (any (same_row new) ix.seen)) [
      | inl there ↦ rw (there, add) h
      | inr absent ↦ rw (absent, add) (any-append (same_line s) ix.seen (new ∷ []) h)
    ]

pub add_all-keeps :
    (rd : Readers) (ix : Index) (rs : List FtdRow) (s : FtdRow)
    → is_held s ix ≡ true
    → is_held s (add_all rd ix rs) ≡ true
unfolding add_all
add_all-keeps rd ix [] s h = h
add_all-keeps rd ix (r ∷ rs) s h = add_all-keeps rd (add rd ix r) rs s (add-keeps rd ix r s h)

pub add_all-is_held :
    (rd : Readers) (ix : Index) (rs : List FtdRow) (r : FtdRow)
    → Memᴰ r rs
    → is_held r (add_all rd ix rs) ≡ true
unfolding add_all
add_all-is_held rd ix [] r m = elim m [ ]
add_all-is_held rd ix (s ∷ rs) r (Memᴰ.head e) =
    rw e (add_all-keeps rd (add rd ix s) rs s (add-is_held rd ix s))
add_all-is_held rd ix (s ∷ rs) r (Memᴰ.tail m) = add_all-is_held rd (add rd ix s) rs r m

module _ {ℓ} {A : Type ℓ} where
  mem-append : {x : A} (xs ys : List A) → Memᴰ x xs → Memᴰ x (xs ++ ys)
  mem-append [] ys m = elim m [ ]
  mem-append (y ∷ xs) ys (Memᴰ.head e) = Memᴰ.head e
  mem-append (y ∷ xs) ys (Memᴰ.tail m) = Memᴰ.tail (mem-append xs ys m)

  mem-append_right : {x : A} (xs ys : List A) → Memᴰ x ys → Memᴰ x (xs ++ ys)
  mem-append_right [] ys m = m
  mem-append_right (y ∷ xs) ys m = Memᴰ.tail (mem-append_right xs ys m)

  pub mem-filter :
      {x : A} (p : A → Bool) (xs : List A) → Memᴰ x xs → p x ≡ true → Memᴰ x (filter p xs)
  mem-filter p [] m h = elim m [ ]
  mem-filter {x} p (y ∷ xs) (Memᴰ.head e) h =
      let here : p y ≡ true = rw⁻¹ e h in rw here (Memᴰ.head e)
  mem-filter p (y ∷ xs) (Memᴰ.tail m) h = elim (Bool-cases (p y)) [
    | inl on ↦ rw on (Memᴰ.tail (mem-filter p xs m h))
    | inr off ↦ rw off (mem-filter p xs m h)
  ]

-- A source over the rows that its files hold: it lists every file with a row of the span, and a file gives
-- every row of the CUSIPs that it is read for.
abbrev pub IsSource : FtdSource → (Text → FtdRow → Type 0) → Type 0
IsSource src Holds =
    ((u : Text) (r : FtdRow) (lo hi : ℕ)
      → Holds u r
      → lo ≤ r.date
      → r.date ≤ hi
      → is_among u (src.urls_for lo hi) ≡ true)
    × ((u : Text) (r : FtdRow) (symbols : Option (List Text)) (cusips : List Text)
        → Holds u r
        → is_among r.cusip cusips ≡ true
        → Memᴰ r (src.rows_in u symbols (some cusips)))

pub read_all-mem :
    (src : FtdSource) (u : Text) (us : List Text) (symbols cusips : Option (List Text)) (r : FtdRow)
    → is_among u us ≡ true
    → Memᴰ r (src.rows_in u symbols cusips)
    → Memᴰ r (read_all src us symbols cusips)
unfolding read_all
read_all-mem src u [] symbols cusips r h m = absurd (ground (arith, h))
read_all-mem src u (v ∷ us) symbols cusips r h m = elim (Bool-cases (text_eq u v)) [
  | inl here ↦
      let same : u ≡ v = text_eq→eq u v here in
      mem-append (src.rows_in v symbols cusips) (read_all src us symbols cusips) (rw same at m)
  | inr later ↦
      let rest : is_among u us ≡ true = rw later at h in
      mem-append_right (src.rows_in v symbols cusips) (read_all src us symbols cusips)
        (read_all-mem src u us symbols cusips r rest m)
]
