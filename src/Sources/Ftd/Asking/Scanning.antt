-- ===== src/Sources/Ftd/Asking/Scanning.antt =====
-- What a scan of sources/ftd.py's FtdIndex keeps and adds: its windows, and the rows it holds.
use delist_detection.Prelude.{
  ℕ, ◌≡◌, ◌≤◌, refl, ◌∙◌, ap, true, ◌&&◌, Option, none, some, List, [], ◌∷◌, Text, leb, text_eq,
  is_among, any, filter, inl, inr, arith, Bool-cases, Option-cases,
}
use delist_detection.Vocabulary.Identifiers.{bare_ticker, class_suffix}
use delist_detection.Sources.Ftd.{FtdRow}
use delist_detection.Sources.Ftd.Asking.{
  FtdSource, Readers, Index, learn, learn_all, learn_bare, learn_base, wanted, add, add_all,
  read_all, mark, scan, relabel, same_row, same_line,
}
use delist_detection.Sources.Ftd.Asking.Holding.{
  is_held, IsSource, add_all-keeps, add_all-is_held, mem-filter, read_all-mem,
}

learn_bare-kept :
    (ix : Index) (s : Text)
    → ((learn_bare ix s).seen ≡ ix.seen) × ((learn_bare ix s).cusip_windows ≡ ix.cusip_windows)
unfolding learn_bare
learn_bare-kept ix s = elim (Bool-cases (text_eq (bare_ticker s) s)) [
  | inl same ↦ rw (same, learn_bare) (refl, refl)
  | inr other ↦ rw (other, learn_bare) (refl, refl)
]

learn_base-kept :
    (ix : Index) (s : Text)
    → ((learn_base ix s).seen ≡ ix.seen) × ((learn_base ix s).cusip_windows ≡ ix.cusip_windows)
unfolding learn_base
learn_base-kept ix s = elim (Option-cases (class_suffix s)) [
  | inl off ↦ rw (off, learn_base) (refl, refl)
  | inr (got, on) ↦ rw (on, learn_base) (refl, refl)
]

learn_all-kept :
    (ix : Index) (ss : List Text)
    → ((learn_all ix ss).seen ≡ ix.seen) × ((learn_all ix ss).cusip_windows ≡ ix.cusip_windows)
unfolding learn_all
learn_all-kept ix [] = (refl, refl)
learn_all-kept ix (s ∷ ss) =
    let one = learn_bare-kept ix s in
    let two = learn_base-kept (learn_bare ix s) s in
    let rest = learn_all-kept (learn_base (learn_bare ix s) s) ss in
    (rest.0 ∙ (two.0 ∙ one.0), rest.1 ∙ (two.1 ∙ one.1))

learn-kept :
    (ix : Index) (o : Option (List Text))
    → ((learn ix o).seen ≡ ix.seen) × ((learn ix o).cusip_windows ≡ ix.cusip_windows)
unfolding learn
learn-kept ix none = (refl, refl)
learn-kept ix (some ss) = learn_all-kept ix ss

add_all-windows :
    (rd : Readers) (ix : Index) (rs : List FtdRow)
    → (add_all rd ix rs).cusip_windows ≡ ix.cusip_windows
unfolding add_all add
add_all-windows rd ix [] = refl
add_all-windows rd ix (r ∷ rs) =
    let rest = add_all-windows rd (add rd ix r) rs in
    let new = relabel rd ix r in
    elim (Bool-cases (any (same_row new) ix.seen)) [
      | inl there ↦ rest ∙ rw (there, add) refl
      | inr absent ↦ rest ∙ rw (absent, add) refl
    ]

-- The windows of a scan, and what it keeps.
pub scan-windows :
    (rd : Readers) (src : FtdSource) (ix : Index) (lo hi : ℕ) (symbols cusips : Option (List Text))
    (k : Text)
    → (scan rd src ix lo hi symbols cusips).cusip_windows k ≡ mark ix.cusip_windows cusips lo hi k
unfolding scan
scan-windows rd src ix lo hi symbols cusips k =
    let rows =
      filter (λ r. leb lo r.date && leb r.date hi)
        (read_all src (src.urls_for lo hi) (wanted symbols) cusips) in
    ap (λ w. mark w cusips lo hi k)
      (add_all-windows rd (learn ix symbols) rows ∙ (learn-kept ix symbols).1)

pub scan-keeps :
    (rd : Readers) (src : FtdSource) (ix : Index) (lo hi : ℕ) (symbols cusips : Option (List Text))
    (s : FtdRow)
    → is_held s ix ≡ true
    → is_held s (scan rd src ix lo hi symbols cusips) ≡ true
unfolding scan
scan-keeps rd src ix lo hi symbols cusips s h =
    let rows =
      filter (λ r. leb lo r.date && leb r.date hi)
        (read_all src (src.urls_for lo hi) (wanted symbols) cusips) in
    let same = ap (λ (rs : List FtdRow). any (same_line s) rs) (learn-kept ix symbols).0 in
    add_all-keeps rd (learn ix symbols) rows s (same ∙ h)

pub scan-is_held :
    (rd : Readers) (src : FtdSource) (Holds : Text → FtdRow → Type 0) (ix : Index) (lo hi : ℕ)
    (symbols : Option (List Text)) (cusips : List Text) (u : Text) (r : FtdRow)
    → IsSource src Holds
    → Holds u r
    → lo ≤ r.date
    → r.date ≤ hi
    → is_among r.cusip cusips ≡ true
    → is_held r (scan rd src ix lo hi symbols (some cusips)) ≡ true
unfolding scan
scan-is_held rd src Holds ix lo hi symbols cusips u r source h low high wants =
    let files = src.urls_for lo hi in
    let all = read_all src files (wanted symbols) (some cusips) in
    let here =
      read_all-mem src u files (wanted symbols) (some cusips) r (source.0 u r lo hi h low high)
        (source.1 u r (wanted symbols) cusips h wants) in
    let within : (leb lo r.date && leb r.date hi) ≡ true = ground (arith, low, high) in
    add_all-is_held rd (learn ix symbols) (filter (λ x. leb lo x.date && leb x.date hi) all) r
      (mem-filter (λ x. leb lo x.date && leb x.date hi) all here within)
