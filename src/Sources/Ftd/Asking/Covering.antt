-- ===== src/Sources/Ftd/Asking/Covering.antt =====
-- What an ask of sources/ftd.py's FtdIndex covers: the windows of its CUSIPs, and their rows.
use delist_detection.Prelude.{
  ℕ, ◌≡◌, ◌≤◌, refl, sym, ◌∙◌, ap, Bool, true, false, not, ◌&&◌, ◌||◌, Option, none, some, List, [],
  ◌∷◌, Text, leb, text_eq, text_eq→eq, is_among, filter, map, inl, inr, ◌⊎◌, arith, Bool-cases,
  if◌then◌else◌,
}
use delist_detection.Vocabulary.Identifiers.{upper, normalize_ticker}
use delist_detection.Sources.Ftd.{FtdRow}
use delist_detection.Sources.Ftd.Windows.{Window, covered, merge, has}
use delist_detection.Sources.Ftd.Windows.Merging.{has-merge}
use delist_detection.Sources.Ftd.Windows.Coverage.{covered-has}
use delist_detection.Sources.Ftd.Asking.{
  FtdSource, Readers, Index, mark, scan, or_none, uncovered, ask_for, ask,
}
use delist_detection.Sources.Ftd.Asking.Holding.{is_held, IsSource}
use delist_detection.Sources.Ftd.Asking.Scanning.{scan-windows, scan-keeps, scan-is_held}

-- Every row of the files in a CUSIP's windows is held.
abbrev pub HoldsWindows : (Text → FtdRow → Type 0) → Index → Type 0
HoldsWindows Holds ix =
    (u : Text) (r : FtdRow)
    → Holds u r
    → has r.date (ix.cusip_windows r.cusip) ≡ true
    → is_held r ix ≡ true

-- A day of a marked key's windows is an old one's, or the key is read for it.
mark-has :
    (w : Text → List Window) (keys : Option (List Text)) (lo hi : ℕ) (k : Text) (d : ℕ)
    → has d (mark w keys lo hi k) ≡ true
    → (has d (w k) ≡ true)
      ⊎ ((ks : List Text) × (keys ≡ some ks) × (is_among k ks ≡ true) × (lo ≤ d) × (d ≤ hi))
unfolding mark
mark-has w none lo hi k d h = inl h
mark-has w (some ks) lo hi k d h = elim (Bool-cases (is_among k ks)) [
  | inr other ↦
      let same : mark w (some ks) lo hi k ≡ w k = rw (other, mark) refl in
      inl (sym (ap (λ ws. has d ws) same) ∙ h)
  | inl on ↦
      let same : mark w (some ks) lo hi k ≡ merge (w k) lo hi = rw (on, mark) refl in
      let both = sym (has-merge (w k) lo hi d) ∙ (sym (ap (λ ws. has d ws) same) ∙ h) in
      elim (Bool-cases (has d (w k))) [
        | inl old ↦ inl old
        | inr new ↦ inr (ks, refl, on, ground (arith, both, new), ground (arith, both, new))
      ]
]

scan-HoldsWindows :
    (rd : Readers) (src : FtdSource) (Holds : Text → FtdRow → Type 0) (ix : Index) (lo hi : ℕ)
    (symbols cusips : Option (List Text))
    → IsSource src Holds
    → HoldsWindows Holds ix
    → HoldsWindows Holds (scan rd src ix lo hi symbols cusips)
unfolding mark
scan-HoldsWindows rd src Holds ix lo hi symbols none source held u r h has_day =
    scan-keeps rd src ix lo hi symbols none r (
      held u r h (
        sym (ap (λ ws. has r.date ws) (scan-windows rd src ix lo hi symbols none r.cusip))
        ∙ has_day))
scan-HoldsWindows rd src Holds ix lo hi symbols (some cs) source held u r h has_day =
    let marked =
      sym (ap (λ ws. has r.date ws) (scan-windows rd src ix lo hi symbols (some cs) r.cusip))
      ∙ has_day in
    elim (mark-has ix.cusip_windows (some cs) lo hi r.cusip r.date marked) [
      | inl old ↦ scan-keeps rd src ix lo hi symbols (some cs) r (held u r h old)
      | inr (ks, same, on, low, high) ↦
          scan-is_held rd src Holds ix lo hi symbols cs u r source h low high
            (some_among r.cusip cs ks same on)
    ]
  where
    some_among :
        (k : Text) (cs ks : List Text)
        → Path (Option (List Text)) (some cs) (some ks)
        → is_among k ks ≡ true
        → is_among k cs ≡ true
    some_among k cs ks same on = let e : cs ≡ ks = cc in rw e on

ask_for-HoldsWindows :
    (rd : Readers) (src : FtdSource) (Holds : Text → FtdRow → Type 0) (ix : Index) (lo hi : ℕ)
    (symbols cusips : List Text)
    → IsSource src Holds
    → HoldsWindows Holds ix
    → HoldsWindows Holds (ask_for rd src ix lo hi symbols cusips)
unfolding ask_for
ask_for-HoldsWindows rd src Holds ix lo hi [] [] source held = held
ask_for-HoldsWindows rd src Holds ix lo hi [] (c ∷ cs) source held =
    scan-HoldsWindows rd src Holds ix lo hi (or_none []) (or_none (c ∷ cs)) source held
ask_for-HoldsWindows rd src Holds ix lo hi (s ∷ ss) cusips source held =
    scan-HoldsWindows rd src Holds ix lo hi (or_none (s ∷ ss)) (or_none cusips) source held

ask_for-windows :
    (rd : Readers) (src : FtdSource) (ix : Index) (lo hi : ℕ) (symbols cusips : List Text)
    (k : Text)
    → (ask_for rd src ix lo hi symbols cusips).cusip_windows k
      ≡ (if is_among k cusips then merge (ix.cusip_windows k) lo hi else ix.cusip_windows k)
unfolding ask_for or_none mark
ask_for-windows rd src ix lo hi [] [] k = refl
ask_for-windows rd src ix lo hi [] (c ∷ cs) k = scan-windows rd src ix lo hi none (some (c ∷ cs)) k
ask_for-windows rd src ix lo hi (s ∷ ss) [] k = scan-windows rd src ix lo hi (some (s ∷ ss)) none k
ask_for-windows rd src ix lo hi (s ∷ ss) (c ∷ cs) k =
    scan-windows rd src ix lo hi (some (s ∷ ss)) (some (c ∷ cs)) k

module _ (p : Text → Bool) where
  among-filter :
      (keys : List Text) (k : Text)
      → is_among k keys ≡ true
      → p k ≡ true
      → is_among k (filter p keys) ≡ true
  among-filter [] k h on = h
  among-filter (j ∷ js) k h on = elim (Bool-cases (text_eq k j)) [
    | inl here ↦
        let same : k ≡ j = text_eq→eq k j here in
        let kept : p j ≡ true = rw⁻¹ same on in rw (kept, here) refl
    | inr later ↦
        let rest = among-filter js k (rw later at h) on in
        elim (Bool-cases (p j)) [ inl kept ↦ rw (kept, later) rest | inr dropped ↦ rw dropped rest ]
  ]

among-uncovered :
    (w : Text → List Window) (lo hi : ℕ) (keys : List Text) (k : Text)
    → is_among k keys ≡ true
    → covered (w k) lo hi ≡ false
    → is_among k (uncovered w lo hi keys) ≡ true
unfolding uncovered
among-uncovered w lo hi keys k h open_ =
    let here : not (covered (w k) lo hi) ≡ true = ap not open_ in
    among-filter (λ j. not (covered (w j) lo hi)) keys k h here

-- The days of an ask are days of the windows of each CUSIP it names.
ask-has :
    (rd : Readers) (src : FtdSource) (ix : Index) (lo hi : ℕ) (cusips symbols : List Text)
    (k : Text) (d : ℕ)
    → is_among k (map upper cusips) ≡ true
    → lo ≤ d
    → d ≤ hi
    → has d ((ask rd src ix lo hi cusips symbols).cusip_windows k) ≡ true
unfolding ask
ask-has rd src ix lo hi cusips symbols k d named low high =
    let new_symbols = uncovered ix.symbol_windows lo hi (map normalize_ticker symbols) in
    let new_cusips = uncovered ix.cusip_windows lo hi (map upper cusips) in
    let ws = ix.cusip_windows k in
    let after = ap (λ v. has d v) (ask_for-windows rd src ix lo hi new_symbols new_cusips k) in
    let spanned : has d (merge ws lo hi) ≡ true =
      has-merge ws lo hi d ∙ in_span (has d ws) lo hi d low high in
    after ∙ elim (Bool-cases (covered ws lo hi)) [
      | inl old ↦
          either (is_among k new_cusips) (merge ws lo hi) ws d spanned
            (covered-has ws lo hi d old low high)
      | inr open_ ↦
          let new = among-uncovered ix.cusip_windows lo hi (map upper cusips) k named open_ in
          rw new spanned
    ]
  where
    in_span : (b : Bool) (lo hi d : ℕ) → lo ≤ d → d ≤ hi → (b || leb lo d && leb d hi) ≡ true
    in_span b lo hi d low high = ground (arith, low, high)

    either :
        (b : Bool) (v w : List Window) (d : ℕ)
        → has d v ≡ true
        → has d w ≡ true
        → has d (if b then v else w) ≡ true
    either true v w d h k = h
    either false v w d h k = k

-- Over a source that lists every file with a row of a span and gives every row of the CUSIPs it is read for, an
-- ask of any CUSIPs and symbols keeps the invariant that every row of the files dated within its CUSIP's windows
-- is held (under some symbol).
pub ask-HoldsWindows :
    (rd : Readers) (src : FtdSource) (Holds : Text → FtdRow → Type 0) (ix : Index) (lo hi : ℕ)
    (cusips symbols : List Text)
    → IsSource src Holds
    → HoldsWindows Holds ix
    → HoldsWindows Holds (ask rd src ix lo hi cusips symbols)
unfolding ask
ask-HoldsWindows rd src Holds ix lo hi cusips symbols source held =
    ask_for-HoldsWindows rd src Holds ix lo hi
      (uncovered ix.symbol_windows lo hi (map normalize_ticker symbols))
      (uncovered ix.cusip_windows lo hi (map upper cusips)) source held

-- Over a source that lists every file with a row of a span and gives every row of the CUSIPs it is read for,
-- and from an index that holds every row of the files dated within its CUSIP's windows: after an ask, every row
-- of the files whose CUSIP it names and whose day is within the asked span is held (under some symbol), whether
-- the ask read that CUSIP or an earlier window covered it, and its day is in the CUSIP's windows.
pub ask-is_held :
    (rd : Readers) (src : FtdSource) (Holds : Text → FtdRow → Type 0) (ix : Index) (lo hi : ℕ)
    (cusips symbols : List Text) (u : Text) (r : FtdRow)
    → IsSource src Holds
    → HoldsWindows Holds ix
    → Holds u r
    → is_among r.cusip (map upper cusips) ≡ true
    → lo ≤ r.date
    → r.date ≤ hi
    → (is_held r (ask rd src ix lo hi cusips symbols) ≡ true)
      × (has r.date ((ask rd src ix lo hi cusips symbols).cusip_windows r.cusip) ≡ true)
ask-is_held rd src Holds ix lo hi cusips symbols u r source held h named low high =
    let day = ask-has rd src ix lo hi cusips symbols r.cusip r.date named low high in
    (ask-HoldsWindows rd src Holds ix lo hi cusips symbols source held u r h day, day)
