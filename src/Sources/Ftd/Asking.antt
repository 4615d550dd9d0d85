-- ===== src/Sources/Ftd/Asking.antt =====
-- How FtdIndex of sources/ftd.py fills: what it learns of the asked tickers' spellings, the label of a row
-- (_relabel), what a scan adds, and which keys an ask reads. A set of keys is a list read by membership.
-- The rows held are kept in the order they were added.
pub mod Holding
pub mod Scanning
pub mod Covering
mod Examples
use delist_detection.Prelude.{
  ℕ, Bool, true, false, not, ◌&&◌, ◌||◌, Option, none, some, List, [], ◌∷◌, ◌++◌, Text, leb, ◌==◌,
  text_eq, is_among, any, filter, map, if◌then◌else◌,
}
use delist_detection.Vocabulary.Identifiers.{upper, normalize_ticker, bare_ticker, class_suffix}
use delist_detection.Sources.Ftd.{FtdRow, same_price}
use delist_detection.Sources.Ftd.Windows.{Window, covered, merge}

-- `FtdSource`: the files whose period meets a span, and a file's rows of the symbols or the CUSIPs.
pub record FtdSource : Type 0 where
  pub urls_for : ℕ → ℕ → List Text
  pub rows_in : Text → Option (List Text) → Option (List Text) → List FtdRow

-- `names_agree` of vocabulary/names.py and `description_class_letter` of vocabulary/identifiers.py.
pub record Readers : Type 0 where
  pub names_agree : Text → Text → Bool
  pub letter_of : Text → Option ℕ

-- What the index remembers. A missing alias or base is `none`, one that two tickers share `some none`.
pub record Index : Type 0 where
  pub seen : List FtdRow
  pub symbol_windows : Text → List Window
  pub cusip_windows : Text → List Window
  pub aliases : Text → Option (Option Text)
  pub names : Text → List Text
  pub bases : Text → Option (Option (Text × ℕ))
  pub own_from : Text → Option ℕ

-- `m[key] = value`
set_at {ℓ} : {A : Type ℓ} → (Text → A) → Text → A → Text → A
set_at m key value k = if text_eq k key then value else m k

-- `m[key] = got if m.get(key, got) == got else None`
shared {ℓ} : {A : Type ℓ} → (A → A → Bool) → Option (Option A) → A → Option A
shared same none got = some got
shared same (some none) got = none
shared same (some (some old)) got = if same old got then some got else none

same_base : Text × ℕ → Text × ℕ → Bool
same_base b c = text_eq b.0 c.0 && b.1 == c.1

-- The spelling without separators of a ticker that has one.
learn_bare : Index → Text → Index
unfolding set_at shared
learn_bare ix s =
    let bare = bare_ticker s in
    if text_eq bare s
    then ix
    else record ix { aliases = set_at ix.aliases bare (some (shared text_eq (ix.aliases bare) s)) }

learn_base : Index → Text → Index
unfolding set_at shared same_base
learn_base ix s = elim (class_suffix s) [
  | none ↦ ix
  | some got ↦ record ix {
    bases = set_at ix.bases got.0 (some (shared same_base (ix.bases got.0) (s, got.1)));
  }
]

-- The symbols that a file is read for, and what is learned of them.
wanted_of : List Text → List Text
wanted_of [] = []
wanted_of (s ∷ ss) =
    s
    ∷ bare_ticker s
    ∷ (elim (class_suffix s) [ none ↦ [] | some got ↦ got.0 ∷ [] ] ++ wanted_of ss)

learn_all : Index → List Text → Index
unfolding learn_bare learn_base
learn_all ix [] = ix
learn_all ix (s ∷ ss) = learn_all (learn_base (learn_bare ix s) s) ss

-- `_learn` for the symbols of a scan.
pub learn : Index → Option (List Text) → Index
unfolding learn_all
learn ix none = ix
learn ix (some symbols) = learn_all ix symbols

pub wanted : Option (List Text) → Option (List Text)
unfolding wanted_of
wanted none = none
wanted (some symbols) = some (wanted_of symbols)

agrees : Readers → List Text → FtdRow → Bool
agrees rd ns r = any (λ n. rd.names_agree r.description n) ns

-- `names` is empty where none are known.
is_empty : List Text → Bool
is_empty [] = true
is_empty (n ∷ ns) = false

same_letter : Option ℕ → ℕ → Bool
same_letter none letter = false
same_letter (some c) letter = c == letter

-- `r.date >= self._own_from.get(r.symbol, "~")`
is_own_day : Option ℕ → ℕ → Bool
is_own_day none day = false
is_own_day (some first) day = leb first day

-- The class ticker that a row is keyed by, where it is not its own symbol.
label_base : Readers → Index → FtdRow → Option Text
unfolding agrees is_empty same_letter is_own_day
label_base rd ix r = elim (ix.bases r.symbol) [
  | some (some (canon, letter)) ↦
      if is_empty (ix.names canon)
        || not (same_letter (rd.letter_of r.description) letter)
        || not (agrees rd (ix.names canon) r)
        || is_own_day (ix.own_from r.symbol) r.date
      then none
      else some canon
  | _ ↦ none
]

label : Readers → Index → FtdRow → Option Text
unfolding label_base agrees is_empty
label rd ix r = elim (ix.aliases r.symbol) [
  | some (some canon) ↦
      if not (is_empty (ix.names canon)) && not (agrees rd (ix.names canon) r)
      then none
      else some canon
  | _ ↦ label_base rd ix r
]

-- `replace(r, symbol=canon)`
relabelled : FtdRow → Option Text → FtdRow
relabelled r none = r
relabelled r (some canon) = record r { symbol = canon }

pub relabel : Readers → Index → FtdRow → FtdRow
unfolding label relabelled
relabel rd ix r = relabelled r (label rd ix r)

-- Two rows but for their symbols, and two rows.
pub same_line : FtdRow → FtdRow → Bool
same_line r s =
    (r.date == s.date)
    && text_eq r.cusip s.cusip
    && text_eq r.description s.description
    && same_price r.price s.price

pub same_row : FtdRow → FtdRow → Bool
unfolding same_line
same_row r s = same_line r s && text_eq r.symbol s.symbol

-- `_add`: a row already held is not added again.
pub add : Readers → Index → FtdRow → Index
add rd ix r =
    let new = relabel rd ix r in
    if any (same_row new) ix.seen then ix else record ix { seen = ix.seen ++ new ∷ [] }

pub add_all : Readers → Index → List FtdRow → Index
unfolding add
add_all rd ix [] = ix
add_all rd ix (r ∷ rs) = add_all rd (add rd ix r) rs

-- The rows of the files.
pub read_all : FtdSource → List Text → Option (List Text) → Option (List Text) → List FtdRow
read_all src [] symbols cusips = []
read_all src (u ∷ us) symbols cusips =
    src.rows_in u symbols cusips ++ read_all src us symbols cusips

-- `windows[k] = self._merge(windows.get(k, []), lo, hi)` of every key.
pub mark : (Text → List Window) → Option (List Text) → ℕ → ℕ → Text → List Window
mark windows none lo hi k = windows k
mark windows (some keys) lo hi k = if is_among k keys then merge (windows k) lo hi else windows k

pub scan : Readers → FtdSource → Index → ℕ → ℕ → Option (List Text) → Option (List Text) → Index
scan rd src ix lo hi symbols cusips =
    let rows =
      filter (λ r. leb lo r.date && leb r.date hi)
        (read_all src (src.urls_for lo hi) (wanted symbols) cusips) in
    let filled = add_all rd (learn ix symbols) rows in
    record filled {
      symbol_windows = mark filled.symbol_windows symbols lo hi;
      cusip_windows = mark filled.cusip_windows cusips lo hi;
    }

-- `new or None`
or_none : List Text → Option (List Text)
or_none [] = none
or_none (k ∷ ks) = some (k ∷ ks)

-- The keys that no window covers.
pub uncovered : (Text → List Window) → ℕ → ℕ → List Text → List Text
uncovered windows lo hi keys = filter (λ k. not (covered (windows k) lo hi)) keys

ask_for : Readers → FtdSource → Index → ℕ → ℕ → List Text → List Text → Index
unfolding scan or_none
ask_for rd src ix lo hi [] [] = ix
ask_for rd src ix lo hi symbols cusips = scan rd src ix lo hi (or_none symbols) (or_none cusips)

-- `_ask` of an index that has a source.
pub ask : Readers → FtdSource → Index → ℕ → ℕ → List Text → List Text → Index
unfolding ask_for uncovered
ask rd src ix lo hi cusips symbols =
    ask_for rd src ix lo hi (uncovered ix.symbol_windows lo hi (map normalize_ticker symbols))
      (uncovered ix.cusip_windows lo hi (map upper cusips))
