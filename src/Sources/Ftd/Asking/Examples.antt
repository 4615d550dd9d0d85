-- ===== src/Sources/Ftd/Asking/Examples.antt =====
-- A file of two securities' rows at which the asks of the fails index are tested.
use delist_detection.Prelude.{
  ℕ, ◌≡◌, refl, Bool, true, false, ◌||◌, or_true, Option, none, some, List, [], ◌∷◌, Text, codes,
  is_among, filter, text_eq, arith, if◌then◌else◌,
}
use mathlib.Core.List.{Memᴰ}
use delist_detection.Vocabulary.Identifiers.{upper, bare_ticker, class_suffix}
use delist_detection.Sources.Ftd.{FtdRow}
use delist_detection.Sources.Ftd.Windows.{has}
use delist_detection.Sources.Ftd.Asking.{FtdSource, Readers, Index, learn, ask, relabel}
use delist_detection.Sources.Ftd.Asking.Holding.{IsSource, is_held, mem-filter}
use delist_detection.Sources.Ftd.Asking.Covering.{HoldsWindows, ask-HoldsWindows, ask-is_held}

abbrev row : ℕ → Text → Text → Text → FtdRow
row day cusip symbol name = record {
  date = day;
  cusip = cusip;
  symbol = symbol;
  description = name;
  price = none;
}

abbrev class_b : FtdRow
class_b = row 739070 (codes "C1") (codes "BFB") (codes "BROWN B")

abbrev later : FtdRow
later = row 739075 (codes "C1") (codes "BFB") (codes "BROWN B")

abbrev other : FtdRow
other = row 739071 (codes "C2") (codes "UAC") (codes "UNDER C")

abbrev file_rows : List FtdRow
file_rows = class_b ∷ other ∷ later ∷ []

read_for : Option (List Text) → Text → Bool
read_for none t = false
read_for (some ts) t = is_among t ts

abbrev source : FtdSource
source = record {
  urls_for = λ lo hi. codes "file" ∷ [];
  rows_in = λ u symbols cusips.
      filter (λ r. read_for symbols r.symbol || read_for cusips r.cusip) file_rows;
}

abbrev readers : Readers
readers = record { names_agree = text_eq; letter_of = λ a. some 67 }

abbrev fresh : Index
fresh = record {
  seen = [];
  symbol_windows = λ k. [];
  cusip_windows = λ k. [];
  aliases = λ k. none;
  names = λ k. if text_eq k (codes "BF-B") then codes "BROWN B" ∷ [] else [];
  bases = λ k. none;
  own_from = λ k. none;
}

abbrev Holds : Text → FtdRow → Type 0
Holds u r = (is_among u (codes "file" ∷ []) ≡ true) × Memᴰ r file_rows

source-IsSource : IsSource source Holds
unfolding read_for
source-IsSource = (
  λ u r lo hi h low high. h.0,
  λ u r symbols cusips h wants.
      mem-filter (λ x. read_for symbols x.symbol || is_among x.cusip cusips) file_rows h.1
        (rw wants (or_true (read_for symbols r.symbol))),
)

fresh-HoldsWindows : HoldsWindows Holds fresh
unfolding has
fresh-HoldsWindows u r h day = absurd (ground (arith, day))

abbrev learned : Index
learned = learn fresh (some (codes "BF-B" ∷ []))

-- A row under the bare spelling is keyed by the class ticker whose name it carries.
class_relabelled :
    relabel readers learned class_b ≡ row 739070 (codes "C1") (codes "BF-B") (codes "BROWN B")
unfolding relabel learn bare_ticker class_suffix
class_relabelled = refl

-- After an ask of the symbol, its row is keyed by the class ticker; one of the CUSIP adds the row it lacks.
abbrev asked : Index
asked = ask readers source fresh 739060 739072 (codes "c1" ∷ []) (codes "BF.B" ∷ [])

ask-HoldsWindows_example : HoldsWindows Holds asked
ask-HoldsWindows_example =
    ask-HoldsWindows readers source Holds fresh 739060 739072 (codes "c1" ∷ []) (codes "BF.B" ∷ [])
      source-IsSource fresh-HoldsWindows

ask-is_held_example :
    (is_held later (ask readers source asked 739065 739080 (codes "c1" ∷ []) []) ≡ true)
    × (has 739075
          ((ask readers source asked 739065 739080 (codes "c1" ∷ []) []).cusip_windows (codes "C1"))
        ≡ true)
unfolding upper
ask-is_held_example =
    ask-is_held readers source Holds asked 739065 739080 (codes "c1" ∷ []) [] (codes "file") later
      source-IsSource
      (ask-HoldsWindows readers source Holds fresh 739060 739072 (codes "c1" ∷ [])
        (codes "BF.B" ∷ []) source-IsSource fresh-HoldsWindows)
      (refl, Memᴰ.tail (Memᴰ.tail (Memᴰ.head refl))) refl (omega arith) (omega arith)
