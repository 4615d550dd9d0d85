-- ===== src/Sources/Ftd/Windows.antt =====
-- `_covered` and `_merge` of sources/ftd.py's FtdIndex: the spans of days a key was asked for.
pub mod Merging
pub mod Coverage
mod Examples
use delist_detection.Prelude.{
  ℕ, ◌+◌, ◌≤◌, ◌<◌, Bool, true, false, ◌&&◌, ◌||◌, List, [], ◌∷◌, ◌++◌, ltb, leb, ◌==◌, any, max,
  sort_with, if◌then◌else◌,
}

pub record Window : Type 0 where
  pub lo : ℕ
  pub hi : ℕ

-- `_covered`: one window spans all of `[lo, hi]`.
pub covered : List Window → ℕ → ℕ → Bool
covered ws lo hi = any (λ w. leb w.lo lo && leb hi w.hi) ws

-- The order of `(a, b)`.
before : Window → Window → Bool
before v w = ltb v.lo w.lo || (v.lo == w.lo) && leb v.hi w.hi

joined : Window → Window → Window
joined v w = record { lo = v.lo; hi = max v.hi w.hi }

-- The windows from the last merged one on.
merged : Window → List Window → List Window
unfolding joined
merged w [] = w ∷ []
merged w (v ∷ vs) = elim (leb v.lo (w.hi + 1)) [
  | true ↦ merged (joined w v) vs
  | false ↦ w ∷ merged v vs
]

collapsed : List Window → List Window
unfolding merged
collapsed [] = []
collapsed (w ∷ ws) = merged w ws

-- `_merge`: any overlapping or adjacent windows become one.
pub merge : List Window → ℕ → ℕ → List Window
unfolding before collapsed
merge ws lo hi = collapsed (sort_with before (ws ++ record { lo = lo; hi = hi } ∷ []))

-- A day is of one of the windows.
unfoldable pub has : ℕ → List Window → Bool
has d ws = any (λ w. leb w.lo d && leb d w.hi) ws

inside : ℕ → Window → Bool
inside d w = leb w.lo d && leb d w.hi

-- Windows in order, each of a day at least, with a day at least between any two.
abbrev pub IsMerged : List Window → Type 0
IsMerged [] = Unit
IsMerged (w ∷ []) = w.lo ≤ w.hi
IsMerged (w ∷ v ∷ vs) = (w.lo ≤ w.hi) × (w.hi + 1 < v.lo) × IsMerged (v ∷ vs)
