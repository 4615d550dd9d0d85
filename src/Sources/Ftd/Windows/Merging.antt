-- ===== src/Sources/Ftd/Windows/Merging.antt =====
-- The days of the windows that `_merge` of sources/ftd.py gives.
use delist_detection.Prelude.{
  ℕ, ◌+◌, ◌≤◌, ◌<◌, ◌≡◌, refl, sym, ◌∙◌, ap, Bool, true, false, ◌&&◌, ◌||◌, List, [], ◌∷◌, ◌++◌,
  inl, inr, arith, leb, any, sort_with, All-sort_with, All-append, insert_with, All, IsSortedBy,
  sort_with-IsSortedBy, Bool-cases,
}
use delist_detection.Sources.Ftd.Windows.{
  Window, before, joined, merged, collapsed, merge, has, inside, IsMerged,
}

merged-join :
    (w v : Window) (vs : List Window)
    → leb v.lo (w.hi + 1) ≡ true
    → merged w (v ∷ vs) ≡ merged (joined w v) vs
unfolding merged
merged-join w v vs h = rw (h, merged)

merged-gap :
    (w v : Window) (vs : List Window)
    → leb v.lo (w.hi + 1) ≡ false
    → merged w (v ∷ vs) ≡ w ∷ merged v vs
unfolding merged
merged-gap w v vs h = rw (h, merged)

inside-joined :
    (d : ℕ) (w v : Window)
    → w.lo ≤ v.lo
    → leb v.lo (w.hi + 1) ≡ true
    → inside d (joined w v) ≡ (inside d w || inside d v)
unfolding inside joined
inside-joined d w v below near = ground arith

or_assoc : (a b c : Bool) → (a || (b || c)) ≡ ((a || b) || c)
or_assoc true b c = refl
or_assoc false b c = refl

merged-has :
    (d : ℕ) (w : Window) (vs : List Window)
    → All (λ v. w.lo ≤ v.lo) vs
    → IsSortedBy (λ v. v.lo) vs
    → has d (merged w vs) ≡ (inside d w || has d vs)
unfolding has inside merged
merged-has d w [] low sorted = refl
merged-has d w (v ∷ vs) low sorted = elim (Bool-cases (leb v.lo (w.hi + 1))) [
  | inl near ↦
      ap (has d) (merged-join w v vs near)
      ∙ merged-has d (joined w v) vs low.1 sorted.1
      ∙ ap (λ (b : Bool). b || has d vs) (inside-joined d w v low.0 near)
      ∙ sym (or_assoc (inside d w) (inside d v) (has d vs))
  | inr far ↦
      ap (has d) (merged-gap w v vs far)
      ∙ ap (λ (b : Bool). inside d w || b) (merged-has d v vs sorted.0 sorted.1)
]

or_swap : (a b c : Bool) → (a || (b || c)) ≡ (b || (a || c))
or_swap true true c = refl
or_swap true false c = refl
or_swap false b c = refl

any-insert_with :
    (p : Window → Bool) (w : Window) (ws : List Window)
    → any p (insert_with before w ws) ≡ (p w || any p ws)
any-insert_with p w [] = refl
any-insert_with p w (v ∷ vs) = elim (Bool-cases (before w v)) [
  | inl le ↦ rw le refl
  | inr gt ↦
      rw gt (ap (λ (b : Bool). p v || b) (any-insert_with p w vs) ∙ or_swap (p v) (p w) (any p vs))
]

any-sort_with : (p : Window → Bool) (ws : List Window) → any p (sort_with before ws) ≡ any p ws
any-sort_with p [] = refl
any-sort_with p (w ∷ ws) =
    any-insert_with p w (sort_with before ws) ∙ ap (λ (b : Bool). p w || b) (any-sort_with p ws)

any-last :
    (p : Window → Bool) (ws : List Window) (w : Window) → any p (ws ++ w ∷ []) ≡ (any p ws || p w)
any-last p [] w = ground arith
any-last p (v ∷ vs) w =
    ap (λ (b : Bool). p v || b) (any-last p vs w) ∙ or_assoc (p v) (any p vs) (p w)

before_le : (v w : Window) → before v w ≡ true → v.lo ≤ w.lo
unfolding before
before_le v w h = ground arith

not_before_le : (v w : Window) → before v w ≡ false → w.lo ≤ v.lo
unfolding before
not_before_le v w h = ground arith

sorted : (ws : List Window) → IsSortedBy (λ w. w.lo) (sort_with before ws)
sorted ws = sort_with-IsSortedBy before (λ w. w.lo) before_le not_before_le ws

has-collapsed :
    (d : ℕ) (ws : List Window) → IsSortedBy (λ w. w.lo) ws → has d (collapsed ws) ≡ has d ws
unfolding collapsed has inside
has-collapsed d [] h = refl
has-collapsed d (w ∷ ws) h = merged-has d w ws h.0 h.1

-- Merging a span in keeps exactly the days of the windows and those of the span, whatever windows there were.
pub has-merge :
    (ws : List Window) (lo hi d : ℕ) → has d (merge ws lo hi) ≡ (has d ws || leb lo d && leb d hi)
unfolding merge has
has-merge ws lo hi d =
    let span : Window = record { lo = lo; hi = hi } in
    has-collapsed d (sort_with before (ws ++ span ∷ [])) (sorted (ws ++ span ∷ []))
    ∙ any-sort_with (λ w. leb w.lo d && leb d w.hi) (ws ++ span ∷ [])
    ∙ any-last (λ w. leb w.lo d && leb d w.hi) ws span

-- Windows that begin at `lo`, merged.
abbrev IsMergedFrom : ℕ → List Window → Type 0
IsMergedFrom lo [] = ⊥
IsMergedFrom lo (w ∷ ws) = (w.lo ≡ lo) × IsMerged (w ∷ ws)

cons-IsMerged :
    (w : Window) (lo : ℕ) (vs : List Window)
    → w.lo ≤ w.hi
    → w.hi + 1 < lo
    → IsMergedFrom lo vs
    → IsMerged (w ∷ vs)
cons-IsMerged w lo [] proper far h = absurd h
cons-IsMerged w lo (v ∷ vs) proper far h = let e = h.0 in (proper, omega (arith, far, e), h.1)

joined_proper : (w v : Window) → w.lo ≤ w.hi → (joined w v).lo ≤ (joined w v).hi
unfolding joined
joined_proper w v h = ground (arith, h)

merged-IsMergedFrom :
    (w : Window) (vs : List Window)
    → w.lo ≤ w.hi
    → All (λ v. v.lo ≤ v.hi) vs
    → IsMergedFrom w.lo (merged w vs)
unfolding merged joined
merged-IsMergedFrom w [] proper h = (refl, proper)
merged-IsMergedFrom w (v ∷ vs) proper h = elim (Bool-cases (leb v.lo (w.hi + 1))) [
  | inl near ↦
      rw (merged-join w v vs near)
        (merged-IsMergedFrom (joined w v) vs (joined_proper w v proper) h.1)
  | inr far ↦ rw (merged-gap w v vs far) (
    refl,
    cons-IsMerged w v.lo (merged v vs) proper (ground arith) (merged-IsMergedFrom v vs h.0 h.1),
  )
]

from-IsMerged : (lo : ℕ) (ws : List Window) → IsMergedFrom lo ws → IsMerged ws
from-IsMerged lo [] h = absurd h
from-IsMerged lo (w ∷ ws) h = h.1

collapsed-IsMerged : (ws : List Window) → All (λ v. v.lo ≤ v.hi) ws → IsMerged (collapsed ws)
unfolding collapsed
collapsed-IsMerged [] h = tt
collapsed-IsMerged (w ∷ ws) h = from-IsMerged w.lo (merged w ws) (merged-IsMergedFrom w ws h.0 h.1)

proper_of : (ws : List Window) → IsMerged ws → All (λ v. v.lo ≤ v.hi) ws
proper_of [] h = tt
proper_of (w ∷ []) h = (h, tt)
proper_of (w ∷ v ∷ vs) h = (h.0, proper_of (v ∷ vs) h.2)

-- Merging a span of a day or more into merged windows leaves them merged.
pub merge-IsMerged :
    (ws : List Window) (lo hi : ℕ) → IsMerged ws → lo ≤ hi → IsMerged (merge ws lo hi)
unfolding merge
merge-IsMerged ws lo hi h proper =
    let span : Window = record { lo = lo; hi = hi } in
    collapsed-IsMerged (sort_with before (ws ++ span ∷ [])) (
      All-sort_with before (λ v. v.lo ≤ v.hi) (ws ++ span ∷ [])
        (All-append (λ v. v.lo ≤ v.hi) ws (span ∷ []) (proper_of ws h) (proper, tt)))
