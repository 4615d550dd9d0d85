-- ===== src/Sources/Ftd/Windows/Coverage.antt =====
-- `_covered` of sources/ftd.py over merged windows.
use delist_detection.Prelude.{
  ℕ, ◌+◌, ◌≤◌, ◌<◌, ◌≡◌, ◌∙◌, Bool, true, false, ◌&&◌, refl, not, ◌||◌, List, [], ◌∷◌, inl, inr,
  arith, leb, leb→le, or_true, Bool-cases,
}
use delist_detection.Sources.Ftd.Windows.{Window, merge, has, inside, IsMerged, covered}
use delist_detection.Sources.Ftd.Windows.Merging.{has-merge, merge-IsMerged}

-- A day that a later window has is at least a day behind the first one's end.
first_ends :
    (w : Window) (ws : List Window) (d : ℕ) → IsMerged (w ∷ ws) → has d ws ≡ true → w.hi + 1 < d
unfolding has
first_ends w [] d h k = absurd (ground arith)
first_ends w (v ∷ vs) d h k =
    let far = h.1 in
    elim (Bool-cases (leb v.lo d && leb d v.hi)) [
      | inl here ↦ ground (arith, here, far)
      | inr there ↦
          let after = first_ends v vs d h.2 (rw there at k) in
          let proper = proper_first v vs h.2 in omega (arith, far, after, proper)
    ]
  where
    proper_first : (v : Window) (vs : List Window) → IsMerged (v ∷ vs) → v.lo ≤ v.hi
    proper_first v [] h = h
    proper_first v (u ∷ vs) h = h.0

IsMerged-tail : (w : Window) (ws : List Window) → IsMerged (w ∷ ws) → IsMerged ws
IsMerged-tail w [] h = tt
IsMerged-tail w (v ∷ vs) h = h.2

has-tail :
    (d : ℕ) (w : Window) (ws : List Window)
    → inside d w ≡ false
    → has d (w ∷ ws) ≡ true
    → has d ws ≡ true
unfolding has inside
has-tail d w ws out h = rw out at h

covered-first :
    (w : Window) (ws : List Window) (lo hi : ℕ)
    → w.lo ≤ lo
    → hi ≤ w.hi
    → covered (w ∷ ws) lo hi ≡ true
unfolding covered
covered-first w ws lo hi h k = ground (arith, h, k)

covered-rest :
    (w : Window) (ws : List Window) (lo hi : ℕ)
    → covered ws lo hi ≡ true
    → covered (w ∷ ws) lo hi ≡ true
unfolding covered
covered-rest w ws lo hi h = rw h (or_true (leb w.lo lo && leb hi w.hi))

inside_of : (d : ℕ) (w : Window) → inside d w ≡ true → (w.lo ≤ d) × (d ≤ w.hi)
unfolding inside
inside_of d w h = (ground arith, ground arith)

outside_above : (d : ℕ) (w : Window) → w.hi < d → inside d w ≡ false
unfolding inside
outside_above d w h = ground (arith, h)

none_has : (d : ℕ) → has d [] ≡ true → ⊥
unfolding has
none_has d k = ground arith

-- Merged windows that have every day of a span have it in one window, so `covered` finds it.
pub covered_complete :
    (ws : List Window) (lo hi : ℕ)
    → IsMerged ws
    → lo ≤ hi
    → ((d : ℕ) → lo ≤ d → d ≤ hi → has d ws ≡ true)
    → covered ws lo hi ≡ true
covered_complete [] lo hi h le days = absurd (none_has lo (days lo (omega arith) le))
covered_complete (w ∷ ws) lo hi h le days = elim (Bool-cases (inside lo w)) [
  | inl within ↦
      let (from, by) = inside_of lo w within in
      elim (Bool-cases (leb hi w.hi)) [
        | inl all ↦ covered-first w ws lo hi from (leb→le _ _ all)
        | inr past ↦
            let next : has (w.hi + 1) ws ≡ true =
              has-tail (w.hi + 1) w ws (outside_above (w.hi + 1) w (omega arith))
                (days (w.hi + 1) (omega (arith, by)) (ground (arith, past))) in
            let after = first_ends w ws (w.hi + 1) h next in absurd (omega (arith, after))
      ]
  | inr out ↦
      let after = first_ends w ws lo h (has-tail lo w ws out (days lo (omega arith) le)) in
      covered-rest w ws lo hi (
        covered_complete ws lo hi (IsMerged-tail w ws h) le (λ d from by.
          has-tail d w ws (outside_above d w (omega (arith, after, from))) (days d from by)))
]

-- Every day of a covered span is in some window.
pub covered-has :
    (ws : List Window) (lo hi d : ℕ) → covered ws lo hi ≡ true → lo ≤ d → d ≤ hi → has d ws ≡ true
unfolding covered has
covered-has [] lo hi d h from by = absurd (ground arith)
covered-has (w ∷ ws) lo hi d h from by = elim (Bool-cases (leb w.lo lo && leb hi w.hi)) [
  | inl here ↦ ground (arith, here, from, by)
  | inr there ↦
      rw (covered-has ws lo hi d (rw there at h) from by) (or_true (leb w.lo d && leb d w.hi))
]

has_span : (b : Bool) (lo hi d : ℕ) → lo ≤ d → d ≤ hi → (b || leb lo d && leb d hi) ≡ true
has_span b lo hi d from by = ground (arith, from, by)

has_kept : (b : Bool) (lo hi d : ℕ) → b ≡ true → (b || leb lo d && leb d hi) ≡ true
has_kept b lo hi d h = ground (arith, h)

-- Of merged windows and spans that do not end before they begin: once a span has been asked for it is covered,
-- also where no window was there before, and any span that was covered before still is, so neither is asked
-- for again.
pub covered-merge :
    (ws : List Window) (lo hi a b : ℕ)
    → IsMerged ws
    → lo ≤ hi
    → a ≤ b
    → (covered (merge ws lo hi) lo hi ≡ true)
      × ((not (covered ws a b) || covered (merge ws lo hi) a b) ≡ true)
covered-merge ws lo hi a b h le ordered =
    let kept = merge-IsMerged ws lo hi h le in
    (
      covered_complete (merge ws lo hi) lo hi kept le
          (λ d from by. has-merge ws lo hi d ∙ has_span (has d ws) lo hi d from by),
      elim (Bool-cases (covered ws a b)) [
        | inr off ↦ rw off refl
        | inl k ↦
            let still : covered (merge ws lo hi) a b ≡ true =
              covered_complete (merge ws lo hi) a b kept ordered (λ d from by.
                has-merge ws lo hi d
                ∙ has_kept (has d ws) lo hi d (covered-has ws a b d k from by)) in
            rw still (or_true (not (covered ws a b)))
      ],
    )
