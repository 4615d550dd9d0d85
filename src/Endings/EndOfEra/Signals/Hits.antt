-- ===== src/Endings/EndOfEra/Signals/Hits.antt =====
-- The first and the last filing of a list that answers yes to a question, and where they stand in a list
-- sorted by day.
use mathlib.Core.List.{Memᴰ}
use delist_detection.Prelude.{
  ℕ, ◌≤◌, ◌≡◌, refl, Bool, true, false, Option, none, some, List, [], ◌∷◌, inl, inr, arith, or_else,
  All, All-mem, All-map, IsSortedBy, Option-cases, if◌then◌else◌,
}
use delist_detection.Endings.EndOfEra.Signals.{Filed, Filing, filing_key}

-- A question about a filing and the day it was filed.
abbrev pub Test : Type 0
Test = Filing → ℕ → Bool

abbrev pub filed_as : Filing → ℕ → Filed
filed_as f d = record { form = f.form; day = d }

-- A filing that answers yes on its own day.
unfoldable pub hit : Test → Filing → Option Filed
hit test f = elim f.day [ none ↦ none | some d ↦ if test f d then some (filed_as f d) else none ]

unfoldable pub first_of : Test → List Filing → Option Filed
first_of test [] = none
first_of test (f ∷ fs) = or_else (hit test f) (first_of test fs)

unfoldable pub last_of : Test → List Filing → Option Filed
last_of test [] = none
last_of test (f ∷ fs) = or_else (last_of test fs) (hit test f)

-- `x` is a filing of the list that answers yes.
abbrev pub IsHit : Test → List Filing → Filed → Type 0
IsHit test fs x =
    (f : Filing) × Memᴰ f fs × (f.day ≡ some x.day) × (f.form ≡ x.form) × (test f x.day ≡ true)

abbrev pub NotBefore : Test → Filed → Filing → Type 0
NotBefore test x f = (d : ℕ) → f.day ≡ some d → test f d ≡ true → x.day ≤ d

abbrev pub NotAfter : Test → Filed → Filing → Type 0
NotAfter test x f = (d : ℕ) → f.day ≡ some d → test f d ≡ true → d ≤ x.day

abbrev pub Misses : Test → Filing → Type 0
Misses test f = (d : ℕ) → f.day ≡ some d → test f d ≡ false

pub hit-lem :
    (test : Test) (f : Filing) (x : Filed)
    → hit test f ≡ some x
    → (f.day ≡ some x.day) × (f.form ≡ x.form) × (test f x.day ≡ true)
unfolding hit
hit-lem test f x e = ground arith

hit-none : (test : Test) (f : Filing) → hit test f ≡ none → Misses test f
unfolding hit
hit-none test f e d h = ground arith

pub first_of-none :
    (test : Test) (fs : List Filing) → first_of test fs ≡ none → All (Misses test) fs
unfolding first_of
first_of-none test [] e = tt
first_of-none test (f ∷ fs) e =
    (hit-none test f (ground arith), first_of-none test fs (ground arith))

pub last_of-none : (test : Test) (fs : List Filing) → last_of test fs ≡ none → All (Misses test) fs
unfolding last_of
last_of-none test [] e = tt
last_of-none test (f ∷ fs) e = (hit-none test f (ground arith), last_of-none test fs (ground arith))

IsHit-cons :
    (test : Test) (f : Filing) (fs : List Filing) (x : Filed)
    → IsHit test fs x
    → IsHit test (f ∷ fs) x
IsHit-cons test f fs x (g, m, a, b, c) = (g, Memᴰ.tail m, a, b, c)

IsHit-head :
    (test : Test) (f : Filing) (fs : List Filing) (x : Filed)
    → hit test f ≡ some x
    → IsHit test (f ∷ fs) x
IsHit-head test f fs x e = let (a, b, c) = hit-lem test f x e in (f, Memᴰ.head refl, a, b, c)

pub first_of-IsHit :
    (test : Test) (fs : List Filing) (x : Filed) → first_of test fs ≡ some x → IsHit test fs x
unfolding first_of
first_of-IsHit test [] x e = absurd (ground arith)
first_of-IsHit test (f ∷ fs) x e = elim (Option-cases (hit test f)) [
  | inl miss ↦ IsHit-cons test f fs x (first_of-IsHit test fs x (ground arith))
  | inr (y, found) ↦ IsHit-head test f fs x (ground arith)
]

pub last_of-IsHit :
    (test : Test) (fs : List Filing) (x : Filed) → last_of test fs ≡ some x → IsHit test fs x
unfolding last_of
last_of-IsHit test [] x e = absurd (ground arith)
last_of-IsHit test (f ∷ fs) x e = elim (Option-cases (last_of test fs)) [
  | inl miss ↦ IsHit-head test f fs x (ground arith)
  | inr (y, found) ↦ IsHit-cons test f fs x (last_of-IsHit test fs x (ground arith))
]

-- Days in a list sorted by them.
key_of_day : (f : Filing) (d : ℕ) → f.day ≡ some d → filing_key f ≡ d
key_of_day f d e = ground arith

pub first_of-NotBefore :
    (test : Test) (fs : List Filing) (x : Filed)
    → IsSortedBy filing_key fs
    → first_of test fs ≡ some x
    → All (NotBefore test x) fs
unfolding first_of
first_of-NotBefore test [] x h e = tt
first_of-NotBefore test (f ∷ fs) x h e = elim (Option-cases (hit test f)) [
  | inl miss ↦ (
    (λ d a t. absurd (ground (arith, hit-none test f miss d a))),
    first_of-NotBefore test fs x h.1 (ground arith),
  )
  | inr (y, found) ↦
      let (a, b, c) = hit-lem test f x (ground arith) in
      (
        (λ d g t. ground arith),
        All-map (λ g. filing_key f ≤ filing_key g) (NotBefore test x)
            (λ g le d k t. omega (arith, key_of_day f x.day a, key_of_day g d k)) fs h.0,
      )
]

key_le_hit :
    (test : Test) (f : Filing) (fs : List Filing) (x : Filed)
    → All (λ g. filing_key f ≤ filing_key g) fs
    → IsHit test fs x
    → filing_key f ≤ x.day
key_le_hit test f fs x h (g, m, a, b, c) =
    omega (arith, All-mem (λ g. filing_key f ≤ filing_key g) fs h m, key_of_day g x.day a)

pub last_of-NotAfter :
    (test : Test) (fs : List Filing) (x : Filed)
    → IsSortedBy filing_key fs
    → last_of test fs ≡ some x
    → All (NotAfter test x) fs
unfolding last_of
last_of-NotAfter test [] x h e = tt
last_of-NotAfter test (f ∷ fs) x h e = elim (Option-cases (last_of test fs)) [
  | inl miss ↦
      let (a, b, c) = hit-lem test f x (ground arith) in
      (
        (λ d g t. ground arith),
        All-map (Misses test) (NotAfter test x)
            (λ g none_there d k t. absurd (ground (arith, none_there d k))) fs
            (last_of-none test fs miss),
      )
  | inr (y, found) ↦
      let e' : last_of test fs ≡ some x = ground arith in
      (
        (λ d k t.
            omega
              (arith, key_of_day f d k, key_le_hit test f fs x h.0 (last_of-IsHit test fs x e'))),
        last_of-NotAfter test fs x h.1 e',
      )
]
