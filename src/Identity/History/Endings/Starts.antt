-- ===== src/Identity/History/Endings/Starts.antt =====
-- The days from which tickers are a successor's, as one is set.

use delist_detection.Prelude.{
  ℕ, ◌≡◌, refl, sym, ◌∙◌, ap, Bool, true, false, Option, none, some, [], ◌∷◌, Text, text_eq,
  text_eq→eq, ltb, arith, inl, inr, Bool-cases, if◌then◌else◌,
}
use delist_detection.Identity.History.Endings.{Starts, start_on, before_start, set_start}

set_start-here :
    (s : Text × ℕ) (mine : Starts) (t : Text) (day : ℕ)
    → text_eq s.0 t ≡ true
    → set_start (s ∷ mine) t day ≡ (t, day) ∷ mine
unfolding set_start
set_start-here s mine t day h = rw (h, set_start) refl

set_start-there :
    (s : Text × ℕ) (mine : Starts) (t : Text) (day : ℕ)
    → text_eq s.0 t ≡ false
    → set_start (s ∷ mine) t day ≡ s ∷ set_start mine t day
unfolding set_start
set_start-there s mine t day h = rw (h, set_start) refl

start_on-cons :
    (s : Text × ℕ) (mine : Starts) (v : Text)
    → start_on (s ∷ mine) v ≡ (if text_eq s.0 v then some s.1 else start_on mine v)
unfolding start_on
start_on-cons s mine v = refl

start_on-nil : (v : Text) → start_on [] v ≡ none
unfolding start_on
start_on-nil v = refl

twice : (b : Bool) (x y z : Option ℕ) → (if b then x else z) ≡ (if b then x else if b then y else z)
twice true x y z = refl
twice false x y z = refl

text_eq_trans : (s t v : Text) → text_eq s v ≡ true → text_eq t v ≡ true → text_eq s t ≡ true
text_eq_trans s t v h k = ap (text_eq s) (text_eq→eq t v k) ∙ h

apart :
    (s t v : Text) (x y z : Option ℕ)
    → text_eq s t ≡ false
    → (if text_eq s v then y else if text_eq t v then x else z)
      ≡ (if text_eq t v then x else if text_eq s v then y else z)
apart s t v x y z h = elim (Bool-cases (text_eq t v)) [
  | inl on ↦ elim (Bool-cases (text_eq s v)) [
    | inl both ↦ let e = text_eq_trans s t v both on in absurd (ground (arith, e, h))
    | inr off ↦ rw (on, off) refl
  ]
  | inr off ↦ rw off refl
]

-- A ticker's start after one is set.
start_on-set_start :
    (mine : Starts) (t v : Text) (day : ℕ)
    → start_on (set_start mine t day) v ≡ (if text_eq t v then some day else start_on mine v)
unfolding start_on set_start
start_on-set_start [] t v day = refl
start_on-set_start (s ∷ mine) t v day = elim (Bool-cases (text_eq s.0 t)) [
  | inl here ↦
      ap (λ (m : Starts). start_on m v) (set_start-here s mine t day here)
      ∙ twice (text_eq t v) (some day) (some s.1) (start_on mine v)
      ∙ ap
          (λ (u : Text).
            if text_eq t v then some day else if text_eq u v then some s.1 else start_on mine v)
          (sym (text_eq→eq s.0 t here))
  | inr there ↦
      ap (λ (m : Starts). start_on m v) (set_start-there s mine t day there)
      ∙ ap (λ (o : Option ℕ). if text_eq s.0 v then some s.1 else o)
          (start_on-set_start mine t v day)
      ∙ apart s.0 t v (some day) (some s.1) (start_on mine v) there
]

pub before_start-set_start :
    (mine : Starts) (t v : Text) (day d : ℕ)
    → before_start (set_start mine t day) v d
      ≡ (if text_eq t v then ltb d day else before_start mine v d)
unfolding before_start
before_start-set_start mine t v day d =
    ap (λ (o : Option ℕ). elim o [ none ↦ true | some start ↦ ltb d start ])
      (start_on-set_start mine t v day)
    ∙ pushed (text_eq t v)
  where
    pushed :
        (b : Bool)
        → (elim (if b then some day else start_on mine v) [
          | none ↦ true
          | some start ↦ ltb d start
        ])
          ≡ (if b
              then ltb d day
              else elim (start_on mine v) [ none ↦ true | some start ↦ ltb d start ])
    pushed true = refl
    pushed false = refl

-- A day that is not before a start, and a day before it: the one is no later than the other.
pub between :
    (mine : Starts) (v : Text) (day d : ℕ)
    → before_start mine v day ≡ true
    → before_start mine v d ≡ false
    → ltb d day ≡ false
unfolding before_start
between mine v day d h k = between_by (start_on mine v) h k
  where
    between_by :
        (o : Option ℕ)
        → (elim o [ none ↦ true | some start ↦ ltb day start ]) ≡ true
        → (elim o [ none ↦ true | some start ↦ ltb d start ]) ≡ false
        → ltb d day ≡ false
    between_by none h k = cc
    between_by (some start) h k = ground (arith, h, k)
