-- ===== src/Prelude/Orders.antt =====
-- Python's `sorted`: a stable insertion sort, by an order or by a numeric key.
use Prim.Native.Nat.{ℕ, ◌≤◌}
use mathlib.Core.Path.{◌≡◌, sym}
use mathlib.Core.Logic.{◌≢◌, inl, inr}
use mathlib.Core.Bool.{Bool, true, false}
use mathlib.Core.List.{List, [], ◌∷◌}
use native.Mathlib.Omega.{arith}
use delist_detection.Prelude.Tests.{leb, if◌then◌else◌, leb→le, Bool-cases}
use delist_detection.Prelude.Lists.{All, All-map}

module _ {ℓ} {A : Type ℓ} (before : A → A → Bool) where
  abbrev pub insert_with : A → List A → List A
  insert_with x [] = x ∷ []
  insert_with x (y ∷ ys) = if before x y then x ∷ y ∷ ys else y ∷ insert_with x ys

  abbrev pub sort_with : List A → List A
  sort_with [] = []
  sort_with (x ∷ xs) = insert_with x (sort_with xs)

  All-insert_with {κ} :
      (P : A → Type κ) (x : A) (xs : List A) → P x → All P xs → All P (insert_with x xs)
  All-insert_with P x [] h k = (h, tt)
  All-insert_with P x (y ∷ ys) h k = ground (arith, All-insert_with P x ys h k.1)

  pub All-sort_with {κ} : (P : A → Type κ) (xs : List A) → All P xs → All P (sort_with xs)
  All-sort_with P [] h = tt
  All-sort_with P (x ∷ xs) h = All-insert_with P x (sort_with xs) h.0 (All-sort_with P xs h.1)

  All-of_insert_with {κ} :
      (P : A → Type κ) (x : A) (xs : List A) → All P (insert_with x xs) → P x × All P xs
  All-of_insert_with P x [] h = h
  All-of_insert_with P x (y ∷ ys) h = elim (Bool-cases (before x y)) [
    | inl le ↦ rw le at h
    | inr gt ↦
        let h' : P y × All P (insert_with x ys) = rw gt at h in
        let (px, rest) = All-of_insert_with P x ys h'.1 in (px, (h'.0, rest))
  ]

  pub All-of_sort_with {κ} : (P : A → Type κ) (xs : List A) → All P (sort_with xs) → All P xs
  All-of_sort_with P [] h = tt
  All-of_sort_with P (x ∷ xs) h =
      let (px, rest) = All-of_insert_with P x (sort_with xs) h in (px, All-of_sort_with P xs rest)

-- No two elements have one key.
abbrev pub AreDistinct {ℓ κ} : {A : Type ℓ} {K : Type κ} → (A → K) → List A → Type κ
AreDistinct key [] = Unit
AreDistinct key (x ∷ xs) = All (λ y. key x ≢ key y) xs × AreDistinct key xs

module _ {ℓ κ} {A : Type ℓ} {K : Type κ} (before : A → A → Bool) (key : A → K) where
  insert_with-AreDistinct :
      (x : A) (xs : List A)
      → All (λ y. key x ≢ key y) xs
      → AreDistinct key xs
      → AreDistinct key (insert_with before x xs)
  insert_with-AreDistinct x [] h k = (tt, tt)
  insert_with-AreDistinct x (y ∷ ys) h k = elim (Bool-cases (before x y)) [
    | inl le ↦ rw le (h, k)
    | inr gt ↦ rw gt (
      All-insert_with before (λ z. key y ≢ key z) x ys (λ e. h.0 (sym e)) k.0,
      insert_with-AreDistinct x ys h.1 k.1,
    )
  ]

  pub sort_with-AreDistinct :
      (xs : List A) → AreDistinct key xs → AreDistinct key (sort_with before xs)
  sort_with-AreDistinct [] h = tt
  sort_with-AreDistinct (x ∷ xs) h =
      insert_with-AreDistinct x (sort_with before xs)
        (All-sort_with before (λ y. key x ≢ key y) xs h.0) (sort_with-AreDistinct xs h.1)

abbrev pub IsSortedBy {ℓ} : {A : Type ℓ} → (A → ℕ) → List A → Type 0
IsSortedBy key [] = Unit
IsSortedBy key (x ∷ xs) = All (λ y. key x ≤ key y) xs × IsSortedBy key xs

-- An order that goes by the key first sorts by it.
module _ {ℓ} {A : Type ℓ} (before : A → A → Bool) (key : A → ℕ)
    (yes_le : (x y : A) → before x y ≡ true → key x ≤ key y)
    (no_le : (x y : A) → before x y ≡ false → key y ≤ key x) where
  insert_with-IsSortedBy :
      (x : A) (xs : List A) → IsSortedBy key xs → IsSortedBy key (insert_with before x xs)
  insert_with-IsSortedBy x [] h = (tt, tt)
  insert_with-IsSortedBy x (y ∷ ys) h = elim (Bool-cases (before x y)) [
    | inl le ↦
        let below : key x ≤ key y = yes_le x y le in
        rw le (
          (below, All-map (λ z. key y ≤ key z) (λ z. key x ≤ key z) (λ z k. omega arith) ys h.0),
          h,
        )
    | inr gt ↦ rw gt (
      All-insert_with before (λ z. key y ≤ key z) x ys (no_le x y gt) h.0,
      insert_with-IsSortedBy x ys h.1,
    )
  ]

  pub sort_with-IsSortedBy : (xs : List A) → IsSortedBy key (sort_with before xs)
  sort_with-IsSortedBy [] = tt
  sort_with-IsSortedBy (x ∷ xs) =
      insert_with-IsSortedBy x (sort_with before xs) (sort_with-IsSortedBy xs)

module _ {ℓ} {A : Type ℓ} (key : A → ℕ) where
  abbrev pub sorted_by : List A → List A
  sorted_by = sort_with (λ x y. leb (key x) (key y))

  pub sorted_by-IsSortedBy : (xs : List A) → IsSortedBy key (sorted_by xs)
  sorted_by-IsSortedBy =
      sort_with-IsSortedBy (λ x y. leb (key x) (key y)) key (λ x y h. leb→le _ _ h)
        (λ x y h. ground arith)

  pub All-sorted_by {κ} : (P : A → Type κ) (xs : List A) → All P xs → All P (sorted_by xs)
  All-sorted_by = All-sort_with (λ x y. leb (key x) (key y))

  pub All-of_sorted_by {κ} : (P : A → Type κ) (xs : List A) → All P (sorted_by xs) → All P xs
  All-of_sorted_by = All-of_sort_with (λ x y. leb (key x) (key y))
