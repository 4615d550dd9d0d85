-- ===== src/Prelude/Texts.antt =====
-- Texts that the program takes apart, as lists of code points: prefixes, substrings, split and join.
use Prim.Native.Nat.{ℕ, zero, suc, ◌+◌, ◌%◌, ◌/◌}
use Prim.Native.Char.{code}
use Prim.Native.String.{String}
use mathlib.Core.Path.{◌≡◌, refl}
use mathlib.Core.Bool.{Bool, true, false, ◌&&◌, ◌||◌}
use mathlib.Core.List.{List, [], ◌∷◌, ◌++◌, append-nil, append_assoc, reverse}
use native.Mathlib.Omega.{arith}
use delist_detection.Prelude.Lists.{any}
use delist_detection.Prelude.Tests.{ltb, leb, ◌==◌, ==_refl, if◌then◌else◌}

abbrev pub Text : Type 0
Text = List ℕ

abbrev pub codes : String → Text
codes String.[] = []
codes (String.◌∷◌ c s) = code c ∷ codes s

-- `s.startswith(p)`
abbrev pub starts_with : Text → Text → Bool
starts_with s [] = true
starts_with [] (p ∷ ps) = false
starts_with (c ∷ s) (p ∷ ps) = (c == p) && starts_with s ps

-- `p in s`
abbrev pub is_in : Text → Text → Bool
is_in p [] = starts_with [] p
is_in p (c ∷ s) = starts_with (c ∷ s) p || is_in p s

pub starts_with-nil : (s : Text) → starts_with s [] ≡ true
starts_with-nil [] = refl
starts_with-nil (c ∷ s) = refl

pub starts_with-append : (p s : Text) → starts_with (p ++ s) p ≡ true
starts_with-append [] s = refl
starts_with-append (c ∷ p) s = ground (arith, starts_with-append p s)

pub starts_with-append_left :
    (s t p : Text) → starts_with s p ≡ true → starts_with (s ++ t) p ≡ true
starts_with-append_left s t [] h = starts_with-nil (s ++ t)
starts_with-append_left [] t (c ∷ p) h = cc
starts_with-append_left (d ∷ s) t (c ∷ p) h = ground (arith, starts_with-append_left s t p)

pub starts_with-is_in : (p s : Text) → starts_with s p ≡ true → is_in p s ≡ true
starts_with-is_in p [] h = h
starts_with-is_in p (c ∷ s) h = ground arith

-- `p in a + p + b`
pub is_in-append : (a p b : Text) → is_in p (a ++ (p ++ b)) ≡ true
is_in-append [] p b = starts_with-is_in p (p ++ b) (starts_with-append p b)
is_in-append (c ∷ a) p b = ground (arith, is_in-append a p b)

pub is_in-append_right : (a p s : Text) → is_in p s ≡ true → is_in p (a ++ s) ≡ true
is_in-append_right [] p s h = h
is_in-append_right (c ∷ a) p s h = ground (arith, is_in-append_right a p s h)

pub is_in-append_end : (a p : Text) → is_in p (a ++ p) ≡ true
is_in-append_end a p =
    let whole : is_in p (a ++ (p ++ [])) ≡ true = is_in-append a p [] in rw append-nil at whole

-- `s.split(sep)`; `word` is what is read of the current part.
abbrev pub split_on : ℕ → Text → Text → List Text
split_on sep word [] = word ∷ []
split_on sep word (c ∷ s) = elim (c == sep) [
  | true ↦ word ∷ split_on sep [] s
  | false ↦ split_on sep (word ++ c ∷ []) s
]

-- `sep.join(parts)`
abbrev pub join : ℕ → List Text → Text
join sep [] = []
join sep (w ∷ []) = w
join sep (w ∷ v ∷ ws) = w ++ (sep ∷ join sep (v ∷ ws))

-- The text holds no `sep`.
abbrev pub Lacks : ℕ → Text → Type 0
Lacks sep [] = Unit
Lacks sep (c ∷ s) = ((c == sep) ≡ false) × Lacks sep s

pub split_on-word :
    (sep : ℕ) (word w rest : Text)
    → Lacks sep w
    → split_on sep word (w ++ rest) ≡ split_on sep (word ++ w) rest
split_on-word sep word [] rest h = rw append-nil
split_on-word sep word (c ∷ w) rest h =
    ground (arith, split_on-word sep (word ++ c ∷ []) w rest h.1, append_assoc word (c ∷ []) w)

abbrev pub Words : ℕ → List Text → Type 0
Words sep [] = Unit
Words sep (w ∷ ws) = Lacks sep w × Words sep ws

-- Joined parts that hold no separator are split back.
pub split_on-join :
    (sep : ℕ) (w : Text) (ws : List Text)
    → Words sep (w ∷ ws)
    → split_on sep [] (join sep (w ∷ ws)) ≡ w ∷ ws
split_on-join sep w [] h =
    let whole : split_on sep [] (w ++ []) ≡ w ∷ [] = split_on-word sep [] w [] h.0 in
    rw append-nil at whole
split_on-join sep w (v ∷ ws) h = ground (
  arith,
  split_on-word sep [] w (sep ∷ join sep (v ∷ ws)) h.0,
  split_on-join sep v ws h.1,
  ==_refl sep,
)

-- `t == u`
abbrev pub text_eq : Text → Text → Bool
text_eq [] [] = true
text_eq (c ∷ s) (d ∷ t) = (c == d) && text_eq s t
text_eq _ _ = false

pub text_eq→eq : (s t : Text) → text_eq s t ≡ true → s ≡ t
text_eq→eq [] [] h = refl
text_eq→eq [] (d ∷ t) h = cc
text_eq→eq (c ∷ s) [] h = cc
text_eq→eq (c ∷ s) (d ∷ t) h = ground (arith, text_eq→eq s t)

pub text_eq_refl : (s : Text) → text_eq s s ≡ true
text_eq_refl [] = refl
text_eq_refl (c ∷ s) = ground (arith, text_eq_refl s)

-- `t in ts`
abbrev pub is_among : Text → List Text → Bool
is_among t ts = any (λ u. text_eq t u) ts

-- `s[:n]`
abbrev pub take : ℕ → Text → Text
take zero s = []
take (suc n) [] = []
take (suc n) (c ∷ s) = c ∷ take n s

-- `c.isspace()`
abbrev is_blank : ℕ → Bool
is_blank c =
    leb 9 c && leb c 13
    || leb 28 c && leb c 32
    || c == 133
    || c == 160
    || c == 5760
    || leb 8192 c && leb c 8202
    || c == 8232
    || c == 8233
    || c == 8239
    || c == 8287
    || c == 12288

abbrev drop_spaces : Text → Text
drop_spaces [] = []
drop_spaces (c ∷ s) = let rest = drop_spaces s in if is_blank c then rest else c ∷ s

-- `s.strip()`
abbrev pub strip_spaces : Text → Text
strip_spaces s = reverse (drop_spaces (reverse (drop_spaces s)))

-- `s <= t`, by code points.
abbrev pub text_le : Text → Text → Bool
text_le [] t = true
text_le (c ∷ s) [] = false
text_le (c ∷ s) (d ∷ t) = ltb c d || (c == d) && text_le s t

digits_from : ℕ → ℕ → Text → Text
digits_from zero n rest = rest
digits_from (suc fuel) n rest =
    let here = (48 + n % 10) ∷ rest in
    let more = digits_from fuel (n / 10) here in if ltb n 10 then here else more

-- `str(n)`; a number has no more digits than its value plus one.
pub decimal : ℕ → Text
unfolding digits_from
decimal n = digits_from (n + 1) n []
