-- ===== src/Vocabulary/Identifiers.antt =====
-- vocabulary/identifiers.py: how the library spells a ticker, for texts of ASCII characters.
use delist_detection.Prelude.{
  ℕ, ◌-◌, Bool, true, false, not, ◌&&◌, ◌||◌, Option, none, some, [], ◌∷◌, reverse, Text, codes,
  leb, ◌==◌, starts_with, any, filter, if◌then◌else◌,
}

is_upper_letter : ℕ → Bool
is_upper_letter c = leb 65 c && leb c 90

-- `s.upper()`
unfoldable pub upper : Text → Text
upper [] = []
upper (c ∷ s) = (if leb 97 c && leb c 122 then c - 32 else c) ∷ upper s

pub is_space : ℕ → Bool
is_space c = c == 32 || (leb 9 c && leb c 13 || leb 28 c && leb c 31)

-- `c.isalnum()`
is_alphanumeric : ℕ → Bool
unfolding is_upper_letter
is_alphanumeric c = is_upper_letter c || (leb 97 c && leb c 122 || leb 48 c && leb c 57)

drop_while : (ℕ → Bool) → Text → Text
drop_while p [] = []
drop_while p (c ∷ s) = let rest = drop_while p s in if p c then rest else c ∷ s

-- `s.strip(…)`
strip_of : (ℕ → Bool) → Text → Text
unfolding drop_while
strip_of p s = reverse (drop_while p (reverse (drop_while p s)))

-- `[./\s]`
is_separator : ℕ → Bool
unfolding is_space
is_separator c = c == 46 || (c == 47 || is_space c)

-- `_TICKER_SEPARATORS.sub("-", text)`, after a character of a run or not.
dashed : Bool → Text → Text
unfolding is_separator
dashed running [] = []
dashed running (c ∷ s) =
    let rest = dashed (is_separator c) s in
    if is_separator c then (if running then rest else 45 ∷ rest) else c ∷ rest

all_alphanumeric : Text → Bool
unfolding is_alphanumeric
all_alphanumeric [] = false
all_alphanumeric (c ∷ s) = not (any (λ d. not (is_alphanumeric d)) (c ∷ s))

pub normalize_ticker : Text → Text
unfolding upper is_space strip_of dashed all_alphanumeric
normalize_ticker raw =
    let text = upper (strip_of is_space raw) in
    if all_alphanumeric text then text else strip_of (λ c. c == 45) (dashed false text)

-- `ticker.replace("-", "")`
unfoldable pub bare_ticker : Text → Text
bare_ticker ticker = filter (λ c. not (c == 45)) ticker

ends_with : Text → Text → Bool
ends_with s p = starts_with (reverse s) (reverse p)

-- The text without its last `n` characters.
dropped_end : ℕ → Text → Text
dropped_end n s = reverse (drop n (reverse s))
  where
    drop : ℕ → Text → Text
    drop _ [] = []
    drop n (c ∷ cs) = if n == 0 then c ∷ cs else drop (n - 1) cs

-- `_WHEN_ISSUED.sub("", t)`
without_when_issued : Text → Text
unfolding ends_with dropped_end
without_when_issued t =
    if ends_with t (codes "-WI")
    then dropped_end 3 t
    else if ends_with t (codes "-W-I")
    then dropped_end 4 t
    else t

pub regular_way : Text → Text
unfolding without_when_issued
regular_way ticker =
    let t = normalize_ticker ticker in elim (without_when_issued t) [ [] ↦ t | c ∷ s ↦ c ∷ s ]

slashed : Text → Text
slashed [] = []
slashed (c ∷ s) = (if c == 45 then 47 else c) ∷ slashed s

pub bloomberg_ticker : Text → Text
unfolding slashed
bloomberg_ticker ticker = slashed (normalize_ticker ticker)

-- `-([A-Z])`, the rest of the text.
class_letter_at : Text → Option ℕ
unfolding is_upper_letter
class_letter_at (dash ∷ letter ∷ []) =
    if (dash == 45) && is_upper_letter letter then some letter else none
class_letter_at _ = none

-- `[A-Z]+-([A-Z])`, the whole text, of which `before` is read, the last character first.
class_suffix_from : Text → Text → Option (Text × ℕ)
unfolding class_letter_at
class_suffix_from before [] = none
class_suffix_from before (c ∷ s) =
    let later = class_suffix_from (c ∷ before) s in
    if is_upper_letter c
    then later
    else if is_empty before
    then none
    else elim (class_letter_at (c ∷ s)) [
      | none ↦ none
      | some letter ↦ some (reverse before, letter)
    ]
  where
    is_empty : Text → Bool
    is_empty [] = true
    is_empty (_ ∷ _) = false

unfoldable pub class_suffix : Text → Option (Text × ℕ)
unfolding class_suffix_from
class_suffix ticker = class_suffix_from [] ticker

-- `sec_id.startswith("CIK")`
pub is_placeholder : Text → Bool
is_placeholder sec_id = starts_with sec_id (codes "CIK")
