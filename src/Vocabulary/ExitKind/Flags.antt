-- ===== src/Vocabulary/ExitKind/Flags.antt =====
-- The tokens of a row's review_flags cell, and the parts of a token.
use delist_detection.Prelude.{
  ◌≡◌, refl, ap, ◌∙◌, Bool, true, false, List, [], ◌∷◌, ◌++◌, map, arith, Text, split_on, join,
  Lacks, Words, split_on-join, ◌==◌, filter, All, inl, inr, ◌⊎◌, Bool-cases, if◌then◌else◌,
}
use delist_detection.Vocabulary.ExitKind.Row.{Row}

-- A non-empty text is true.
abbrev pub is_text : Text → Bool
is_text [] = false
is_text (c ∷ s) = true

-- The tokens of a cell.
tokens : Text → List Text
tokens cell = filter is_text (split_on b';' [] cell)

unfoldable pub flag_tokens : Row → List Text
unfolding tokens
flag_tokens row = tokens row.review_flags

-- `token.split(":", 1)[0]`
unfoldable pub flag_name : Text → Text
flag_name [] = []
flag_name (c ∷ s) = let rest = flag_name s in if c == b':' then [] else c ∷ rest

-- `token.partition(":")[2]`
unfoldable pub flag_detail : Text → Text
flag_detail [] = []
flag_detail (c ∷ s) = let rest = flag_detail s in if c == b':' then s else rest

-- The set as a list, in the tokens' order.
unfoldable pub flag_names : Row → List Text
flag_names row = map flag_name (flag_tokens row)

abbrev pub IsToken : Text → Type 0
IsToken t = (is_text t ≡ true) × Lacks b';' t

filter-tokens : (ts : List Text) → All IsToken ts → filter is_text ts ≡ ts
filter-tokens [] h = refl
filter-tokens (t ∷ ts) h = rw (h.0.0) (ap (λ (us : List Text). t ∷ us) (filter-tokens ts h.1))

Words-tokens : (ts : List Text) → All IsToken ts → Words b';' ts
Words-tokens [] h = tt
Words-tokens (t ∷ ts) h = (h.0.1, Words-tokens ts h.1)

-- The cell that holds non-blank tokens without a `;`, joined by `;`, is read back as those tokens.
pub flag_tokens-join :
    (row : Row) (ts : List Text)
    → All IsToken ts
    → row.review_flags ≡ join b';' ts
    → flag_tokens row ≡ ts
unfolding flag_tokens
flag_tokens-join row [] h e = rw e
flag_tokens-join row (t ∷ ts) h e = rw e (
    ap (filter is_text) (split_on-join b';' t ts (Words-tokens (t ∷ ts) h))
    ∙ filter-tokens (t ∷ ts) h)

-- A token is its name, and a `:` and its detail behind it if it has one; the name has no `:`.
pub flag_parts :
    (t : Text)
    → Lacks b':' (flag_name t)
      × ((t ≡ flag_name t) × (flag_detail t ≡ []) ⊎ (t ≡ flag_name t ++ (b':' ∷ flag_detail t)))
unfolding flag_name flag_detail
flag_parts [] = (tt, inl (refl, refl))
flag_parts (c ∷ s) = elim (Bool-cases (c == b':')) [
  | inl colon ↦ ground arith
  | inr other ↦ ground (arith, flag_parts s)
]
