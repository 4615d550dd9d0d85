-- ===== src/Vocabulary/CrspCodes/LeadingDigit.antt =====
-- The table and the ranges of vocabulary/crsp_codes.py against one rule by the code's hundreds.
use delist_detection.Prelude.{
  ℕ, ◌/◌, ◌≡◌, none, some, List, [], ◌∷◌, arith, ◌||◌, ◌==◌, ==→eq, Bool-cases, false, sym, ◌∙◌,
  Option-cases, inl, inr, All, if◌then◌else◌,
}
use delist_detection.Vocabulary.CrspCodes.{
  CrspBucket, active, merger, exchange_transfer, liquidation, compliance_failure, expiration,
  unknown, dlst_code_to_bucket, lookup, range_bucket, bucket_for_code,
}

abbrev pub by_hundreds : ℕ → CrspBucket
by_hundreds d =
    if d == 2
    then merger
    else if d == 3
    then exchange_transfer
    else if d == 4
    then liquidation
    else if d == 5
    then compliance_failure
    else if d == 6
    then expiration
    else unknown

-- CRSP's scheme: the leading digit gives the bucket; 100 alone is active, and the two up-migrations
-- 501 and 502 are transfers.
abbrev pub by_leading_digit : ℕ → CrspBucket
by_leading_digit code =
    if code == 100
    then active
    else if code == 501 || code == 502
    then exchange_transfer
    else by_hundreds (code / 100)

lookup_sound :
    (code : ℕ) (table : List (ℕ × CrspBucket)) (b : CrspBucket)
    → All (λ row. by_leading_digit row.0 ≡ row.1) table
    → lookup code table ≡ some b
    → by_leading_digit code ≡ b
unfolding lookup
lookup_sound code [] b h e = cc
lookup_sound code ((k, v) ∷ rest) b h e = elim (Bool-cases (code == k)) [
  | inl hit ↦
      let found : v ≡ b = ground arith in
      let same : code ≡ k = ==→eq code k hit in rw same (h.0 ∙ found)
  | inr miss ↦ lookup_sound code rest b h.1 (rw miss at e)
]

table_agrees : All (λ row. by_leading_digit row.0 ≡ row.1) dlst_code_to_bucket
unfolding dlst_code_to_bucket
table_agrees = ground arith

lookup_first :
    (code k : ℕ) (v : CrspBucket) (rest : List (ℕ × CrspBucket))
    → lookup code ((k, v) ∷ rest) ≡ none
    → (code == k) ≡ false
unfolding lookup
lookup_first code k v rest e = ground arith

not_active : (code : ℕ) → lookup code dlst_code_to_bucket ≡ none → (code == 100) ≡ false
unfolding dlst_code_to_bucket
not_active code e = lookup_first code 100 active _ e

range_agrees : (code : ℕ) → (code == 100) ≡ false → range_bucket code ≡ by_leading_digit code
unfolding range_bucket
range_agrees code other = ground arith

-- Whether the table or a range gives it, a code's bucket is the one of its hundreds (2 a merger, 3 an exchange
-- transfer, 4 a liquidation, 5 a compliance failure, 6 an expiration, any other unknown), but for 100, which is
-- active, and for 501 and 502, which are exchange transfers.
pub bucket_for_code-by_leading_digit :
    (code : ℕ) → bucket_for_code (some code) ≡ by_leading_digit code
unfolding bucket_for_code
bucket_for_code-by_leading_digit code = elim (Option-cases (lookup code dlst_code_to_bucket)) [
  | inl miss ↦ rw (miss, bucket_for_code) (range_agrees code (not_active code miss))
  | inr (b, hit) ↦ rw (hit, bucket_for_code) (sym (lookup_sound code _ b table_agrees hit))
]
