-- ===== src/Vocabulary/CrspCodes.antt =====
-- vocabulary/crsp_codes.py: CRSP delisting codes and the bucket of each.
pub mod LeadingDigit
mod Examples
use delist_detection.Prelude.{
  ℕ, Bool, true, false, Option, none, some, List, [], ◌∷◌, ◌&&◌, ◌==◌, ltb, leb, if◌then◌else◌,
}

-- `CrspBucket`
pub data CrspBucket : Type 0 where
  active merger exchange_transfer liquidation compliance_failure expiration unknown : CrspBucket

abbrev pub continuation_code : ℕ
continuation_code = 304

-- `DLST_CODE_TO_BUCKET`, in the source's order.
dlst_code_to_bucket : List (ℕ × CrspBucket)
dlst_code_to_bucket =
    (100, active)
    ∷ (200, merger)
    ∷ (231, merger)
    ∷ (233, merger)
    ∷ (241, merger)
    ∷ (251, merger)
    ∷ (252, merger)
    ∷ (261, merger)
    ∷ (262, merger)
    ∷ (300, exchange_transfer)
    ∷ (301, exchange_transfer)
    ∷ (302, exchange_transfer)
    ∷ (303, exchange_transfer)
    ∷ (continuation_code, exchange_transfer)
    ∷ (400, liquidation)
    ∷ (470, liquidation)
    ∷ (500, compliance_failure)
    ∷ (520, compliance_failure)
    ∷ (535, compliance_failure)
    ∷ (550, compliance_failure)
    ∷ (552, compliance_failure)
    ∷ (560, compliance_failure)
    ∷ (570, compliance_failure)
    ∷ (573, compliance_failure)
    ∷ (574, compliance_failure)
    ∷ (580, compliance_failure)
    ∷ (584, compliance_failure)
    ∷ (585, compliance_failure)
    ∷ (600, expiration)
    ∷ []

-- `code in DLST_CODE_TO_BUCKET` and the lookup, in one.
lookup : ℕ → List (ℕ × CrspBucket) → Option CrspBucket
lookup code [] = none
lookup code ((k, b) ∷ rest) = if code == k then some b else lookup code rest

-- The ranges that `bucket_for_code` falls through to.
range_bucket : ℕ → CrspBucket
range_bucket code =
    if leb 200 code && ltb code 300
    then merger
    else if leb 300 code && ltb code 400
    then exchange_transfer
    else if leb 400 code && ltb code 500
    then liquidation
    else if leb 501 code && leb code 502
    then exchange_transfer
    else if leb 500 code && ltb code 600
    then compliance_failure
    else if leb 600 code && ltb code 700
    then expiration
    else unknown

pub bucket_for_code : Option ℕ → CrspBucket
bucket_for_code none = unknown
bucket_for_code (some code) = elim (lookup code dlst_code_to_bucket) [
  | some b ↦ b
  | none ↦ range_bucket code
]

-- `is` on buckets.
unfoldable pub is_bucket : CrspBucket → CrspBucket → Bool
is_bucket active active = true
is_bucket merger merger = true
is_bucket exchange_transfer exchange_transfer = true
is_bucket liquidation liquidation = true
is_bucket compliance_failure compliance_failure = true
is_bucket expiration expiration = true
is_bucket unknown unknown = true
is_bucket _ _ = false
