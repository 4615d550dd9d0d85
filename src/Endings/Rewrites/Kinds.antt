-- ===== src/Endings/Rewrites/Kinds.antt =====
-- A rewrite sets the code and the bucket together, and says when it refuses.
use delist_detection.Prelude.{
  ℕ, ◌≡◌, ◌≢◌, ◌⊎◌, inl, inr, refl, sym, true, false, not, ◌&&◌, ◌||◌, is_some, Option, none, some,
  arith, Text, Bool-cases,
}
use delist_detection.Vocabulary.CrspCodes
use delist_detection.Vocabulary.CrspCodes.{
  CrspBucket, bucket_for_code, exchange_transfer, merger, continuation_code,
}
use delist_detection.Vocabulary.CrspCodes.LeadingDigit.{bucket_for_code-by_leading_digit}
use delist_detection.Endings.Rewrites.{
  Delisting, Terms, Payouts, Key, Rule, ok, err, continuation, continued_into, reclassify,
  needs_reason, needs_payouts, is_transfer, drop_from, key_of,
}

-- The bucket is the code's.
abbrev pub HasBucket : Delisting → Type 0
HasBucket d = d.bucket ≡ bucket_for_code d.crsp_code

pub is_bucket→eq : (a b : CrspBucket) → CrspCodes.is_bucket a b ≡ true → a ≡ b
unfolding CrspCodes.is_bucket
is_bucket→eq CrspBucket.active b h = ground arith
is_bucket→eq a b h = ground arith

pub is_transfer→eq : (d : Delisting) → is_transfer d ≡ true → d.bucket ≡ exchange_transfer
unfolding is_transfer
is_transfer→eq d h = is_bucket→eq d.bucket exchange_transfer h

continuation_code_bucket : bucket_for_code (some continuation_code) ≡ exchange_transfer
continuation_code_bucket = bucket_for_code-by_leading_digit 304

continued_into-HasBucket :
    (d : Delisting) (t : Terms) → HasBucket d → HasBucket (continued_into d t)
unfolding continued_into
continued_into-HasBucket d t h = elim (Bool-cases (is_transfer d)) [
  | inl there ↦ rw there h
  | inr other ↦ rw other (sym continuation_code_bucket)
]

pub continuation-ok :
    (d d' : Delisting) (t : Terms) (payouts payouts' : Option Payouts)
    → continuation d t payouts ≡ ok (d', payouts')
    → (d' ≡ continued_into d t) × (payouts' ≡ drop_from payouts (key_of d))
unfolding continuation
continuation-ok d d' t payouts payouts' e = ground arith

continued_into-exchange_transfer :
    (d : Delisting) (t : Terms) → (continued_into d t).bucket ≡ exchange_transfer
unfolding continued_into
continued_into-exchange_transfer d t = elim (Bool-cases (is_transfer d)) [
  | inl there ↦ rw there (is_transfer→eq d there)
  | inr other ↦ rw other
]

continued_into-successor :
    (d : Delisting) (t : Terms) → (continued_into d t).successor_sec_id ≡ some t.successor
unfolding continued_into
continued_into-successor d t = refl

-- A continuation goes through where its kind needs no reason or has one, and a merger has its values.
pub continuation-goes :
    (d : Delisting) (t : Terms) (payouts : Option Payouts)
    → (is_transfer d || is_some t.reason && is_some t.confidence) ≡ true
    → (CrspCodes.is_bucket d.bucket merger ≡ true → is_some payouts ≡ true)
    → continuation d t payouts ≡ ok (continued_into d t, drop_from payouts (key_of d))
unfolding continuation
continuation-goes d t payouts h k =
    let first : (not (is_transfer d) && not (is_some t.reason && is_some t.confidence)) ≡ false =
      ground (arith, h) in
    elim (Bool-cases (CrspCodes.is_bucket d.bucket merger)) [
      | inl on ↦
          let there = k on in
          let second : (CrspCodes.is_bucket d.bucket merger && not (is_some payouts)) ≡ false =
            ground (arith, there) in
          rw (first, second, continuation) refl
      | inr off ↦
          let second : (CrspCodes.is_bucket d.bucket merger && not (is_some payouts)) ≡ false =
            rw off refl in
          rw (first, second, continuation) refl
    ]

pub is_some-drop_from :
    (payouts : Option Payouts) (key : Key) → is_some (drop_from payouts key) ≡ is_some payouts
unfolding drop_from
is_some-drop_from none key = refl
is_some-drop_from (some payouts) key = refl

-- What a continuation leaves: its kind, its successor and its key.
pub continued_into-lem :
    (d : Delisting) (t : Terms)
    → ((continued_into d t).bucket ≡ exchange_transfer)
      × ((continued_into d t).successor_sec_id ≡ some t.successor)
      × (key_of (continued_into d t) ≡ key_of d)
unfolding continued_into key_of
continued_into-lem d t = (continued_into-exchange_transfer d t, continued_into-successor d t, refl)

-- A continuation of a delisting whose bucket is its code's leaves an exchange transfer whose bucket is
-- its code's, into the successor given.
pub continuation-HasBucket :
    (d d' : Delisting) (t : Terms) (payouts payouts' : Option Payouts)
    → HasBucket d
    → continuation d t payouts ≡ ok (d', payouts')
    → HasBucket d' × (d'.bucket ≡ exchange_transfer) × (d'.successor_sec_id ≡ some t.successor)
continuation-HasBucket d d' t payouts payouts' h e =
    let (same, _) = continuation-ok d d' t payouts payouts' e in
    rw same (
      continued_into-HasBucket d t h,
      continued_into-exchange_transfer d t,
      continued_into-successor d t,
    )

-- A reclassification that goes through leaves a delisting whose bucket is its new code's and which is no
-- exchange transfer.
pub reclassify-HasBucket :
    (d d' : Delisting) (code : ℕ) (rule : Rule) (reason : Text) (confidence : Option Text)
    → reclassify d code rule reason confidence ≡ ok d'
    → HasBucket d' × (d'.bucket ≢ exchange_transfer)
unfolding reclassify CrspCodes.is_bucket
reclassify-HasBucket d d' code rule reason confidence e = ground arith

-- `continuation` refuses a delisting that is no exchange transfer without its own reason and confidence, then a
-- merger without the run's merger values. It goes through just where neither lacks: for an exchange transfer or
-- with both given, and for no merger or with the values.
pub continuation_refusals :
    (d : Delisting) (t : Terms) (payouts : Option Payouts)
    → (continuation d t payouts ≡ err needs_reason)
        × (d.bucket ≢ exchange_transfer)
        × ((t.reason ≡ none) ⊎ (t.confidence ≡ none))
      ⊎ (continuation d t payouts ≡ err needs_payouts)
        × (d.bucket ≡ merger)
        × (payouts ≡ none)
        × (t.reason ≢ none)
        × (t.confidence ≢ none)
      ⊎ ((d' : Delisting) × (payouts' : Option Payouts) × (continuation d t payouts
            ≡ ok (d', payouts')))
        × ((d.bucket ≡ exchange_transfer) ⊎ (t.reason ≢ none) × (t.confidence ≢ none))
        × ((d.bucket ≢ merger) ⊎ (payouts ≢ none))
unfolding continuation CrspCodes.is_bucket
continuation_refusals d t payouts = ground arith
