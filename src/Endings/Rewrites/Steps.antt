-- ===== src/Endings/Rewrites/Steps.antt =====
-- Any sequence of rewrites of one delisting.
use delist_detection.Prelude.{
  ℕ, ◌≡◌, refl, sym, ◌∙◌, ap, Option, List, [], ◌∷◌, ◌++◌, append_assoc, append-nil, arith, Text,
}
use delist_detection.Endings.Rewrites.{
  Delisting, Terms, Payouts, key_of, Rule, Rewrite, ok, continuation, continued_into,
  security_goes_on, reclassify, plain_rewrite,
}
use delist_detection.Endings.Rewrites.Kinds.{
  HasBucket, continuation-ok, continuation-HasBucket, reclassify-HasBucket,
}

-- One rewrite, whoever makes it; a refused one changes nothing and is no step.
pub data Step (d : Delisting) : Delisting → Type 0 where
  continues :
      {d' : Delisting} (t : Terms) (payouts payouts' : Option Payouts)
      → continuation d t payouts ≡ ok (d', payouts')
      → Step d d'
  goes_on : (rule : Rule) → Step d (security_goes_on d rule)
  reclassifies :
      {d' : Delisting} (code : ℕ) (rule : Rule) (reason : Text) (confidence : Option Text)
      → reclassify d code rule reason confidence ≡ ok d'
      → Step d d'

-- The rewrites in order.
pub data Reach (d : Delisting) : Delisting → Type 0 where
  here : Reach d d
  next : {d' d'' : Delisting} → Reach d d' → Step d' d'' → Reach d d''

-- What every rewrite keeps: the key, the agreement of code and bucket, and the rewrites recorded before it.
pub record Keeps (d d' : Delisting) : Type 0 where
  pub same_key : key_of d' ≡ key_of d
  pub has_bucket : HasBucket d → HasBucket d'
  pub later : List Rewrite
  pub extends : d'.rewrites ≡ d.rewrites ++ later

continued_into-Keeps :
    (d : Delisting) (t : Terms)
    → (HasBucket d → HasBucket (continued_into d t))
    → Keeps d (continued_into d t)
unfolding continued_into key_of
continued_into-Keeps d t h = record { same_key = refl; has_bucket = h; later = _; extends = refl }

security_goes_on-Keeps : (d : Delisting) (rule : Rule) → Keeps d (security_goes_on d rule)
unfolding security_goes_on key_of
security_goes_on-Keeps d rule = record {
  same_key = refl;
  has_bucket = λ h. h;
  later = _;
  extends = refl;
}

reclassify-rewrites :
    (d d' : Delisting) (code : ℕ) (rule : Rule) (reason : Text) (confidence : Option Text)
    → reclassify d code rule reason confidence ≡ ok d'
    → d'.rewrites ≡ d.rewrites ++ plain_rewrite rule "" ∷ []
unfolding reclassify
reclassify-rewrites d d' code rule reason confidence e = ground arith

reclassify-Keeps :
    (d d' : Delisting) (code : ℕ) (rule : Rule) (reason : Text) (confidence : Option Text)
    → reclassify d code rule reason confidence ≡ ok d'
    → (key_of d' ≡ key_of d) × ((later : List Rewrite) × (d'.rewrites ≡ d.rewrites ++ later))
unfolding reclassify key_of
reclassify-Keeps d d' code rule reason confidence e = (
  ground arith,
  (plain_rewrite rule "" ∷ [], reclassify-rewrites d d' code rule reason confidence e),
)

Step-Keeps : {d d' : Delisting} → Step d d' → Keeps d d'
Step-Keeps {d} (continues {d'} t payouts payouts' e) =
    let (same, _) = continuation-ok d d' t payouts payouts' e in
    rw same (
      continued_into-Keeps d t
        (λ h. rw same at (continuation-HasBucket d d' t payouts payouts' h e).0))
Step-Keeps {d} (goes_on rule) = security_goes_on-Keeps d rule
Step-Keeps {d} (reclassifies {d'} code rule reason confidence e) =
    let (same, (later, extends)) = reclassify-Keeps d d' code rule reason confidence e in
    record {
      same_key = same;
      has_bucket = λ _. (reclassify-HasBucket d d' code rule reason confidence e).0;
      later = later;
      extends = extends;
    }

-- After any sequence of rewrites, the delisting has its key, its code and bucket still agree, and the
-- record of the rewrites has only grown.
pub Reach-Keeps : {d d' : Delisting} → Reach d d' → Keeps d d'
Reach-Keeps here = record {
  same_key = refl;
  has_bucket = λ h. h;
  later = [];
  extends = sym (append-nil _);
}
Reach-Keeps {d} (next {d'} {d''} r step) =
    let before = Reach-Keeps r in
    let after = Step-Keeps step in
    record {
      same_key = after.same_key ∙ before.same_key;
      has_bucket = λ h. after.has_bucket (before.has_bucket h);
      later = before.later ++ after.later;
      extends =
          after.extends
          ∙ (ap (λ (rs : List Rewrite). rs ++ after.later) before.extends
              ∙ append_assoc d.rewrites before.later after.later);
    }
