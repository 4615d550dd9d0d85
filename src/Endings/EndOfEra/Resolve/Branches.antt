-- ===== src/Endings/EndOfEra/Resolve/Branches.antt =====
-- Which branch `resolve` takes.
use delist_detection.Prelude.{ℕ, ◌≡◌, ◌≢◌, ◌⊎◌, true, false, Option, some, arith}
use delist_detection.Vocabulary.CrspCodes.{bucket_for_code, merger}
use delist_detection.Vocabulary.CrspCodes.LeadingDigit.{
  by_leading_digit, bucket_for_code-by_leading_digit,
}
use delist_detection.Endings.EndOfEra.Signals.{EraSignals}
use delist_detection.Endings.EndOfEra.Resolve.{
  bankruptcy, successor_merger, EraVerdict, merges, registers_successor, resolve, merger_code,
}
use delist_detection.Endings.EndOfEra.Resolve.Rule.{resolve_ind}
use delist_detection.Endings.EndOfEra.Resolve.ReadBack.{makes_merger, registers}

merger_code-merger : (items_code : Option ℕ) → by_leading_digit (merger_code items_code) ≡ merger
unfolding merger_code
merger_code-merger items_code = ground arith

abbrev HasBucket : EraVerdict → Type 0
HasBucket v = v.bucket ≡ bucket_for_code (some v.crsp_code)

-- The code and the bucket of the verdict belong together.
pub resolve-bucket_for_code :
    (s : EraSignals) (items_code : Option ℕ)
    → (resolve s items_code).bucket ≡ bucket_for_code (some (resolve s items_code).crsp_code)
resolve-bucket_for_code s items_code = resolve_ind {P = HasBucket} (record {
  on_trading = λ _. rw bucket_for_code-by_leading_digit;
  on_successor = λ filing _ e. rw bucket_for_code-by_leading_digit;
  on_changed_stake = λ filing own _ e. rw bucket_for_code-by_leading_digit;
  on_control = λ day _ _ _ _. rw bucket_for_code-by_leading_digit (rw merger_code-merger);
  on_completion =
      λ day beside _ _ _ _ _. rw bucket_for_code-by_leading_digit (rw merger_code-merger);
  on_bankruptcy = λ filing day beside _ _ _ _. rw bucket_for_code-by_leading_digit;
  on_deficiency = λ notice _ _ _. rw bucket_for_code-by_leading_digit;
  on_liquidation = λ notice _ _ _. rw bucket_for_code-by_leading_digit;
  on_standing = λ _ _ _. rw bucket_for_code-by_leading_digit;
})

-- Branch 2 decides exactly if `registers_successor` says so.
pub resolve-registers_successor :
    (s : EraSignals) (items_code : Option ℕ)
    → registers (resolve s items_code).branch ≡ registers_successor s
unfolding registers_successor
resolve-registers_successor s items_code =
    resolve_ind {s = s} {items_code = items_code}
      {P = λ v. registers v.branch ≡ registers_successor s}
      (record {
        on_trading = λ on. ground arith;
        on_successor = λ filing off e. ground arith;
        on_changed_stake = λ filing own off e. ground arith;
        on_control = λ day off alone _ _. ground arith;
        on_completion = λ day beside off alone _ _ _. ground arith;
        on_bankruptcy = λ filing day beside off alone _ _. ground arith;
        on_deficiency = λ notice off alone _. ground arith;
        on_liquidation = λ notice off alone _. ground arith;
        on_standing = λ off alone _. ground arith;
      })

-- What `merges` says of the branch.
abbrev pub AgreesWithMerges : EraSignals → EraVerdict → Type 0
AgreesWithMerges s v =
    (merges s ≡ false → (makes_merger v.branch ≡ false) × (v.branch ≢ bankruptcy))
    × (merges s ≡ true
        → s.survived ≡ false
        → (makes_merger v.branch ≡ true) ⊎ (v.branch ≡ bankruptcy))
    × (s.survived ≡ true → makes_merger v.branch ≡ false)
    × (s.survived ≡ true → v.bucket ≡ merger → v.branch ≡ successor_merger)

-- Where `merges` says no, none of the change in control, the completed acquisition and the bankruptcy decides;
-- where it says yes and the registrant did not survive, one of them does. A registrant that survived is never
-- ended by the change in control or the completed acquisition, and its bucket is the merger's only by the
-- successor merger's branch.
pub resolve-merges :
    (s : EraSignals) (items_code : Option ℕ) → AgreesWithMerges s (resolve s items_code)
unfolding merges
resolve-merges s items_code =
    resolve_ind {s = s} {items_code = items_code} {P = AgreesWithMerges s} (record {
      on_trading = λ on. ground arith;
      on_successor = λ filing off e. ground arith;
      on_changed_stake = λ filing own off e. ground arith;
      on_control = λ day off alone died e. ground arith;
      on_completion = λ day beside off alone died e f. ground arith;
      on_bankruptcy = λ filing day beside off alone e f. ground arith;
      on_deficiency = λ notice off alone quiet. ground arith;
      on_liquidation = λ notice off alone quiet. ground arith;
      on_standing = λ off alone quiet. ground arith;
    })
