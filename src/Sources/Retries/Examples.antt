-- ===== src/Sources/Retries/Examples.antt =====
-- A client at which the retry loop of sources/retries.py is tested.
use delist_detection.Prelude.{ℕ, ◌+◌, ◌≡◌, refl, false, some, [], ◌∷◌, ltb, ◌==◌, if◌then◌else◌}
use delist_detection.Sources.Retries.{Outcome, answered, failed, Decision, stops, retries, retrying}
use delist_detection.Sources.Retries.Bounds.{IsBounded, retrying-IsBounded}

-- The third request is answered.
abbrev answers : ℕ → Outcome ℕ ℕ
answers i = if i == 2 then answered 200 else failed 503

abbrev backs_off : ℕ → Outcome ℕ ℕ → Decision ℕ
backs_off i (answered a) = stops
backs_off i (failed e) = retries (i + 1)

third_time :
    retrying (λ s. ltb 0 s) answers backs_off 5 false
    ≡ record { outcome = some (answered 200); sent = 3; slept = 1 ∷ 2 ∷ []; raised = false }
unfolding retrying
third_time = refl

retrying-IsBounded_example :
    IsBounded
      (λ s. ltb 0 s)
      answers
      backs_off
      5
      false
      (retrying (λ s. ltb 0 s) answers backs_off 5 false)
retrying-IsBounded_example = retrying-IsBounded (λ s. ltb 0 s) answers backs_off 5 false
