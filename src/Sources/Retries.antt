-- ===== src/Sources/Retries.antt =====
-- sources/retries.py: the retry loop. What attempt `i` sends back, an answer or a caught error, is
-- `send i`; what the client decides on it is `wait i`, which may raise. Seconds are the client's numbers.
pub mod Bounds
mod Examples
use delist_detection.Prelude.{
  ℕ, zero, suc, ◌+◌, Bool, true, false, ◌&&◌, ◌||◌, ltb, Option, none, some, List, [], ◌∷◌, ◌++◌,
  if◌then◌else◌,
}

pub data Outcome {ℓ} (T E : Type ℓ) : Type ℓ where
  answered : T → Outcome T E
  failed : E → Outcome T E

pub data Decision {ℓ} (S : Type ℓ) : Type ℓ where
  stops refuses : Decision S
  retries : S → Decision S

-- What the loop did: the last outcome, how many requests it sent, the sleeps between them, and whether
-- `wait` raised.
pub record Trace (T E S : Type 0) : Type 0 where
  pub outcome : Option (Outcome T E)
  pub sent : ℕ
  pub slept : List S
  pub raised : Bool

module _ {T E S : Type 0} (is_positive : S → Bool) (send : ℕ → Outcome T E)
    (wait : ℕ → Outcome T E → Decision S) (attempts : ℕ) (wait_after_last : Bool) where
  -- The sleep behind attempt `i`.
  sleep_behind : ℕ → S → List S
  sleep_behind i seconds =
      if is_positive seconds && (wait_after_last || ltb (i + 1) attempts) then seconds ∷ [] else []

  ended : ℕ → List S → Bool → Trace T E S
  ended i slept raised = record {
    outcome = some (send i);
    sent = i + 1;
    slept = slept;
    raised = raised;
  }

  -- The loop from attempt `i` on, with `left` attempts left and `last` the outcome before.
  loop : (left i : ℕ) → Option (Outcome T E) → List S → Trace T E S
  unfolding sleep_behind ended
  loop zero i last slept = record { outcome = last; sent = i; slept = slept; raised = false }
  loop (suc left) i last slept = elim (wait i (send i)) [
    | stops ↦ ended i slept false
    | refuses ↦ ended i slept true
    | retries seconds ↦ loop left (i + 1) (some (send i)) (slept ++ sleep_behind i seconds)
  ]

  pub retrying : Trace T E S
  unfolding loop
  retrying = loop attempts 0 none []
