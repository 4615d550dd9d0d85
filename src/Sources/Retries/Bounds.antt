-- ===== src/Sources/Retries/Bounds.antt =====
-- How often the retry loop sends and sleeps.
use delist_detection.Prelude.{
  ℕ, zero, suc, ◌+◌, ◌≤◌, ◌<◌, ◌≡◌, ◌⊎◌, inl, inr, refl, ap, Bool, true, false, Option, none, some,
  List, [], ◌∷◌, ◌++◌, arith, length,
}
use delist_detection.Sources.Retries.{
  Outcome, Decision, stops, refuses, retries, Trace, retrying, loop, sleep_behind, ended,
}

length-append : {S : Type 0} (xs ys : List S) → length (xs ++ ys) ≡ length xs + length ys
length-append [] ys = ground arith
length-append (x ∷ xs) ys = ground (arith, length-append xs ys)

module _ {T E S : Type 0} (is_positive : S → Bool) (send : ℕ → Outcome T E)
    (wait : ℕ → Outcome T E → Decision S) (attempts : ℕ) (wait_after_last : Bool) where
  -- What the client decides ends the loop.
  abbrev pub ends_loop : Decision S → Bool
  ends_loop stops = true
  ends_loop refuses = true
  ends_loop (retries seconds) = false

  -- The outcome is the last request's, the loop sends all its attempts or ends behind the request on which the
  -- client decides so, and it sleeps at most once behind each, and not behind the last of all unless told to.
  pub record IsBounded (t : Trace T E S) : Type 0 where
    pub last :
        (t.outcome ≡ none) × (t.sent ≡ 0) × (attempts ≡ 0)
        ⊎ ((i : ℕ) × (t.sent ≡ i + 1) × (t.outcome ≡ some (send i)))
    pub bound : t.sent ≤ attempts
    pub all_sent :
        (t.sent ≡ attempts) ⊎ ((i : ℕ) × (t.sent ≡ i + 1) × (ends_loop (wait i (send i)) ≡ true))
    pub sleeps : length t.slept ≤ t.sent
    pub no_last_sleep : wait_after_last ≡ false → 0 < t.sent → length t.slept < t.sent

  -- Before attempt `i`: `slept` has at most one sleep for each attempt so far.
  record Inv (left i : ℕ) (last : Option (Outcome T E)) (slept : List S) : Type 0 where
    ends : (last ≡ none) × (i ≡ 0) ⊎ ((j : ℕ) × (i ≡ j + 1) × (last ≡ some (send j)))
    total : i + left ≡ attempts
    count : length slept ≤ i
    spare : wait_after_last ≡ false → left ≡ 0 → 0 < i → length slept < i

  ended-IsBounded :
      (left i : ℕ) (last : Option (Outcome T E)) (slept : List S) (raised : Bool)
      → Inv (suc left) i last slept
      → ends_loop (wait i (send i)) ≡ true
      → IsBounded (ended is_positive send wait attempts wait_after_last i slept raised)
  unfolding ended
  ended-IsBounded left i last slept raised inv over =
      let total = inv.total in
      let count = inv.count in
      record {
        last = inr (i, refl, refl);
        bound = omega (arith, total);
        all_sent = inr (i, refl, over);
        sleeps = omega (arith, count);
        no_last_sleep = λ _ _. omega (arith, count);
      }

  sleep_behind-length :
      (i : ℕ) (seconds : S)
      → (length (sleep_behind is_positive send wait attempts wait_after_last i seconds) ≤ 1)
        × (wait_after_last ≡ false
            → i + 1 ≡ attempts
            → length (sleep_behind is_positive send wait attempts wait_after_last i seconds) ≡ 0)
  unfolding sleep_behind
  sleep_behind-length i seconds = ground arith

  Inv-next :
      (left i : ℕ) (last : Option (Outcome T E)) (slept : List S) (seconds : S)
      → Inv (suc left) i last slept
      → Inv left
          (i + 1)
          (some (send i))
          (slept ++ sleep_behind is_positive send wait attempts wait_after_last i seconds)
  Inv-next left i last slept seconds inv =
      let total = inv.total in
      let count = inv.count in
      let (one, zero_last) = sleep_behind-length i seconds in
      let sum =
        length-append slept
          (sleep_behind is_positive send wait attempts wait_after_last i seconds) in
      record {
        ends = inr (i, refl, refl);
        total = omega (arith, total);
        count = omega (arith, sum, one, count);
        spare = λ off none_left _.
            let silent = zero_last off (omega (arith, total, none_left)) in
            omega (arith, sum, silent, count);
      }

  attempt-IsBounded :
      (left i : ℕ) (last : Option (Outcome T E)) (slept : List S)
      → Inv (suc left) i last slept
      → (d : Decision S) → wait i (send i) ≡ d
      → ((seconds : S)
          → IsBounded (
              loop is_positive send wait attempts wait_after_last left
                (i + 1)
                (some (send i))
                (slept ++ sleep_behind is_positive send wait attempts wait_after_last i seconds)))
      → IsBounded (loop is_positive send wait attempts wait_after_last (suc left) i last slept)
  unfolding loop
  attempt-IsBounded left i last slept inv stops e rest =
      rw (e, loop) (ended-IsBounded left i last slept false inv (ap ends_loop e))
  attempt-IsBounded left i last slept inv refuses e rest =
      rw (e, loop) (ended-IsBounded left i last slept true inv (ap ends_loop e))
  attempt-IsBounded left i last slept inv (retries seconds) e rest = rw (e, loop) (rest seconds)

  loop-IsBounded :
      (left i : ℕ) (last : Option (Outcome T E)) (slept : List S)
      → Inv left i last slept
      → IsBounded (loop is_positive send wait attempts wait_after_last left i last slept)
  unfolding loop
  loop-IsBounded zero i last slept inv =
      let total = inv.total in
      record {
        last = elim inv.ends [
          | inl (none_yet, first) ↦ inl (none_yet, first, omega (arith, total, first))
          | inr sent ↦ inr sent
        ];
        bound = omega (arith, total);
        all_sent = inl (omega (arith, total));
        sleeps = inv.count;
        no_last_sleep = λ off. inv.spare off refl;
      }
  loop-IsBounded (suc left) i last slept inv =
      attempt-IsBounded left i last slept inv (wait i (send i)) refl (λ seconds.
        loop-IsBounded left (i + 1) (some (send i))
          (slept ++ sleep_behind is_positive send wait attempts wait_after_last i seconds)
          (Inv-next left i last slept seconds inv))

  -- Whatever is sent back and decided: the loop sends all its attempts, or ends behind the request on which
  -- the client decides so; its outcome is that of its last request, and none only where it has no attempts. It
  -- sleeps at most once for each request, and, where it sends any, fewer times than it sends unless it may
  -- wait after the last attempt.
  pub retrying-IsBounded : IsBounded (retrying is_positive send wait attempts wait_after_last)
  unfolding retrying
  retrying-IsBounded = loop-IsBounded attempts 0 none [] (record {
    ends = inl (refl, refl);
    total = omega arith;
    count = omega arith;
    spare = λ _ _ none_sent. absurd (omega (arith, none_sent));
  })
