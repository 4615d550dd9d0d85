-- ===== src/Sources/SecLimiter/Spacing.antt =====
-- The spacing of request starts.
use delist_detection.Prelude.{
  ℕ, ◌+◌, ◌≤◌, ◌≡◌, refl, true, Option, none, some, List, [], ◌∷◌, arith, length, ◌∙◌,
}
use delist_detection.Sources.SecLimiter.{
  RateLimiter, is_due, pause, start, Step, passes, pauses, takes_turn, cancels, begins, Reach, new,
  next,
}

-- Each start at least `interval` behind the one before it, the latest first.
abbrev pub IsSpaced : ℕ → List ℕ → Type 0
IsSpaced interval [] = Unit
IsSpaced interval (t ∷ []) = Unit
IsSpaced interval (t ∷ u ∷ rest) = (u + interval ≤ t) × IsSpaced interval (u ∷ rest)

abbrev pub latest : List ℕ → Option ℕ
latest [] = none
latest (t ∷ rest) = some t

-- What holds of a limiter between any two steps.
pub record IsLimited (interval : ℕ) (s : RateLimiter) : Type 0 where
  pub spaced : IsSpaced interval s.starts
  pub counted : s.count ≡ length s.starts
  pub last_start : s.last ≡ latest s.starts
  pub due : s.turn ≡ true → (l : ℕ) → s.last ≡ some l → l + interval ≤ s.now

is_due_lem :
    (interval : ℕ) (s : RateLimiter) (l : ℕ)
    → is_due interval s ≡ true
    → s.last ≡ some l
    → l + interval ≤ s.now
unfolding is_due
is_due_lem interval s l h e = ground arith

IsSpaced-start :
    (interval now : ℕ) (starts : List ℕ)
    → IsSpaced interval starts
    → ((l : ℕ) → latest starts ≡ some l → l + interval ≤ now)
    → IsSpaced interval (now ∷ starts)
IsSpaced-start interval now [] h due = tt
IsSpaced-start interval now (t ∷ rest) h due = (due t refl, h)

Step-IsLimited :
    (interval : ℕ) (s s' : RateLimiter)
    → IsLimited interval s
    → Step interval s s'
    → IsLimited interval s'
unfolding pause start
Step-IsLimited interval s s' h (passes ticks) = record {
  spaced = h.spaced;
  counted = h.counted;
  last_start = h.last_start;
  due = λ turn l e. let before = h.due turn l e in omega (arith, before);
}
Step-IsLimited interval s s' h (pauses seconds) = record {
  spaced = h.spaced;
  counted = h.counted;
  last_start = h.last_start;
  due = h.due;
}
Step-IsLimited interval s s' h (takes_turn free due) = record {
  spaced = h.spaced;
  counted = h.counted;
  last_start = h.last_start;
  due = λ _ l e. is_due_lem interval s l due e;
}
Step-IsLimited interval s s' h (cancels turn) = record {
  spaced = h.spaced;
  counted = h.counted;
  last_start = h.last_start;
  due = λ off. absurd (ground arith);
}
Step-IsLimited interval s s' h (begins turn) = record {
  spaced = IsSpaced-start interval s.now s.starts h.spaced (λ l e. h.due turn l (h.last_start ∙ e));
  counted = let counted = h.counted in ground (arith, counted);
  last_start = refl;
  due = λ off. absurd (ground arith);
}

-- However threads take turns, set pauses, are cancelled and start requests, and however time passes between:
-- any two starts in a row are at least the interval apart, and the count is that of the starts.
pub Reach-IsLimited : {interval : ℕ} {s : RateLimiter} → Reach interval s → IsLimited interval s
Reach-IsLimited {interval} new = record {
  spaced = tt;
  counted = refl;
  last_start = refl;
  due = λ off. absurd (ground arith);
}
Reach-IsLimited {interval} (next {s} {s'} r step) =
    Step-IsLimited interval s s' (Reach-IsLimited r) step
