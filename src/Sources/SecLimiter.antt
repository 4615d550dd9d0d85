-- ===== src/Sources/SecLimiter.antt =====
-- sources/sec_limiter.py: `RateLimiter` as the steps of its threads. Times are counts of the clock's
-- ticks, 0 before every pause. A thread holds the lock from the check of its turn, which ends its loop of
-- waits, to its start; the wait for a machine-wide gate lies between the two, and `cancelled_by` may end
-- it there. Any other thread may set a pause at any time.
pub mod Spacing
mod Examples
use delist_detection.Prelude.{
  ℕ, ◌+◌, ◌≡◌, Bool, true, false, Option, none, some, List, [], ◌∷◌, leb, max,
}

-- `starts` records the starts, the latest first.
pub record RateLimiter : Type 0 where
  pub now : ℕ
  pub last : Option ℕ
  pub resume_at : ℕ
  pub turn : Bool
  pub count : ℕ
  pub starts : List ℕ

abbrev pub fresh : RateLimiter
fresh = record { now = 0; last = none; resume_at = 0; turn = false; count = 0; starts = [] }

-- When the next request may start.
pub ready : ℕ → RateLimiter → ℕ
ready interval s = elim s.last [ none ↦ s.resume_at | some l ↦ max s.resume_at (l + interval) ]

-- `wait <= 0`
pub is_due : ℕ → RateLimiter → Bool
unfolding ready
is_due interval s = leb (ready interval s) s.now

pub pause : ℕ → RateLimiter → RateLimiter
pause seconds s = record s { resume_at = max s.resume_at (s.now + seconds) }

-- The start that ends `acquire`.
pub start : RateLimiter → RateLimiter
start s = record s {
  last = some s.now;
  turn = false;
  count = s.count + 1;
  starts = s.now ∷ s.starts;
}

pub data Step (interval : ℕ) (s : RateLimiter) : RateLimiter → Type 0 where
  passes : (ticks : ℕ) → Step interval s (record s { now = s.now + ticks })
  pauses : (seconds : ℕ) → Step interval s (pause seconds s)
  takes_turn :
      s.turn ≡ false → is_due interval s ≡ true → Step interval s (record s { turn = true })
  cancels : s.turn ≡ true → Step interval s (record s { turn = false })
  begins : s.turn ≡ true → Step interval s (start s)

pub data Reach (interval : ℕ) : RateLimiter → Type 0 where
  new : Reach interval fresh
  next : {s s' : RateLimiter} → Reach interval s → Step interval s s' → Reach interval s'
