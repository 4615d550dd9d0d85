-- ===== src/Sources/SecLimiter/Examples.antt =====
-- Two requests and a pause of the limiter of sources/sec_limiter.py.
use delist_detection.Prelude.{◌≡◌, ◌+◌, refl, true, false}
use delist_detection.Sources.SecLimiter.{
  RateLimiter, fresh, is_due, start, passes, takes_turn, begins, Reach, new, next,
}
use delist_detection.Sources.SecLimiter.Spacing.{IsLimited, Reach-IsLimited}

abbrev held : RateLimiter
held = record fresh { turn = true }

abbrev first_start : RateLimiter
first_start = start held

abbrev later : RateLimiter
later = record first_start { now = first_start.now + 5 }

due_at_once : is_due 4 fresh ≡ true
unfolding is_due
due_at_once = refl

due_later : is_due 4 later ≡ true
unfolding is_due start
due_later = refl

free_later : later.turn ≡ false
unfolding start
free_later = refl

two_requests : Reach 4 (start (record later { turn = true }))
two_requests =
    next
      (next (next (next (next new (takes_turn refl due_at_once)) (begins refl)) (passes 5))
        (takes_turn free_later due_later))
      (begins refl)

Reach-IsLimited_example : IsLimited 4 (start (record later { turn = true }))
Reach-IsLimited_example = Reach-IsLimited two_requests
