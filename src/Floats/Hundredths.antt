-- ===== src/Floats/Hundredths.antt =====
-- Numbers in hundredths, each a difference of two counts, with NaN as `none`: an instance of the interface.
use delist_detection.Prelude.{
  ℕ, ◌+◌, ◌-◌, ◌*◌, ◌/◌, refl, arith, Bool, true, false, Option, none, some, ltb, leb,
}
use delist_detection.Floats.{
  Floats, IsFloats, Literal, nought, one, minus_one, minus_half, half, tenth, minus_thirty,
  minus_fifty_five,
}

abbrev pub Hundredths : Type 0
Hundredths = Option (ℕ × ℕ)

abbrev constant : Literal → Hundredths
constant nought = some (0, 0)
constant one = some (100, 0)
constant minus_one = some (0, 100)
constant minus_half = some (0, 50)
constant half = some (50, 0)
constant tenth = some (10, 0)
constant minus_thirty = some (0, 30)
constant minus_fifty_five = some (0, 55)

abbrev plus : Hundredths → Hundredths → Hundredths
plus (some (p, n)) (some (q, m)) = some (p + q, n + m)
plus _ _ = none

abbrev minus : Hundredths → Hundredths → Hundredths
minus (some (p, n)) (some (q, m)) = some (p + m, n + q)
minus _ _ = none

abbrev times : Hundredths → Hundredths → Hundredths
times (some (p, n)) (some (q, m)) = some ((p * q + n * m) / 100, (p * m + n * q) / 100)
times _ _ = none

-- By a number above zero, as every division of the value code is.
abbrev over : Hundredths → Hundredths → Hundredths
over (some (p, n)) (some (q, m)) = some ((p * 100) / (q - m), (n * 100) / (q - m))
over _ _ = none

abbrev less : Hundredths → Hundredths → Bool
less (some (p, n)) (some (q, m)) = ltb (p + m) (q + n)
less _ _ = false

abbrev at_most : Hundredths → Hundredths → Bool
at_most (some (p, n)) (some (q, m)) = leb (p + m) (q + n)
at_most _ _ = false

abbrev is_none : Hundredths → Bool
is_none none = true
is_none (some x) = false

abbrev pub hundredths : Floats
hundredths = record {
  Float = Hundredths;
  nan = none;
  literal = constant;
  add = plus;
  sub = minus;
  mul = times;
  div = over;
  lt = less;
  le = at_most;
  is_nan = is_none;
}

pub hundredths-IsFloats : IsFloats hundredths
hundredths-IsFloats = record {
  nan_is = refl;
  literal_is = λ l. ground arith;
  add_carries = λ a b h. ground arith;
  sub_carries = λ a b h. ground arith;
  mul_carries = λ a b h. ground arith;
}
