-- ===== src/Floats.antt =====
-- Binary floating-point numbers as the program uses them: an interface, since their arithmetic is not
-- the program's own.
pub mod Hundredths
use delist_detection.Prelude.{◌≡◌, Bool, true, false, Option, none, some}

-- The constants that the program's value code writes out.
pub data Literal : Type 0 where
  nought one minus_one minus_half half tenth minus_thirty minus_fifty_five : Literal

pub record Floats : Type 1 where
  pub Float : Type 0
  pub nan : Float
  pub literal : Literal → Float
  pub add : Float → Float → Float
  pub sub : Float → Float → Float
  pub mul : Float → Float → Float
  pub div : Float → Float → Float
  pub lt : Float → Float → Bool
  pub le : Float → Float → Bool
  pub is_nan : Float → Bool

-- What is documented of them: a constant is a number, NaN is none, and arithmetic carries a NaN on.
pub record IsFloats (F : Floats) : Type 0 where
  pub nan_is : F.is_nan F.nan ≡ true
  pub literal_is : (l : Literal) → F.is_nan (F.literal l) ≡ false
  pub add_carries : (a b : F.Float) → F.is_nan b ≡ true → F.is_nan (F.add a b) ≡ true
  pub sub_carries : (a b : F.Float) → F.is_nan a ≡ true → F.is_nan (F.sub a b) ≡ true
  pub mul_carries : (a b : F.Float) → F.is_nan a ≡ true → F.is_nan (F.mul a b) ≡ true

-- `price is not None and price > 0`
unfoldable pub is_valid : (F : Floats) → Option F.Float → Bool
is_valid F none = false
is_valid F (some price) = F.lt (F.literal nought) price
