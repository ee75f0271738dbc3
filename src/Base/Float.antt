-- ===== src/Base/Float.antt =====
-- The float arithmetic of the C++ implementation, as an interface. A coordinate has the type `F`,
-- and the code is translated over these operations, so nothing is rounded by the model.
use Prim.Native.Nat.{ℕ}
use mathlib.Core.Path.{◌≡◌}
use mathlib.Core.Bool.{Bool}
use platform_hardware_qcom_d.Base.Int.{ℤ, pos}
use platform_hardware_qcom_d.Base.Tests.{ltb, leb, ◌==◌, if◌then◌else◌}

pub record Float (F : Type 0) : Type 0 where
  pub add : F → F → F
  pub sub : F → F → F
  pub mul : F → F → F
  pub div : F → F → F
  pub lt : F → F → Bool
  pub le : F → F → Bool
  pub eq : F → F → Bool
  -- FLOAT(n) of an integer, and 0.5f.
  pub of_int : ℤ → F
  pub half : F
  -- INT, UINT32 and UINT8 of a float, and the functions of math.h.
  pub to_int : F → ℤ
  pub to_u32 : F → ℕ
  pub to_u8 : F → ℕ
  pub round : F → F
  pub ceil : F → F
  pub log2 : F → F

module _ {F : Type 0} ⦃fl : Float F⦄ where
  infixl 65 ◌+F◌ ◌-F◌
  infixl 70 ◌*F◌ ◌/F◌
  abbrev pub ◌+F◌ : F → F → F
  ◌+F◌ = fl.add

  abbrev pub ◌-F◌ : F → F → F
  ◌-F◌ = fl.sub

  abbrev pub ◌*F◌ : F → F → F
  ◌*F◌ = fl.mul

  abbrev pub ◌/F◌ : F → F → F
  ◌/F◌ = fl.div

  abbrev pub lt_F : F → F → Bool
  lt_F = fl.lt

  abbrev pub le_F : F → F → Bool
  le_F = fl.le

  abbrev pub eq_F : F → F → Bool
  eq_F = fl.eq

  -- FLOAT of an unsigned number.
  abbrev pub of_nat : ℕ → F
  of_nat n = fl.of_int (pos n)

  -- std::max and std::min, which return the first argument on a tie.
  abbrev pub max_F : F → F → F
  max_F a b = if fl.lt a b then b else a

  abbrev pub min_F : F → F → F
  min_F a b = if fl.lt b a then b else a

-- The comparisons of floats that are not NaN follow one total order: `rank` numbers the values of
-- the format in that order, and gives both zeros one number.
pub record IsOrdered {F : Type 0} (fl : Float F) : Type 0 where
  pub rank : F → ℕ
  pub lt_rank : (a b : F) → fl.lt a b ≡ ltb (rank a) (rank b)
  pub le_rank : (a b : F) → fl.le a b ≡ leb (rank a) (rank b)
  pub eq_rank : (a b : F) → fl.eq a b ≡ (rank a == rank b)
