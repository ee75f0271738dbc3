-- ===== src/Constants.antt =====
-- sdm/include/utils/constants.h: rounding to a multiple, on uint32_t and on floats.
use Prim.Native.Nat.{bit_and}
use platform_hardware_qcom_d.Base.{ℕ, ◌+◌, ◌-◌, ◌%◌, ◌^◌}
use platform_hardware_qcom_d.Base.Float.{Float, ◌+F◌, of_nat}

abbrev pub u32 : ℕ → ℕ
u32 n = n % 2 ^ 32

-- ~(factor - 1) of a uint32_t.
abbrev pub mask_of : ℕ → ℕ
mask_of factor = 2 ^ 32 - 1 - u32 (factor + 2 ^ 32 - 1)

-- FloorToMultipleOf and CeilToMultipleOf.
unfoldable pub floor_to_multiple_of : ℕ → ℕ → ℕ
floor_to_multiple_of value factor = bit_and value (mask_of factor)

unfoldable pub ceil_to_multiple_of : ℕ → ℕ → ℕ
ceil_to_multiple_of value factor =
    bit_and (u32 (value + u32 (factor + 2 ^ 32 - 1))) (mask_of factor)

module _ {F : Type 0} ⦃fl : Float F⦄ where
  -- ROUND_UP_ALIGN_DOWN and ROUND_UP_ALIGN_UP.
  unfoldable pub round_up_align_down : F → ℕ → F
  unfolding floor_to_multiple_of
  round_up_align_down value a = of_nat (floor_to_multiple_of (fl.to_u32 (value +F fl.half)) a)

  unfoldable pub round_up_align_up : F → ℕ → F
  unfolding ceil_to_multiple_of
  round_up_align_up value a = of_nat (ceil_to_multiple_of (fl.to_u32 (value +F fl.half)) a)
