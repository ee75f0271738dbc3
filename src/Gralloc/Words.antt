-- ===== src/Gralloc/Words.antt =====
-- gr_utils.h: the arithmetic of `unsigned int`, and ALIGN.
use platform_hardware_qcom_d.Base.{ℕ, ◌+◌, ◌-◌, ◌*◌, ◌%◌}
use Prim.Native.Nat.{bit_and}

-- 2 ^ 32.
abbrev pub word_modulus : ℕ
word_modulus = 4294967296

abbrev pub word : ℕ → ℕ
word x = x % word_modulus

infixl 65 ◌+ʷ◌
infixl 70 ◌*ʷ◌
abbrev pub ◌+ʷ◌ : ℕ → ℕ → ℕ
x +ʷ y = word (x + y)

abbrev pub ◌*ʷ◌ : ℕ → ℕ → ℕ
x *ʷ y = word (x * y)

-- ALIGN: (x + align - 1) & ~(align - 1).
unfoldable pub align : ℕ → ℕ → ℕ
align x a = bit_and (word (x + (a - 1))) (word (word_modulus - a))
