-- ===== src/Gralloc/Alignment.antt =====
-- gr_utils.h and gr_utils.cpp: ALIGN, and the alignment of the size that GetSize computes.
use platform_hardware_qcom_d.Base.{
  ℕ, ◌+◌, ◌-◌, ◌*◌, ◌≤◌, ◌≡◌, refl, ap, ◌∙◌, arith, Bool-cases, Option-cases, ◌||◌, inl, inr,
}
use mathlib.Core.Path.{subst, sym}
use Prim.Native.Nat.{◌∣◌, ◌^◌, bit_and}
use platform_hardware_qcom_d.Base.Bits.{two_pow_less, multiple-bit_and}
use native.Mathlib.Nat.{
  dvd-add, dvd_refl, dvd-mul_left, dvd-mod_iff, dvd-mul_right_of_dvd, dvd-zero,
}
use platform_hardware_qcom_d.Gralloc.{PixelFormat, Usage, BufferInfo}
use platform_hardware_qcom_d.Gralloc.Words.{align, word, word_modulus}
use platform_hardware_qcom_d.Gralloc.Formats.{is_gpu_flag_supported}
use platform_hardware_qcom_d.Gralloc.Dimensions.{Environment}
use platform_hardware_qcom_d.Gralloc.Size.{get_data_alignment, get_size, is_tiled, unaligned_size}

-- A power of two that divides 2 ^ 32.
abbrev pub IsPowerOfTwo : ℕ → Type 0
IsPowerOfTwo a = (k : ℕ) × (k ≤ 32) × (a ≡ 2 ^ k)

mask-multiple : (k : ℕ) → k ≤ 32 → (q : ℕ) × (word (word_modulus - 2 ^ k) ≡ q * 2 ^ k)
mask-multiple k h = let (m, e, positive) = two_pow_less 32 k h in (m, omega (arith, e, positive))

two_pow-align : (x k : ℕ) → k ≤ 32 → (2 ^ k) ∣ align x (2 ^ k)
unfolding align
two_pow-align x k h =
    let (q, mask) = mask-multiple k h in
    let (r, common) = multiple-bit_and k (word (x + (2 ^ k - 1))) q in
    rw (ap (bit_and (word (x + (2 ^ k - 1)))) mask ∙ common) (dvd-mul_left (2 ^ k) r)

pub dvd-align : (x a : ℕ) → IsPowerOfTwo a → a ∣ align x a
dvd-align x a (k, h, e) = subst (λ z. z ∣ align x z) (sym e) (two_pow-align x k h)

dvd-word_modulus : (a : ℕ) → IsPowerOfTwo a → a ∣ word_modulus
dvd-word_modulus a (k, h, e) =
    let (m, eq, _) = two_pow_less 32 k h in
    rw (e, eq) (dvd-add (2 ^ k) (dvd-mul_left (2 ^ k) m) (dvd_refl (2 ^ k)))

module _ {M : Type 0} where
  get_data_alignment-IsPowerOfTwo :
      (env : Environment M) (format : PixelFormat) (usage : Usage)
      → IsPowerOfTwo env.page_size
      → IsPowerOfTwo (get_data_alignment env format usage)
  unfolding get_data_alignment
  get_data_alignment-IsPowerOfTwo env format usage pages = elim (Bool-cases usage.protected) [
    | inl p ↦ elim (Bool-cases (usage.camera_output || usage.secure_display)) [
      | inl c ↦ rw (p, c) (21, omega arith, refl)
      | inr c ↦ elim (Bool-cases env.options.master_side_cp) [
        | inl m ↦ rw (p, c, m) (12, omega arith, refl)
        | inr m ↦ rw (p, c, m) (20, omega arith, refl)
      ]
    ]
    | inr p ↦ elim (Bool-cases (is_tiled format)) [
      | inl t ↦ rw (p, t) (13, omega arith, refl)
      | inr t ↦ rw (p, t) pages
    ]
  ]

  -- The size that GetSize computes is a multiple of the alignment that GetDataAlignment gives for
  -- the same format and usage, also where the multiplication by the layers wraps around, provided
  -- that the page size is a power of two.
  pub dvd-get_size :
      (env : Environment M) (info : BufferInfo) (w h : ℕ)
      → IsPowerOfTwo env.page_size
      → get_data_alignment env info.format info.usage ∣ get_size env info w h
  unfolding get_size
  dvd-get_size env info w h pages = elim (Bool-cases (is_gpu_flag_supported info.usage)) [
    | inl e ↦ elim (Option-cases (unaligned_size env info w h)) [
      | inl k ↦ rw (e, k) (dvd-zero _)
      | inr (size, k) ↦
          let a = get_data_alignment env info.format info.usage in
          let power = get_data_alignment-IsPowerOfTwo env info.format info.usage pages in
          rw (e, k)
            ((dvd-mod_iff a (dvd-word_modulus a power)).1
              (dvd-mul_right_of_dvd a (dvd-align size a power) info.layer_count))
    ]
    | inr e ↦ rw (e) (dvd-zero _)
  ]
