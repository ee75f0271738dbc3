-- ===== src/Base/Bits.antt =====
-- Facts on the bits of native numbers, from the definition of the operations digit by digit.
use Prim.Native.Nat.{
  ℕ, zero, suc, ◌+◌, ◌*◌, ◌/◌, ◌%◌, ◌^◌, ◌-◌, ◌≤◌, ◌<◌, min, max, bit_and, bit_or, digits,
  bit_and-bitwise, bit_or-bitwise,
}
use mathlib.Core.Path.{◌≡◌, refl, sym, ap, ◌∙◌}
use native.Mathlib.Omega.{arith}
use native.Mathlib.Nat.{pow-suc, mul_assoc}

-- The count of digits to go does not matter where it is large enough.
digits_count :
    (z : ℕ → ℕ) (f : ℕ → ℕ → ℕ) (n m a b : ℕ) → a ≤ n → a ≤ m → digits z f n a b ≡ digits z f m a b
digits_count z f zero zero a b p q = refl
digits_count z f zero (suc m) zero b p q = refl
digits_count z f zero (suc m) (suc a) b p q = absurd (omega arith)
digits_count z f (suc n) zero zero b p q = refl
digits_count z f (suc n) zero (suc a) b p q = absurd (omega arith)
digits_count z f (suc n) (suc m) zero b p q = refl
digits_count z f (suc n) (suc m) (suc a) b p q =
    ap (λ d. d * 2 + f (suc a % 2) (b % 2))
      (digits_count z f n m (suc a / 2) (b / 2) (omega arith) (omega arith))

pub zero-bit_and : (b : ℕ) → bit_and 0 b ≡ 0
zero-bit_and b = bit_and-bitwise 0 b

zero-bit_or : (b : ℕ) → bit_or 0 b ≡ b
zero-bit_or b = bit_or-bitwise 0 b

and_cons : (a b : ℕ) → bit_and a b ≡ bit_and (a / 2) (b / 2) * 2 + min (a % 2) (b % 2)
and_cons zero b = omega (arith, zero-bit_and b, zero-bit_and (b / 2))
and_cons (suc a) b =
    bit_and-bitwise (suc a) b
    ∙ ap (λ d. d * 2 + min (suc a % 2) (b % 2))
        (digits_count (λ x. zero) min a (suc a / 2) (suc a / 2) (b / 2) (omega arith) (omega arith)
          ∙ sym (bit_and-bitwise (suc a / 2) (b / 2)))

or_cons : (a b : ℕ) → bit_or a b ≡ bit_or (a / 2) (b / 2) * 2 + max (a % 2) (b % 2)
or_cons zero b = omega (arith, zero-bit_or b, zero-bit_or (b / 2))
or_cons (suc a) b =
    bit_or-bitwise (suc a) b
    ∙ ap (λ d. d * 2 + max (suc a % 2) (b % 2))
        (digits_count (λ x. x) max a (suc a / 2) (suc a / 2) (b / 2) (omega arith) (omega arith)
          ∙ sym (bit_or-bitwise (suc a / 2) (b / 2)))

bit_and-zero_below : (n a : ℕ) → a ≤ n → bit_and a 0 ≡ 0
bit_and-zero_below n zero h = zero-bit_and 0
bit_and-zero_below zero (suc a) h = absurd (omega arith)
bit_and-zero_below (suc n) (suc a) h =
    omega (arith, and_cons (suc a) 0, bit_and-zero_below n (suc a / 2) (omega arith))

bit_and-zero : (a : ℕ) → bit_and a 0 ≡ 0
bit_and-zero a = bit_and-zero_below a a (omega arith)

bit_or-zero_below : (n a : ℕ) → a ≤ n → bit_or a 0 ≡ a
bit_or-zero_below n zero h = zero-bit_or 0
bit_or-zero_below zero (suc a) h = absurd (omega arith)
bit_or-zero_below (suc n) (suc a) h =
    omega (arith, or_cons (suc a) 0, bit_or-zero_below n (suc a / 2) (omega arith))

bit_or-zero : (a : ℕ) → bit_or a 0 ≡ a
bit_or-zero a = bit_or-zero_below a a (omega arith)

-- What a number written with its lowest digit has for a half and for that digit.
half_lem : (a m r : ℕ) → a ≡ m * 2 + r → r < 2 → (a / 2 ≡ m) × (a % 2 ≡ r)
half_lem a m r e h = (omega arith, omega arith)

absorb_below : (n s x : ℕ) → s ≤ n → bit_and (bit_or s x) s ≡ s
absorb_below n zero x h = bit_and-zero (bit_or 0 x)
absorb_below zero (suc s) x h = absurd (omega arith)
absorb_below (suc n) (suc s) x h =
    let low : max (suc s % 2) (x % 2) < 2 = omega arith in
    let (half, digit) =
      half_lem (bit_or (suc s) x) (bit_or (suc s / 2) (x / 2)) (max (suc s % 2) (x % 2))
        (or_cons (suc s) x) low in
    let ih = absorb_below n (suc s / 2) (x / 2) (omega arith) in
    and_cons (bit_or (suc s) x) (suc s) ∙ rw (half, digit, ih) (omega arith)

-- A number that has the bits of s has them in common with s.
pub bit_or-absorb : (s x : ℕ) → bit_and (bit_or s x) s ≡ s
bit_or-absorb s x = absorb_below s s x (omega arith)

-- A number has all its bits in common with itself.
pub bit_and_self : (s : ℕ) → bit_and s s ≡ s
bit_and_self s = ap (λ z. bit_and z s) (sym (bit_or-zero s)) ∙ bit_or-absorb s 0

doubled : (k q : ℕ) → q * 2 ^ suc k ≡ q * 2 ^ k * 2 + 0
doubled k q = ap (λ z. q * z) (pow-suc 2 k) ∙ (sym (mul_assoc q (2 ^ k) 2) ∙ omega arith)

-- A multiple of a power of two has a multiple of it in common with any number.
pub multiple-bit_and : (k y q : ℕ) → (r : ℕ) × (bit_and y (q * 2 ^ k) ≡ r * 2 ^ k)
multiple-bit_and zero y q = (bit_and y (q * 1), omega arith)
multiple-bit_and (suc k) y q =
    let (r, e) = multiple-bit_and k (y / 2) q in
    let (half, digit) = half_lem (q * 2 ^ suc k) (q * 2 ^ k) 0 (doubled k q) (omega arith) in
    (r, and_cons y (q * 2 ^ suc k) ∙ rw (half, digit, e) (omega (arith, doubled k r)))

two_pow_positive : (k : ℕ) → 1 ≤ 2 ^ k
two_pow_positive zero = omega arith
two_pow_positive (suc k) = omega (arith, pow-suc 2 k, two_pow_positive k)

-- 2 ^ n less 2 ^ k is a multiple of 2 ^ k.
pub two_pow_less : (n k : ℕ) → k ≤ n → (m : ℕ) × (2 ^ n ≡ m * 2 ^ k + 2 ^ k) × (1 ≤ 2 ^ k)
two_pow_less n zero h = (2 ^ n - 1, omega (arith, two_pow_positive n), omega arith)
two_pow_less zero (suc k) h = absurd (omega arith)
two_pow_less (suc n) (suc k) h =
    let (m, e, _) = two_pow_less n k (omega arith) in
    (m, omega (arith, pow-suc 2 n, pow-suc 2 k, doubled k m), two_pow_positive (suc k))
