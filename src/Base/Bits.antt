-- ===== src/Base/Bits.antt =====
-- The masks and unions of bits that the encoders and the parser use, as arithmetic.
use Prim.Native.Nat.{
  ℕ, zero, suc, ◌+◌, ◌*◌, ◌/◌, ◌%◌, ◌^◌, ◌≤◌, ◌<◌, min, max, bit_and, bit_or, digits, bitwise,
  bit_and-bitwise, bit_or-bitwise,
}
use native.Mathlib.Nat.{pow-suc, div-div-eq-div-mul}
use mathlib.Core.Path.{◌≡◌, refl, sym, ap, ap₂, ◌∙◌}
use native.Mathlib.Omega.{arith}

-- The fuel of the native definition does not matter above the first operand.
module _ (e : ℕ → ℕ) (d : ℕ → ℕ → ℕ) where
  digits_enough : (a m n b : ℕ) → a ≤ m → a ≤ n → digits e d m a b ≡ digits e d n a b
  digits_enough zero zero zero b hm hn = refl
  digits_enough zero zero (suc n) b hm hn = refl
  digits_enough zero (suc m) zero b hm hn = refl
  digits_enough zero (suc m) (suc n) b hm hn = refl
  digits_enough (suc a) zero n b hm hn = absurd (omega arith)
  digits_enough (suc a) (suc m) zero b hm hn = absurd (omega arith)
  digits_enough (suc a) (suc m) (suc n) b hm hn =
      ap (λ (t : ℕ). t * 2 + d (suc a % 2) (b % 2))
        (digits_enough (suc a / 2) m n (b / 2) (omega arith) (omega arith))

  -- One digit, with no fuel in sight.
  bitwise_digit :
      (a b : ℕ)
      → e (b / 2) * 2 + d 0 (b % 2) ≡ e b
      → bitwise e d a b ≡ bitwise e d (a / 2) (b / 2) * 2 + d (a % 2) (b % 2)
  bitwise_digit zero b h = sym h
  bitwise_digit (suc a) b h =
      ap (λ (t : ℕ). t * 2 + d (suc a % 2) (b % 2))
        (digits_enough (suc a / 2) a (suc a / 2) (b / 2) (omega arith) (omega arith))

pub and_digit : (a b : ℕ) → bit_and a b ≡ bit_and (a / 2) (b / 2) * 2 + min (a % 2) (b % 2)
and_digit a b =
    rw (bit_and-bitwise a b, bit_and-bitwise (a / 2) (b / 2))
      (bitwise_digit (λ b. 0) min a b (omega arith))

pub or_digit : (a b : ℕ) → bit_or a b ≡ bit_or (a / 2) (b / 2) * 2 + max (a % 2) (b % 2)
or_digit a b =
    rw (bit_or-bitwise a b, bit_or-bitwise (a / 2) (b / 2))
      (bitwise_digit (λ b. b) max a b (omega arith))

-- No bits are masked by 0.
and_zero_below : (n a : ℕ) → a ≤ n → bit_and a 0 ≡ 0
and_zero_below n zero h = bit_and-bitwise 0 0
and_zero_below zero (suc a) h = absurd (omega arith)
and_zero_below (suc n) (suc a) h =
    omega (arith, and_digit (suc a) 0, and_zero_below n (suc a / 2) (omega arith))

pub and_zero : (a : ℕ) → bit_and a 0 ≡ 0
and_zero a = and_zero_below a a (omega arith)

and_one : (a : ℕ) → bit_and a 1 ≡ a % 2
and_one a = omega (arith, and_digit a 1, and_zero (a / 2))

-- One more digit of a mask that is all ones.
and_ones :
    (m n a : ℕ) → ((b : ℕ) → bit_and b m ≡ b % n) → bit_and a (2 * m + 1) ≡ a / 2 % n * 2 + a % 2
and_ones m n a h =
    let half : (2 * m + 1) / 2 ≡ m = omega arith in
    let low : (2 * m + 1) % 2 ≡ 1 = omega arith in
    let rest : bit_and (a / 2) ((2 * m + 1) / 2) ≡ a / 2 % n =
      ap (λ (t : ℕ). bit_and (a / 2) t) half ∙ h (a / 2) in
    omega (arith, and_digit a (2 * m + 1))

and_mask2 : (a : ℕ) → bit_and a 3 ≡ a % 4
and_mask2 a = omega (arith, and_ones 1 2 a and_one)

and_mask3 : (a : ℕ) → bit_and a 7 ≡ a % 8
and_mask3 a = omega (arith, and_ones 3 4 a and_mask2)

and_mask4 : (a : ℕ) → bit_and a 15 ≡ a % 16
and_mask4 a = omega (arith, and_ones 7 8 a and_mask3)

and_mask5 : (a : ℕ) → bit_and a 31 ≡ a % 32
and_mask5 a = omega (arith, and_ones 15 16 a and_mask4)

and_mask6 : (a : ℕ) → bit_and a 63 ≡ a % 64
and_mask6 a = omega (arith, and_ones 31 32 a and_mask5)

-- `x & 0x7f` and `x & 0xff`, for any x.
pub and_mask7 : (a : ℕ) → bit_and a 127 ≡ a % 128
and_mask7 a = omega (arith, and_ones 63 64 a and_mask6)

pub and_mask8 : (a : ℕ) → bit_and a 255 ≡ a % 256
and_mask8 a = omega (arith, and_ones 127 128 a and_mask7)

-- The bit above the first `s` ones.
and_power : (s a : ℕ) → bit_and a (2 ^ s) ≡ a / 2 ^ s % 2 * 2 ^ s
and_power zero a = omega (arith, and_one a)
and_power (suc s) a =
    let double : 2 ^ suc s ≡ 2 * 2 ^ s = omega (arith, pow-suc 2 s) in
    let half : 2 ^ suc s / 2 ≡ 2 ^ s = omega arith in
    let even : 2 ^ suc s % 2 ≡ 0 = omega arith in
    let bit : a / 2 ^ suc s ≡ a / 2 / 2 ^ s =
      ap (λ (t : ℕ). a / t) double ∙ sym (div-div-eq-div-mul a 2 (2 ^ s)) in
    let rest : bit_and (a / 2) (2 ^ suc s / 2) ≡ a / 2 / 2 ^ s % 2 * 2 ^ s =
      ap (λ (t : ℕ). bit_and (a / 2) t) half ∙ and_power s (a / 2) in
    let at : a / 2 ^ suc s % 2 * 2 ^ suc s ≡ a / 2 / 2 ^ s % 2 * (2 * 2 ^ s) =
      ap₂ (λ (q d : ℕ). q % 2 * d) bit double in
    omega (arith, and_digit a (2 ^ suc s))

-- `x & 0x80`, for a byte.
pub and_top : (a : ℕ) → a < 256 → bit_and a 128 ≡ a / 128 * 128
and_top a h = omega (arith, and_power 7 a)

zero_or : (b : ℕ) → bit_or 0 b ≡ b
zero_or b = bit_or-bitwise 0 b

halve : (b : ℕ) → 2 * b / 2 ≡ b
halve b = omega arith

-- A union with bits that lie above the first operand is a sum.
pub or_above : (s a c : ℕ) → a < 2 ^ s → bit_or a (c * 2 ^ s) ≡ a + c * 2 ^ s
or_above zero a c h = ground (arith, zero_or (c * 1))
or_above (suc s) a c h =
    let e : c * 2 ^ suc s ≡ 2 * (c * 2 ^ s) = omega (arith, ap (λ (t : ℕ). c * t) (pow-suc 2 s)) in
    rw e (
      omega (
        arith,
        or_digit a (2 * (c * 2 ^ s)),
        ap (λ (t : ℕ). bit_or (a / 2) t) (halve (c * 2 ^ s)),
        or_above s (a / 2) c (omega (arith, pow-suc 2 s)),
      ))

-- `x |= 0x80`, for x below 0x80.
pub or_top : (a : ℕ) → a < 128 → bit_or a 128 ≡ a + 128
or_top a h = or_above 7 a 1 h
