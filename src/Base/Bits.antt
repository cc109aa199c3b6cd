-- ===== src/Base/Bits.antt =====
-- Laws of the bitwise operations that the header codec uses: masks of low bits, and the union of
-- disjoint fields. The native operations compute at numerals and have only their definition.
use Prim.Native.Nat.{
  ℕ, zero, suc, ◌+◌, ◌*◌, ◌/◌, ◌%◌, ◌^◌, ◌≤◌, ◌<◌, max, digits, bit_and, bit_or, bit_or-bitwise,
}
use mathlib.Core.Path.{◌≡◌, refl}
use mathlib.Core.Bool.{Bool, true, ◌&&◌}
use native.Mathlib.Omega.{arith}
use native.Mathlib.Nat.{pow-suc}
use orv.Base.Tests.{nat_beq, nat_beq_iff}

-- The digit recursions do not depend on their fuel, if it reaches the first argument.
or_fuel : (a n m b : ℕ) → a ≤ n → a ≤ m → digits (λ y. y) max n a b ≡ digits (λ y. y) max m a b
or_fuel zero zero zero b hn hm = refl
or_fuel zero zero (suc m) b hn hm = refl
or_fuel zero (suc n) zero b hn hm = refl
or_fuel zero (suc n) (suc m) b hn hm = refl
or_fuel (suc a) zero m b hn hm = absurd (omega arith)
or_fuel (suc a) (suc n) zero b hn hm = absurd (omega arith)
or_fuel (suc a) (suc n) (suc m) b hn hm =
    omega (arith, or_fuel (suc a / 2) n m (b / 2) (omega arith) (omega arith))

or_step : (a b : ℕ) → bit_or a b ≡ bit_or (a / 2) (b / 2) * 2 + max (a % 2) (b % 2)
or_step zero b = simp bit_or-bitwise (omega arith)
or_step (suc a) b =
    simp bit_or-bitwise
      (omega (arith, or_fuel (suc a / 2) a (suc a / 2) (b / 2) (omega arith) (omega arith)))

or_zero_below : (n a : ℕ) → a ≤ n → bit_or a 0 ≡ a
or_zero_below n zero h = refl
or_zero_below zero (suc a) h = absurd (omega arith)
or_zero_below (suc n) (suc a) h =
    omega (arith, or_step (suc a) 0, or_zero_below n (suc a / 2) (omega arith))

or_double : (p r : ℕ) → bit_or (p * 2) r ≡ bit_or p (r / 2) * 2 + r % 2
or_double p r = ground (arith, or_step (p * 2) r)

regroup : (k q : ℕ) → q * (2 ^ k * 2) ≡ q * 2 ^ k * 2
regroup k q = omega arith

below_half : (k r : ℕ) → r < 2 ^ suc k → r / 2 < 2 ^ k
below_half k r h = omega (arith, pow-suc 2 k)

-- The union of a field shifted left by `k` with a value of `k` bits is their sum.
pub or_field : (k q r : ℕ) → r < 2 ^ k → bit_or (q * 2 ^ k) r ≡ q * 2 ^ k + r
or_field zero q r h =
    let e : r ≡ 0 = omega arith in rw e (omega (arith, or_zero_below (q * 1) (q * 1) (omega arith)))
or_field (suc k) q r h =
    rw (pow-suc 2 k, regroup k q)
      (omega (arith, or_double (q * 2 ^ k) r, or_field k q (r / 2) (below_half k r h)))

-- Two functions agree below a bound: by evaluation, for a small one.
agree_below : (f g : ℕ → ℕ) → ℕ → Bool
agree_below f g zero = true
agree_below f g (suc bound) = agree_below f g bound && nat_beq (f bound) (g bound)

agree_at : (f g : ℕ → ℕ) (bound x : ℕ) → x < bound → agree_below f g bound ≡ true → f x ≡ g x
unfolding agree_below
agree_at f g zero x lt same = absurd (omega arith)
agree_at f g (suc bound) x lt same =
    ground (arith, agree_at f g bound x, nat_beq_iff (f bound) (g bound))

byte_table : (f g : ℕ → ℕ) (x : ℕ) → agree_below f g 256 ≡ true → x < 256 → f x ≡ g x
byte_table f g x same lt = agree_at f g 256 x lt same

-- The masks of the codec, on bytes.
module _ (x : ℕ) (byte : x < 256) where
  pub and_low_nibble : bit_and x 15 ≡ x % 16
  unfolding agree_below
  and_low_nibble = byte_table (λ x. bit_and x 15) (λ x. x % 16) x refl byte

  pub and_low_seven : bit_and x 127 ≡ x % 128
  unfolding agree_below
  and_low_seven = byte_table (λ x. bit_and x 127) (λ x. x % 128) x refl byte

  pub low_seven_and : bit_and 127 x ≡ x % 128
  unfolding agree_below
  low_seven_and = byte_table (λ x. bit_and 127 x) (λ x. x % 128) x refl byte

  pub and_top_bit : bit_and x 128 ≡ x / 128 * 128
  unfolding agree_below
  and_top_bit = byte_table (λ x. bit_and x 128) (λ x. x / 128 * 128) x refl byte

  pub or_top_bit : bit_or 128 x ≡ 128 + x % 128
  unfolding agree_below
  or_top_bit = byte_table (λ x. bit_or 128 x) (λ x. 128 + x % 128) x refl byte
