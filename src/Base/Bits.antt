-- ===== src/Base/Bits.antt =====
-- `|` and `^` of a word with a single bit, seen bit by bit.
use Prim.Native.Nat.{
  ℕ, zero, suc, ◌+◌, ◌-◌, ◌*◌, ◌/◌, ◌%◌, ◌^◌, ◌≤◌, ◌<◌, max, bit_or, bit_xor, digits, differ,
  bit_or-bitwise, bit_xor-bitwise,
}
use mathlib.Core.Path.{◌≡◌, refl, sym, ap, ◌∙◌}
use mathlib.Core.Bool.{Bool, true, false, not}
use native.Mathlib.Omega.{arith}
use native.Mathlib.Nat.{pow-suc}
use cs.Base.Tests.{◌==◌, if◌then◌else◌}

-- Bit `i` of a word.
unfoldable pub test_bit : ℕ → ℕ → Bool
test_bit s zero = (s % 2) == 1
test_bit s (suc i) = test_bit (s / 2) i

module _ (z : ℕ → ℕ) (f : ℕ → ℕ → ℕ) where
  digits-zero : (n b : ℕ) → digits z f n 0 b ≡ z b
  digits-zero zero b = refl
  digits-zero (suc n) b = refl

  -- Fuel beyond the word itself changes nothing.
  digits_spare : (k n a b : ℕ) → a ≤ n → digits z f (n + k) a b ≡ digits z f n a b
  digits_spare k n zero b h = rw (digits-zero (n + k) b, digits-zero n b) refl
  digits_spare k zero (suc a) b h = elim h [ ]
  digits_spare k (suc n) (suc a) b h =
      let more : suc n + k ≡ suc (n + k) = omega arith in
      let ih = digits_spare k n (suc a / 2) (b / 2) (omega arith) in rw (more, ih) refl

  digits_half : (a b : ℕ) → digits z f a (suc a / 2) b ≡ digits z f (suc a / 2) (suc a / 2) b
  digits_half a b =
      let fuel : suc a / 2 + (a - suc a / 2) ≡ a = omega arith in
      ap (λ n. digits z f n (suc a / 2) b) (sym fuel)
      ∙ digits_spare (a - suc a / 2) (suc a / 2) (suc a / 2) b (omega arith)

or_digit : (a b : ℕ) → bit_or a b ≡ bit_or (a / 2) (b / 2) * 2 + max (a % 2) (b % 2)
or_digit zero b = simp bit_or-bitwise (omega arith)
or_digit (suc a) b = simp bit_or-bitwise (omega (arith, digits_half (λ y. y) max a (b / 2)))

xor_digit : (a b : ℕ) → bit_xor a b ≡ bit_xor (a / 2) (b / 2) * 2 + differ (a % 2) (b % 2)
xor_digit zero b = simp bit_xor-bitwise (omega arith)
xor_digit (suc a) b = simp bit_xor-bitwise (omega (arith, digits_half (λ y. y) differ a (b / 2)))

differ-zero : (a : ℕ) → differ a 0 ≡ a
differ-zero zero = refl
differ-zero (suc a) = refl

bit_or-zero_fuel : (n a : ℕ) → a ≤ n → bit_or a 0 ≡ a
bit_or-zero_fuel zero zero h = refl
bit_or-zero_fuel zero (suc a) h = elim h [ ]
bit_or-zero_fuel (suc n) a h = omega (arith, or_digit a 0, bit_or-zero_fuel n (a / 2) (omega arith))

bit_xor-zero_fuel : (n a : ℕ) → a ≤ n → bit_xor a 0 ≡ a
bit_xor-zero_fuel zero zero h = refl
bit_xor-zero_fuel zero (suc a) h = elim h [ ]
bit_xor-zero_fuel (suc n) a h =
    omega (arith, xor_digit a 0, differ-zero (a % 2), bit_xor-zero_fuel n (a / 2) (omega arith))

bit_or-zero : (a : ℕ) → bit_or a 0 ≡ a
bit_or-zero a = bit_or-zero_fuel a a (omega arith)

bit_xor-zero : (a : ℕ) → bit_xor a 0 ≡ a
bit_xor-zero a = bit_xor-zero_fuel a a (omega arith)

differ_one : (a : ℕ) → a < 2 → differ a 1 ≡ 1 - a
differ_one zero h = refl
differ_one (suc zero) h = refl
differ_one (suc (suc a)) h = absurd (omega arith)

-- The lowest bit set or flipped, and a higher one: what is left of the word, and its lowest bit.
or_low : (s : ℕ) → (bit_or s 1 / 2 ≡ s / 2) × (bit_or s 1 % 2 ≡ 1)
or_low s = omega (arith, or_digit s 1, bit_or-zero (s / 2))

xor_low : (s : ℕ) → (bit_xor s 1 / 2 ≡ s / 2) × (bit_xor s 1 % 2 ≡ 1 - s % 2)
xor_low s = omega (arith, xor_digit s 1, differ_one (s % 2) (omega arith), bit_xor-zero (s / 2))

half_pow : (p : ℕ) → (2 ^ suc p / 2 ≡ 2 ^ p) × (2 ^ suc p % 2 ≡ 0)
half_pow p = omega (arith, pow-suc 2 p)

or_high :
    (s p : ℕ)
    → (bit_or s (2 ^ suc p) / 2 ≡ bit_or (s / 2) (2 ^ p)) × (bit_or s (2 ^ suc p) % 2 ≡ s % 2)
or_high s p = rw (or_digit s (2 ^ suc p), (half_pow p).0, (half_pow p).1) (omega arith)

xor_high :
    (s p : ℕ)
    → (bit_xor s (2 ^ suc p) / 2 ≡ bit_xor (s / 2) (2 ^ p)) × (bit_xor s (2 ^ suc p) % 2 ≡ s % 2)
xor_high s p =
    rw (xor_digit s (2 ^ suc p), (half_pow p).0, (half_pow p).1, differ-zero) (omega arith)

suc-==-suc : (p i : ℕ) → (suc p == suc i) ≡ (p == i)
suc-==-suc p i = ground arith

-- Setting a bit sets it, and leaves the others.
pub test_bit-bit_or :
    (p s i : ℕ) → test_bit (bit_or s (2 ^ p)) i ≡ (if p == i then true else test_bit s i)
unfolding test_bit
test_bit-bit_or zero s zero = ground (arith, or_low s)
test_bit-bit_or zero s (suc i) = rw (or_low s).0 (ground arith)
test_bit-bit_or (suc p) s zero = rw (or_high s p).1 (ground arith)
test_bit-bit_or (suc p) s (suc i) = rw ((or_high s p).0, suc-==-suc) (test_bit-bit_or p (s / 2) i)

-- Flipping a bit flips it, and leaves the others.
pub test_bit-bit_xor :
    (p s i : ℕ)
    → test_bit (bit_xor s (2 ^ p)) i ≡ (if p == i then not (test_bit s i) else test_bit s i)
unfolding test_bit
test_bit-bit_xor zero s zero = ground (arith, xor_low s)
test_bit-bit_xor zero s (suc i) = rw (xor_low s).0 (ground arith)
test_bit-bit_xor (suc p) s zero = rw (xor_high s p).1 (ground arith)
test_bit-bit_xor (suc p) s (suc i) =
    rw ((xor_high s p).0, suc-==-suc) (test_bit-bit_xor p (s / 2) i)

pub test_bit-zero : (i : ℕ) → test_bit 0 i ≡ false
unfolding test_bit
test_bit-zero zero = refl
test_bit-zero (suc i) = test_bit-zero i
