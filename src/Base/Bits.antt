-- ===== src/Base/Bits.antt =====
-- `&`, `|` and `^` at every width, from the binary digits that the native operations stand for.
use Prim.Native.Nat.{ℕ, zero, suc, ◌+◌, ◌*◌, ◌/◌, ◌%◌, ◌^◌, ◌≤◌, ◌<◌, min, max}
use Prim.Native.Nat.{bit_and, bit_or, bit_xor, digits, bitwise, differ}
use Prim.Native.Nat.{bit_and-bitwise, bit_or-bitwise, bit_xor-bitwise}
use mathlib.Core.Path.{◌≡◌, refl, ap}
use native.Mathlib.Omega.{arith}
use native.Mathlib.Nat.{le_refl, pow-suc}

module _ (edge : ℕ → ℕ) (digit : ℕ → ℕ → ℕ) where
  -- Any fuel that is not below the first number gives the same digits.
  enough_fuel : (k l a b : ℕ) → a ≤ k → a ≤ l → digits edge digit k a b ≡ digits edge digit l a b
  enough_fuel zero zero a b p q = refl
  enough_fuel zero (suc l) zero b p q = refl
  enough_fuel zero (suc l) (suc a) b p q = absurd (omega arith)
  enough_fuel (suc k) zero zero b p q = refl
  enough_fuel (suc k) zero (suc a) b p q = absurd (omega arith)
  enough_fuel (suc k) (suc l) zero b p q = refl
  enough_fuel (suc k) (suc l) (suc a) b p q =
      rw (enough_fuel k l (suc a / 2) (b / 2) (omega arith) (omega arith))

  lowest_digit :
      (a b : ℕ)
      → bitwise edge digit (suc a) b
        ≡ bitwise edge digit (suc a / 2) (b / 2) * 2 + digit (suc a % 2) (b % 2)
  lowest_digit a b =
      omega (arith, enough_fuel a (suc a / 2) (suc a / 2) (b / 2) (omega arith) (le_refl _))

pub bit_and_digit : (a b : ℕ) → bit_and a b ≡ bit_and (a / 2) (b / 2) * 2 + min (a % 2) (b % 2)
bit_and_digit zero b = simp bit_and-bitwise (omega arith)
bit_and_digit (suc a) b = simp bit_and-bitwise (lowest_digit (λ y. 0) min a b)

pub bit_or_digit : (a b : ℕ) → bit_or a b ≡ bit_or (a / 2) (b / 2) * 2 + max (a % 2) (b % 2)
bit_or_digit zero b = simp bit_or-bitwise (omega arith)
bit_or_digit (suc a) b = simp bit_or-bitwise (lowest_digit (λ y. y) max a b)

differ_parity : (a b : ℕ) → a < 2 → b < 2 → differ a b ≡ (a + b) % 2
differ_parity zero zero p q = refl
differ_parity zero (suc zero) p q = refl
differ_parity (suc zero) zero p q = refl
differ_parity (suc zero) (suc zero) p q = refl
differ_parity zero (suc (suc b)) p q = absurd (omega arith)
differ_parity (suc zero) (suc (suc b)) p q = absurd (omega arith)
differ_parity (suc (suc a)) b p q = absurd (omega arith)

pub bit_xor_digit : (a b : ℕ) → bit_xor a b ≡ bit_xor (a / 2) (b / 2) * 2 + (a % 2 + b % 2) % 2
bit_xor_digit zero b = simp bit_xor-bitwise (omega arith)
bit_xor_digit (suc a) b = simp bit_xor-bitwise (
    omega (
      arith,
      lowest_digit (λ y. y) differ a b,
      differ_parity (suc a % 2) (b % 2) (omega arith) (omega arith),
    ))

-- A number has no digit in common with zero.
bit_and-zero_fuel : (k a : ℕ) → a ≤ k → bit_and a 0 ≡ 0
bit_and-zero_fuel k zero h = refl
bit_and-zero_fuel zero (suc a) h = absurd (omega arith)
bit_and-zero_fuel (suc k) (suc a) h =
    omega (arith, bit_and_digit (suc a) 0, bit_and-zero_fuel k (suc a / 2) (omega arith))

pub bit_and-zero : (a : ℕ) → bit_and a 0 ≡ 0
bit_and-zero a = bit_and-zero_fuel a a (le_refl _)

-- `x & 1`, `x & 3`, ..., digit by digit: a mask of low bits is a remainder.
pub bit_and-1 : (a : ℕ) → bit_and a 1 ≡ a % 2
bit_and-1 a = omega (arith, bit_and_digit a 1, bit_and-zero (a / 2))

pub bit_and-3 : (a : ℕ) → bit_and a 3 ≡ a % 4
bit_and-3 a = omega (arith, bit_and_digit a 3, bit_and-1 (a / 2))

pub bit_and-7 : (a : ℕ) → bit_and a 7 ≡ a % 8
bit_and-7 a = omega (arith, bit_and_digit a 7, bit_and-3 (a / 2))

pub bit_and-15 : (a : ℕ) → bit_and a 15 ≡ a % 16
bit_and-15 a = omega (arith, bit_and_digit a 15, bit_and-7 (a / 2))

pub bit_and-31 : (a : ℕ) → bit_and a 31 ≡ a % 32
bit_and-31 a = omega (arith, bit_and_digit a 31, bit_and-15 (a / 2))

pub bit_and-63 : (a : ℕ) → bit_and a 63 ≡ a % 64
bit_and-63 a = omega (arith, bit_and_digit a 63, bit_and-31 (a / 2))

pub bit_and-127 : (a : ℕ) → bit_and a 127 ≡ a % 128
bit_and-127 a = omega (arith, bit_and_digit a 127, bit_and-63 (a / 2))

pub bit_and-255 : (a : ℕ) → bit_and a 255 ≡ a % 256
bit_and-255 a = omega (
  arith,
  bit_and_digit a 255,
  bit_and_digit (a / 2) 127,
  bit_and_digit (a / 2 / 2) 63,
  bit_and-31 (a / 2 / 2 / 2),
)

pub bit_and-4095 : (a : ℕ) → bit_and a 4095 ≡ a % 4096
bit_and-4095 a = omega (
  arith,
  bit_and_digit a 4095,
  bit_and_digit (a / 2) 2047,
  bit_and_digit (a / 2 / 2) 1023,
  bit_and_digit (a / 2 / 2 / 2) 511,
  bit_and-255 (a / 2 / 2 / 2 / 2),
)

-- The bits that the flags and the half carry are read from.
pub bit_and-2 : (a : ℕ) → bit_and a 2 ≡ a / 2 % 2 * 2
bit_and-2 a = omega (arith, bit_and_digit a 2, bit_and-1 (a / 2))

pub bit_and-4 : (a : ℕ) → bit_and a 4 ≡ a / 4 % 2 * 4
bit_and-4 a = omega (arith, bit_and_digit a 4, bit_and-2 (a / 2))

pub bit_and-8 : (a : ℕ) → bit_and a 8 ≡ a / 8 % 2 * 8
bit_and-8 a = omega (arith, bit_and_digit a 8, bit_and-4 (a / 2))

pub bit_and-16 : (a : ℕ) → bit_and a 16 ≡ a / 16 % 2 * 16
bit_and-16 a = omega (arith, bit_and_digit a 16, bit_and-8 (a / 2))

pub bit_and-32 : (a : ℕ) → bit_and a 32 ≡ a / 32 % 2 * 32
bit_and-32 a = omega (arith, bit_and_digit a 32, bit_and-16 (a / 2))

pub bit_and-64 : (a : ℕ) → bit_and a 64 ≡ a / 64 % 2 * 64
bit_and-64 a = omega (arith, bit_and_digit a 64, bit_and-32 (a / 2))

pub bit_and-128 : (a : ℕ) → bit_and a 128 ≡ a / 128 % 2 * 128
bit_and-128 a = omega (arith, bit_and_digit a 128, bit_and-64 (a / 2))

pub bit_and-256 : (a : ℕ) → bit_and a 256 ≡ a / 256 % 2 * 256
bit_and-256 a = omega (arith, bit_and_digit a 256, bit_and-128 (a / 2))

pub ruleset masks =
    (bit_and-1, bit_and-3, bit_and-7, bit_and-15, bit_and-31, bit_and-255, bit_and-4095)

bit_or-zero_fuel : (k a : ℕ) → a ≤ k → bit_or a 0 ≡ a
bit_or-zero_fuel k zero h = refl
bit_or-zero_fuel zero (suc a) h = absurd (omega arith)
bit_or-zero_fuel (suc k) (suc a) h =
    omega (arith, bit_or_digit (suc a) 0, bit_or-zero_fuel k (suc a / 2) (omega arith))

double_pow : (q k : ℕ) → q * 2 ^ suc k ≡ 2 * (q * 2 ^ k)
double_pow q k = omega (arith, ap (λ (t : ℕ). q * t) (pow-suc 2 k))

-- `(q << k) | r` is a sum where `r` fits the low `k` bits.
pub bit_or-shift : (k q r : ℕ) → r < 2 ^ k → bit_or (q * 2 ^ k) r ≡ q * 2 ^ k + r
bit_or-shift zero q r h = ground (arith, bit_or-zero_fuel q q)
bit_or-shift (suc k) q r h =
    ground
      (arith, bit_or_digit (q * 2 ^ suc k) r, double_pow q k, pow-suc 2 k, bit_or-shift k q (r / 2))

-- A word from its two bytes, `(msb << 8) | lsb`.
pub bit_or-word : (msb lsb : ℕ) → lsb < 256 → bit_or (msb * 256) lsb ≡ msb * 256 + lsb
bit_or-word msb lsb h = bit_or-shift 8 msb lsb h

-- The same with the mask on the left, for the masks of the flags.
zero-bit_and : (a : ℕ) → bit_and 0 a ≡ 0
zero-bit_and a = bit_and-bitwise 0 a

pub 16-bit_and : (a : ℕ) → bit_and 16 a ≡ a / 16 % 2 * 16
16-bit_and a = omega (
  arith,
  bit_and_digit 16 a,
  bit_and_digit 8 (a / 2),
  bit_and_digit 4 (a / 2 / 2),
  bit_and_digit 2 (a / 2 / 2 / 2),
  bit_and_digit 1 (a / 2 / 2 / 2 / 2),
  zero-bit_and (a / 2 / 2 / 2 / 2 / 2),
)

pub 32-bit_and : (a : ℕ) → bit_and 32 a ≡ a / 32 % 2 * 32
32-bit_and a = omega (arith, bit_and_digit 32 a, 16-bit_and (a / 2))

pub 64-bit_and : (a : ℕ) → bit_and 64 a ≡ a / 64 % 2 * 64
64-bit_and a = omega (arith, bit_and_digit 64 a, 32-bit_and (a / 2))

pub 128-bit_and : (a : ℕ) → bit_and 128 a ≡ a / 128 % 2 * 128
128-bit_and a = omega (arith, bit_and_digit 128 a, 64-bit_and (a / 2))
