-- ===== src/Prelude/Bits.antt =====
-- Exclusive or on native numbers: it undoes itself, and a byte stays a byte.
use Prim.Native.Nat.{
  ℕ, zero, suc, ◌+◌, ◌-◌, ◌*◌, ◌/◌, ◌%◌, ◌^◌, ◌≤◌, ◌<◌, bit_xor, digits, differ, bit_xor-bitwise,
}
use mathlib.Core.Path.{◌≡◌, refl}
use native.Mathlib.Nat.{pow-suc}
use native.Mathlib.Omega.{arith}

abbrev xor_digits : ℕ → ℕ → ℕ → ℕ
xor_digits = digits (λ b. b) differ

-- Fuel from the first number on changes nothing.
xor_digits_fuel : (n m a b : ℕ) → a ≤ n → a ≤ m → xor_digits n a b ≡ xor_digits m a b
xor_digits_fuel zero zero a b p q = refl
xor_digits_fuel zero (suc m) zero b p q = refl
xor_digits_fuel zero (suc m) (suc a) b p q = absurd (omega arith)
xor_digits_fuel (suc n) zero zero b p q = refl
xor_digits_fuel (suc n) zero (suc a) b p q = absurd (omega arith)
xor_digits_fuel (suc n) (suc m) zero b p q = refl
xor_digits_fuel (suc n) (suc m) (suc a) b p q =
    omega (arith, xor_digits_fuel n m (suc a / 2) (b / 2) (omega arith) (omega arith))

zero-bit_xor : (b : ℕ) → bit_xor 0 b ≡ b
zero-bit_xor b = bit_xor-bitwise 0 b

differ_gap : (x y : ℕ) → differ x y ≡ (x - y) + (y - x)
differ_gap zero y = omega arith
differ_gap (suc x) zero = omega arith
differ_gap (suc x) (suc y) = omega (arith, differ_gap x y)

-- Two binary digits: 0 if they are the same, else 1.
abbrev pub digit_xor : ℕ → ℕ → ℕ
digit_xor x y = (x - y) + (y - x)

-- The lowest binary digit, and the rest.
pub bit_xor_step : (a b : ℕ) → bit_xor a b ≡ bit_xor (a / 2) (b / 2) * 2 + digit_xor (a % 2) (b % 2)
bit_xor_step zero b = omega (arith, zero-bit_xor b, zero-bit_xor (b / 2))
bit_xor_step (suc a) b = omega (
  arith,
  bit_xor-bitwise (suc a) b,
  bit_xor-bitwise (suc a / 2) (b / 2),
  xor_digits_fuel a (suc a / 2) (suc a / 2) (b / 2) (omega arith) (omega arith),
  differ_gap (suc a % 2) (b % 2),
)

bit_xor-cancel_fuel : (n a k : ℕ) → a ≤ n → k ≤ n → bit_xor (bit_xor a k) k ≡ a
bit_xor-cancel_fuel zero zero zero p q = refl
bit_xor-cancel_fuel zero zero (suc k) p q = absurd (omega arith)
bit_xor-cancel_fuel zero (suc a) k p q = absurd (omega arith)
bit_xor-cancel_fuel (suc n) a k p q = omega (
  arith,
  bit_xor_step (bit_xor a k) k,
  bit_xor_step a k,
  halves,
  bit_xor-cancel_fuel n (a / 2) (k / 2) (omega arith) (omega arith),
)
  where
    lowest : bit_xor a k / 2 ≡ bit_xor (a / 2) (k / 2)
    lowest = omega (arith, bit_xor_step a k)

    halves : bit_xor (bit_xor a k / 2) (k / 2) ≡ bit_xor (bit_xor (a / 2) (k / 2)) (k / 2)
    halves = rw lowest

-- Applied twice with the same key, exclusive or gives the number back.
pub bit_xor-cancel : (a k : ℕ) → bit_xor (bit_xor a k) k ≡ a
bit_xor-cancel a k = bit_xor-cancel_fuel (a + k) a k (omega arith) (omega arith)

-- Numbers of w bits stay numbers of w bits.
pub bit_xor-lt : (w a k : ℕ) → a < 2 ^ w → k < 2 ^ w → bit_xor a k < 2 ^ w
bit_xor-lt zero a k p q = ground (arith, zero-bit_xor k)
bit_xor-lt (suc w) a k p q = omega (
  arith,
  pow-suc 2 w,
  bit_xor_step a k,
  bit_xor-lt w (a / 2) (k / 2) (omega (arith, pow-suc 2 w)) (omega (arith, pow-suc 2 w)),
)
