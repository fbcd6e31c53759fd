-- ===== src/Base/Bits.antt =====
-- Laws of `bit_or` and `bit_xor` at variables, from the digit recursion they stand for: one step
-- on the lowest digit, `|` of disjoint fields as a sum, and bounds and cancellation for `^`.
use Prim.Native.Nat.{
  ℕ, zero, suc, ◌+◌, ◌*◌, ◌/◌, ◌%◌, ◌^◌, ◌≤◌, ◌<◌, max, bit_or, bit_xor, digits, differ,
  bit_or-bitwise, bit_xor-bitwise,
}
use mathlib.Core.Path.{◌≡◌, refl, ap}
use native.Mathlib.Omega.{arith}
use native.Mathlib.Nat.{pow-suc}

-- The digit recursion does not depend on how much fuel is left over.
digits_enough :
    (f : ℕ → ℕ → ℕ) (n m a b : ℕ)
    → a ≤ n
    → a ≤ m
    → digits (λ y. y) f n a b ≡ digits (λ y. y) f m a b
digits_enough f zero zero a b p q = refl
digits_enough f zero (suc m) zero b p q = refl
digits_enough f zero (suc m) (suc a) b p q = absurd (omega arith)
digits_enough f (suc n) zero zero b p q = refl
digits_enough f (suc n) zero (suc a) b p q = absurd (omega arith)
digits_enough f (suc n) (suc m) zero b p q = refl
digits_enough f (suc n) (suc m) (suc a) b p q =
    omega (arith, digits_enough f n m (suc a / 2) (b / 2) (omega arith) (omega arith))

differ_digits : (x y : ℕ) → x < 2 → y < 2 → differ x y ≡ (x + y) % 2
differ_digits zero y p q = omega arith
differ_digits (suc zero) zero p q = refl
differ_digits (suc zero) (suc zero) p q = refl
differ_digits (suc zero) (suc (suc y)) p q = absurd (omega arith)
differ_digits (suc (suc x)) y p q = absurd (omega arith)

pub bit_or_step : (a b : ℕ) → bit_or a b ≡ bit_or (a / 2) (b / 2) * 2 + max (a % 2) (b % 2)
bit_or_step zero b = omega (arith, bit_or-bitwise 0 b, bit_or-bitwise 0 (b / 2))
bit_or_step (suc a) b = omega (
  arith,
  bit_or-bitwise (suc a) b,
  bit_or-bitwise (suc a / 2) (b / 2),
  digits_enough max a (suc a / 2) (suc a / 2) (b / 2) (omega arith) (omega arith),
)

pub bit_xor_step : (a b : ℕ) → bit_xor a b ≡ bit_xor (a / 2) (b / 2) * 2 + (a % 2 + b % 2) % 2
bit_xor_step zero b = omega (arith, bit_xor-bitwise 0 b, bit_xor-bitwise 0 (b / 2))
bit_xor_step (suc a) b = omega (
  arith,
  bit_xor-bitwise (suc a) b,
  bit_xor-bitwise (suc a / 2) (b / 2),
  digits_enough differ a (suc a / 2) (suc a / 2) (b / 2) (omega arith) (omega arith),
  differ_digits (suc a % 2) (b % 2) (omega arith) (omega arith),
)

zero-bit_or : (b : ℕ) → bit_or 0 b ≡ b
zero-bit_or b = bit_or-bitwise 0 b

zero-bit_xor : (b : ℕ) → bit_xor 0 b ≡ b
zero-bit_xor b = bit_xor-bitwise 0 b

-- `r | (q << k)` is a sum when `r` fits `k` bits.
pub bit_or_fields : (k q r : ℕ) → r < 2 ^ k → bit_or r (q * 2 ^ k) ≡ r + q * 2 ^ k
bit_or_fields zero q zero h = omega (arith, zero-bit_or (q * 2 ^ 0))
bit_or_fields zero q (suc r) h = absurd (omega arith)
bit_or_fields (suc k) q r h = omega (
  arith,
  pow-suc 2 k,
  ap (λ (t : ℕ). q * t) (pow-suc 2 k),
  bit_or_step r (q * 2 ^ suc k),
  ap (λ (t : ℕ). bit_or (r / 2) t) (halve q k),
  bit_or_fields k q (r / 2) (omega (arith, pow-suc 2 k)),
)
  where
    halve : (q k : ℕ) → q * 2 ^ suc k / 2 ≡ q * 2 ^ k
    halve q k = omega (arith, ap (λ (t : ℕ). q * t) (pow-suc 2 k))

-- An exclusive or of `k`-bit numbers has `k` bits.
pub bit_xor-lt-pow : (k a b : ℕ) → a < 2 ^ k → b < 2 ^ k → bit_xor a b < 2 ^ k
bit_xor-lt-pow zero zero b p q = omega (arith, zero-bit_xor b)
bit_xor-lt-pow zero (suc a) b p q = absurd (omega arith)
bit_xor-lt-pow (suc k) a b p q = omega (
  arith,
  pow-suc 2 k,
  bit_xor_step a b,
  bit_xor-lt-pow k (a / 2) (b / 2) (omega (arith, pow-suc 2 k)) (omega (arith, pow-suc 2 k)),
)

-- A number with bit `k` as its highest keeps that bit under `^` with a `k`-bit number.
pub pow-le-bit_xor : (k a p : ℕ) → a < 2 ^ k → 2 ^ k ≤ p → 2 ^ k ≤ bit_xor a p
pow-le-bit_xor zero zero p h l = omega (arith, zero-bit_xor p)
pow-le-bit_xor zero (suc a) p h l = absurd (omega arith)
pow-le-bit_xor (suc k) a p h l = omega (
  arith,
  pow-suc 2 k,
  bit_xor_step a p,
  pow-le-bit_xor k (a / 2) (p / 2) (omega (arith, pow-suc 2 k)) (omega (arith, pow-suc 2 k)),
)

-- `^` by a fixed number is injective on the left and on the right.
pub bit_xor_cancel_right : (k a b p : ℕ) → a < 2 ^ k → b < 2 ^ k → bit_xor a p ≡ bit_xor b p → a ≡ b
bit_xor_cancel_right zero a b p h l e = omega arith
bit_xor_cancel_right (suc k) a b p h l e = omega (
  arith,
  bit_xor_step a p,
  bit_xor_step b p,
  bit_xor_cancel_right k (a / 2) (b / 2) (p / 2) (omega (arith, pow-suc 2 k))
      (omega (arith, pow-suc 2 k)) (omega (arith, bit_xor_step a p, bit_xor_step b p)),
)

pub bit_xor_cancel_left : (k p a b : ℕ) → a < 2 ^ k → b < 2 ^ k → bit_xor p a ≡ bit_xor p b → a ≡ b
bit_xor_cancel_left zero p a b h l e = omega arith
bit_xor_cancel_left (suc k) p a b h l e = omega (
  arith,
  bit_xor_step p a,
  bit_xor_step p b,
  bit_xor_cancel_left k (p / 2) (a / 2) (b / 2) (omega (arith, pow-suc 2 k))
      (omega (arith, pow-suc 2 k)) (omega (arith, bit_xor_step p a, bit_xor_step p b)),
)
