-- ===== src/Fram/Record/Decimal.antt =====
-- The decimal text of a value: it reads back as the value, and it fits `char val[32]`.
use mathlib.Core.List.{foldl}
use native.Mathlib.Nat.{pow-suc}
use radsat_linux.Base.{
  ℕ, zero, suc, ◌+◌, ◌-◌, ◌*◌, ◌/◌, ◌%◌, ◌^◌, ◌<◌, ◌≤◌, ◌≡◌, Bytes, [], ◌∷◌, arith, length, All,
}
use radsat_linux.Fram.Record.{decimal_digits, format_u64}

-- the number that decimal digits spell behind `acc`
abbrev pub decimal_value : ℕ → Bytes → ℕ
decimal_value = foldl (λ acc c. acc * 10 + (c - b'0'))

abbrev pub IsDigit : ℕ → Type 0
IsDigit c = (b'0' ≤ c) × (c ≤ b'9')

pub decimal_digits_lem :
    (fuel n : ℕ) (out : Bytes)
    → n < 10 ^ suc fuel
    → All IsDigit out
    → (decimal_value 0 (decimal_digits (suc fuel) n out) ≡ decimal_value n out)
      × All IsDigit (decimal_digits (suc fuel) n out)
      × (length (decimal_digits (suc fuel) n out) ≤ suc fuel + length out)
unfolding decimal_digits
decimal_digits_lem zero n out h d = ground arith
decimal_digits_lem (suc fuel) n out h d =
    ground (arith, pow-suc 10 (suc fuel), decimal_digits_lem fuel (n / 10) ((b'0' + n % 10) ∷ out))

-- The text of a 64-bit number: its digits spell the number, every character is a digit, and there
-- are at most 20, so that the text and its end mark fit a buffer of 32 bytes.
pub format_u64_lem :
    (n : ℕ)
    → n < 2 ^ 64
    → (decimal_value 0 (format_u64 n) ≡ n)
      × All IsDigit (format_u64 n)
      × (length (format_u64 n) < 32)
unfolding format_u64
format_u64_lem n h =
    let (value, digits, size) = decimal_digits_lem 19 n [] (omega arith) tt in
    (value, digits, omega arith)
