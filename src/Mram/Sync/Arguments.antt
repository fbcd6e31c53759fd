-- ===== src/Mram/Sync/Arguments.antt =====
-- The arguments: a command line that spells every option is read back as those options.
use radsat_linux.Base.{
  ℕ, zero, suc, ◌+◌, ◌/◌, ◌%◌, ◌^◌, ◌<◌, ◌≡◌, refl, ◌∙◌, List, [], ◌∷◌, some, Bytes, codes, arith,
  length, All,
}
use native.Mathlib.Nat.{pow-suc}
use radsat_linux.Base.Result.{ok}
use radsat_linux.Fram.Record.{decimal_digits, format_u64}
use radsat_linux.Fram.Record.Decimal.{IsDigit, format_u64_lem}
use radsat_linux.Mram.Sync.{Options, parse_digits, parse, set_option, parse_args}

parse_digits-decimal_digits :
    (fuel bound n : ℕ) (out : Bytes)
    → n < 10 ^ suc fuel
    → n < bound
    → (parse_digits bound 0 (decimal_digits (suc fuel) n out) ≡ parse_digits bound n out)
      × (0 < length (decimal_digits (suc fuel) n out))
unfolding decimal_digits parse_digits
parse_digits-decimal_digits zero bound n out h lt = ground arith
parse_digits-decimal_digits (suc fuel) bound n out h lt = ground (
  arith,
  pow-suc 10 (suc fuel),
  parse_digits-decimal_digits fuel bound (n / 10) ((b'0' + n % 10) ∷ out),
)

parse-IsDigit :
    (bound : ℕ) (s : Bytes) → All IsDigit s → 0 < length s → parse bound s ≡ parse_digits bound 0 s
unfolding parse
parse-IsDigit bound [] d h = ground arith
parse-IsDigit bound (c ∷ []) d h = refl
parse-IsDigit bound (c ∷ e ∷ s) d h = ground arith

parse_end : (bound n : ℕ) → parse_digits bound n [] ≡ some n
unfolding parse_digits
parse_end bound n = refl

parse-format_u64 : (bound n : ℕ) → n < bound → n < 2 ^ 64 → parse bound (format_u64 n) ≡ some n
unfolding format_u64
parse-format_u64 bound n lt fits =
    let (value, digits, size) = format_u64_lem n fits in
    let (read_back, nonempty) = parse_digits-decimal_digits 19 bound n [] (omega arith) lt in
    parse-IsDigit bound (decimal_digits 20 n []) digits nonempty ∙ read_back ∙ parse_end bound n

-- a command line that gives every option
abbrev pub print_args : Options → List Bytes
print_args o =
    codes "--out"
    ∷ o.out
    ∷ codes "--backend"
    ∷ o.backend
    ∷ codes "--device"
    ∷ o.device
    ∷ codes "--image"
    ∷ o.image
    ∷ codes "--speed"
    ∷ format_u64 o.speed
    ∷ codes "--mode"
    ∷ format_u64 o.mode
    ∷ codes "--offset"
    ∷ format_u64 o.offset
    ∷ codes "--size"
    ∷ format_u64 o.size
    ∷ []

-- Whatever the options were, a command line that gives every option is read as the options it gives,
-- the numbers being in the range of their types.
pub parse-print_args :
    (old o : Options)
    → o.speed < 2 ^ 32
    → o.mode < 2 ^ 8
    → o.offset < 2 ^ 32
    → o.size < 2 ^ 32
    → parse_args old (print_args o) ≡ ok o
unfolding parse_args set_option
parse-print_args old o h1 h2 h3 h4 =
    rw
      (
        parse-format_u64 (2 ^ 32) o.speed h1 (omega arith),
        parse-format_u64 (2 ^ 8) o.mode h2 (omega arith),
        parse-format_u64 (2 ^ 32) o.offset h3 (omega arith),
        parse-format_u64 (2 ^ 32) o.size h4 (omega arith),
      )
      refl
