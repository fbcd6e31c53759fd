-- ===== src/Fram/Record/Fields.antt =====
-- The fields of a record as arithmetic: what `|` and `<<` compose is the little-endian number.
use radsat_linux.Base.{ℕ, ◌+◌, ◌*◌, ◌/◌, ◌%◌, ◌^◌, ◌<◌, ◌≡◌, ◌∷◌, Bytes, bit_or, arith, ap, ◌∙◌}
use radsat_linux.Base.Bits.{bit_or_fields}
use radsat_linux.Fram.Record.{byte, le16, le32, le64}

module _ (raw : Bytes) (i : ℕ) where
  pub le16-eq :
      byte raw i < 256 → byte raw (i + 1) < 256 → le16 raw i ≡ byte raw i + byte raw (i + 1) * 2 ^ 8
  unfolding le16
  le16-eq h0 h1 = bit_or_fields 8 (byte raw (i + 1)) (byte raw i) h0

  pub le32-eq :
      byte raw i < 256
      → byte raw (i + 1) < 256
      → byte raw (i + 2) < 256
      → byte raw (i + 3) < 256
      → le32 raw i
        ≡ byte raw i
          + byte raw (i + 1) * 2 ^ 8
          + byte raw (i + 2) * 2 ^ 16
          + byte raw (i + 3) * 2 ^ 24
  unfolding le32
  le32-eq h0 h1 h2 h3 = omega (
    arith,
    ap (λ (t : ℕ). bit_or (bit_or t (byte raw (i + 2) * 2 ^ 16)) (byte raw (i + 3) * 2 ^ 24))
        (bit_or_fields 8 (byte raw (i + 1)) (byte raw i) h0),
    ap (λ (t : ℕ). bit_or t (byte raw (i + 3) * 2 ^ 24))
        (bit_or_fields 16 (byte raw (i + 2)) (byte raw i + byte raw (i + 1) * 2 ^ 8) (omega arith)),
    bit_or_fields 24 (byte raw (i + 3))
        (byte raw i + byte raw (i + 1) * 2 ^ 8 + byte raw (i + 2) * 2 ^ 16) (omega arith),
  )

-- The four bytes of a 32-bit number, lowest first.
abbrev pub u32_le : ℕ → Bytes → Bytes
u32_le n rest = (n % 256) ∷ (n / 2 ^ 8 % 256) ∷ (n / 2 ^ 16 % 256) ∷ (n / 2 ^ 24 % 256) ∷ rest

-- The eight bytes of a 64-bit number, lowest first.
abbrev pub u64_le : ℕ → Bytes → Bytes
u64_le n rest =
    u32_le n
      ((n / 2 ^ 32 % 256) ∷ (n / 2 ^ 40 % 256) ∷ (n / 2 ^ 48 % 256) ∷ (n / 2 ^ 56 % 256) ∷ rest)

or_add : (k q : ℕ) {t : ℕ} (r : ℕ) → t ≡ r → r < 2 ^ k → bit_or t (q * 2 ^ k) ≡ r + q * 2 ^ k
or_add k q r e h = ap (λ (x : ℕ). bit_or x (q * 2 ^ k)) e ∙ bit_or_fields k q r h

-- A field of four bytes reads back the 32-bit number whose bytes it holds.
pub le32_of :
    (raw : Bytes) (i n : ℕ)
    → n < 2 ^ 32
    → byte raw i ≡ n % 256
    → byte raw (i + 1) ≡ n / 2 ^ 8 % 256
    → byte raw (i + 2) ≡ n / 2 ^ 16 % 256
    → byte raw (i + 3) ≡ n / 2 ^ 24 % 256
    → le32 raw i ≡ n
le32_of raw i n h e0 e1 e2 e3 =
    omega (arith, le32-eq raw i (omega arith) (omega arith) (omega arith) (omega arith))

-- A field of eight bytes reads back the 64-bit number whose bytes it holds.
pub le64_of :
    (raw : Bytes) (i n : ℕ)
    → n < 2 ^ 64
    → byte raw i ≡ n % 256
    → byte raw (i + 1) ≡ n / 2 ^ 8 % 256
    → byte raw (i + 2) ≡ n / 2 ^ 16 % 256
    → byte raw (i + 3) ≡ n / 2 ^ 24 % 256
    → byte raw (i + 4) ≡ n / 2 ^ 32 % 256
    → byte raw (i + 5) ≡ n / 2 ^ 40 % 256
    → byte raw (i + 6) ≡ n / 2 ^ 48 % 256
    → byte raw (i + 7) ≡ n / 2 ^ 56 % 256
    → le64 raw i ≡ n
unfolding le64
le64_of raw i n h e0 e1 e2 e3 e4 e5 e6 e7 =
    let low =
      le32_of raw i (n % 2 ^ 32) (omega arith) (omega arith) (omega arith) (omega arith)
        (omega arith) in
    let b4 = byte raw (i + 4) in
    let b5 = byte raw (i + 5) in
    let b6 = byte raw (i + 6) in
    let s4 = or_add 32 b4 (n % 2 ^ 32) low (omega arith) in
    let s5 = or_add 40 b5 (n % 2 ^ 32 + b4 * 2 ^ 32) s4 (omega arith) in
    let s6 = or_add 48 b6 (n % 2 ^ 32 + b4 * 2 ^ 32 + b5 * 2 ^ 40) s5 (omega arith) in
    or_add 56 (byte raw (i + 7)) (n % 2 ^ 32 + b4 * 2 ^ 32 + b5 * 2 ^ 40 + b6 * 2 ^ 48) s6
      (omega arith)
    ∙ omega arith
