-- ===== src/Fram/Crc/Detects.antt =====
-- What the CRC is for: two buffers that differ in one byte have different checksums.
use radsat_linux.Base.{
  ℕ, zero, suc, ◌-◌, ◌/◌, ◌^◌, ◌<◌, ◌≡◌, ◌≢◌, refl, sym, ap, ◌∙◌, [], ◌∷◌, ◌++◌, Bytes, bit_xor,
  arith, All,
}
use radsat_linux.Base.Bits.{
  bit_xor-lt-pow, pow-le-bit_xor, bit_xor_cancel_right, bit_xor_cancel_left,
}
use radsat_linux.Fram.Crc.{
  poly, all_ones, crc_bit, crc_rounds, crc_loop, crc32_fram, IsByte, crc_bit-lt, crc_rounds-lt,
  crc_loop-lt,
}

-- A round loses nothing: bit 31 of the result tells the bit that was shifted out.
crc_bit_injective : (a b : ℕ) → a < 2 ^ 32 → b < 2 ^ 32 → crc_bit a ≡ crc_bit b → a ≡ b
unfolding crc_bit
crc_bit_injective a b h l e = ground (
  arith,
  pow-le-bit_xor 31 (a / 2) poly (omega arith) (omega arith),
  pow-le-bit_xor 31 (b / 2) poly (omega arith) (omega arith),
  bit_xor_cancel_right 32 (a / 2) (b / 2) poly (omega arith) (omega arith),
)

crc_rounds_injective :
    (n a b : ℕ) → a < 2 ^ 32 → b < 2 ^ 32 → crc_rounds n a ≡ crc_rounds n b → a ≡ b
unfolding crc_rounds
crc_rounds_injective zero a b h l e = e
crc_rounds_injective (suc n) a b h l e =
    crc_bit_injective a b h l
      (crc_rounds_injective n (crc_bit a) (crc_bit b) (crc_bit-lt a h) (crc_bit-lt b l) e)

crc_loop_injective :
    (s : Bytes) (a b : ℕ)
    → All IsByte s
    → a < 2 ^ 32
    → b < 2 ^ 32
    → crc_loop s a ≡ crc_loop s b
    → a ≡ b
unfolding crc_loop
crc_loop_injective [] a b _ h l e = e
crc_loop_injective (x ∷ s) a b (hx, hs) h l e =
    let la = bit_xor-lt-pow 32 a x h (omega arith) in
    let lb = bit_xor-lt-pow 32 b x l (omega arith) in
    bit_xor_cancel_right 32 a b x h l (
      crc_rounds_injective 8 (bit_xor a x) (bit_xor b x) la lb (
        crc_loop_injective s (crc_rounds 8 (bit_xor a x)) (crc_rounds 8 (bit_xor b x)) hs
          (crc_rounds-lt 8 (bit_xor a x) la) (crc_rounds-lt 8 (bit_xor b x) lb) e))

crc_loop-append : (s t : Bytes) (crc : ℕ) → crc_loop (s ++ t) crc ≡ crc_loop t (crc_loop s crc)
unfolding crc_loop
crc_loop-append [] t crc = refl
crc_loop-append (x ∷ s) t crc = crc_loop-append s t (crc_rounds 8 (bit_xor crc x))

-- After any prefix, a different byte gives a different running value, whatever follows.
crc_loop_byte :
    (x y : ℕ) (s : Bytes) (crc : ℕ)
    → IsByte x
    → IsByte y
    → All IsByte s
    → crc < 2 ^ 32
    → crc_loop (x ∷ s) crc ≡ crc_loop (y ∷ s) crc
    → x ≡ y
unfolding crc_loop
crc_loop_byte x y s crc hx hy hs h e =
    let lx = bit_xor-lt-pow 32 crc x h (omega arith) in
    let ly = bit_xor-lt-pow 32 crc y h (omega arith) in
    bit_xor_cancel_left 32 crc x y (omega arith) (omega arith) (
      crc_rounds_injective 8 (bit_xor crc x) (bit_xor crc y) lx ly (
        crc_loop_injective s (crc_rounds 8 (bit_xor crc x)) (crc_rounds 8 (bit_xor crc y)) hs
          (crc_rounds-lt 8 (bit_xor crc x) lx) (crc_rounds-lt 8 (bit_xor crc y) ly) e))

-- The checksum of a byte buffer changes with any single byte: for all byte strings `pre` and
-- `post` and bytes x ≢ y, `pre x post` and `pre y post` have different CRCs.
pub crc32_fram_detects :
    (pre : Bytes) (x y : ℕ) (post : Bytes)
    → All IsByte pre
    → IsByte x
    → IsByte y
    → All IsByte post
    → x ≢ y
    → crc32_fram (pre ++ x ∷ post) ≢ crc32_fram (pre ++ y ∷ post)
unfolding crc32_fram
crc32_fram_detects pre x y post hpre hx hy hpost ne e =
    let start = crc_loop-lt pre all_ones hpre (omega arith) in
    let mid = crc_loop pre all_ones in
    ne (
      crc_loop_byte x y post mid hx hy hpost start (
        same (crc_loop (x ∷ post) mid) (crc_loop (y ∷ post) mid)
          (crc_loop-lt (x ∷ post) mid (hx, hpost) start)
          (crc_loop-lt (y ∷ post) mid (hy, hpost) start)
          (ap (λ (t : ℕ). all_ones - t) (sym (crc_loop-append pre (x ∷ post) all_ones))
            ∙ e
            ∙ ap (λ (t : ℕ). all_ones - t) (crc_loop-append pre (y ∷ post) all_ones))))
  where
    same : (a b : ℕ) → a < 2 ^ 32 → b < 2 ^ 32 → all_ones - a ≡ all_ones - b → a ≡ b
    same a b h l e = omega arith
