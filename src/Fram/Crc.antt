-- ===== src/Fram/Crc.antt =====
-- `crc32_fram` of common/fram_mission.c, as tools/rewrite-uboot-0006-0007.py writes it: the
-- reflected CRC-32, a byte at a time, eight rounds for each.
pub mod Detects
use radsat_linux.Base.{
  ℕ, zero, suc, ◌+◌, ◌-◌, ◌/◌, ◌%◌, ◌^◌, ◌<◌, ◌≡◌, refl, List, [], ◌∷◌, Bytes, bit_xor, arith, ◌==◌,
  if◌then◌else◌, All,
}
use radsat_linux.Base.Bits.{bit_xor-lt-pow}

abbrev pub poly : ℕ
poly = 0xedb88320

abbrev pub all_ones : ℕ
all_ones = 2 ^ 32 - 1

-- the body of the inner loop
unfoldable pub crc_bit : ℕ → ℕ
crc_bit crc = if crc % 2 == 1 then bit_xor (crc / 2) poly else crc / 2

-- `for (b = 0; b < 8; b++)`, with the rounds left
unfoldable pub crc_rounds : ℕ → ℕ → ℕ
crc_rounds zero crc = crc
crc_rounds (suc b) crc = crc_rounds b (crc_bit crc)

-- `for (i = 0; i < len; i++)` over the bytes still to come
unfoldable pub crc_loop : Bytes → ℕ → ℕ
crc_loop [] crc = crc
crc_loop (byte ∷ data_left) crc = crc_loop data_left (crc_rounds 8 (bit_xor crc byte))

unfoldable pub crc32_fram : Bytes → ℕ
unfolding crc_loop crc_rounds crc_bit
crc32_fram bytes = all_ones - crc_loop bytes all_ones

-- The check value of CRC-32 on "123456789".
crc32_check_value :
    crc32_fram (0x31 ∷ 0x32 ∷ 0x33 ∷ 0x34 ∷ 0x35 ∷ 0x36 ∷ 0x37 ∷ 0x38 ∷ 0x39 ∷ []) ≡ 0xcbf43926
unfolding crc32_fram
crc32_check_value = refl

abbrev pub IsByte : ℕ → Type 0
IsByte b = b < 256

pub crc_bit-lt : (crc : ℕ) → crc < 2 ^ 32 → crc_bit crc < 2 ^ 32
unfolding crc_bit
crc_bit-lt crc h = ground (arith, bit_xor-lt-pow 32 (crc / 2) poly (omega arith) (omega arith))

pub crc_rounds-lt : (b crc : ℕ) → crc < 2 ^ 32 → crc_rounds b crc < 2 ^ 32
unfolding crc_rounds
crc_rounds-lt zero crc h = h
crc_rounds-lt (suc b) crc h = crc_rounds-lt b (crc_bit crc) (crc_bit-lt crc h)

pub crc_loop-lt : (s : Bytes) (crc : ℕ) → All IsByte s → crc < 2 ^ 32 → crc_loop s crc < 2 ^ 32
unfolding crc_loop
crc_loop-lt [] crc _ h = h
crc_loop-lt (b ∷ s) crc (hb, hs) h =
    crc_loop-lt s (crc_rounds 8 (bit_xor crc b)) hs
      (crc_rounds-lt 8 (bit_xor crc b) (bit_xor-lt-pow 32 crc b h (omega arith)))

pub crc32_fram-lt : (s : Bytes) → All IsByte s → crc32_fram s < 2 ^ 32
unfolding crc32_fram
crc32_fram-lt s h = omega arith
