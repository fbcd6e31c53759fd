-- ===== src/Mram/Region/Checksum.antt =====
-- The checksum of an environment blob, in C and in Rust.
use radsat_linux.Base.{
  ℕ, zero, suc, ◌+◌, ◌-◌, ◌*◌, ◌^◌, ◌<◌, ◌≡◌, ◌≢◌, refl, sym, ap, ◌∙◌, Bool, true, false, [], ◌∷◌,
  ◌++◌, some, Bytes, bit_xor, arith, ltb, ◌==◌, ==_iff, length, All, Bool-cases, inl, inr,
  All-append,
}
use radsat_linux.Fram.Crc
use radsat_linux.Fram.Crc.{IsByte, crc32_fram, crc_bit, crc_loop, crc32_fram-lt}
use radsat_linux.Fram.Crc.Detects.{crc32_fram_detects}
use radsat_linux.Fram.Record.Fields.{u32_le}
use radsat_linux.Mram.Driver.{config_env_mram_offset, config_env_size}
use radsat_linux.Mram.Region.{
  uboot_env_size, uboot_env_offset, payload_capacity_bytes, crc_rounds, crc_bytes, crc32_uboot,
  from_le_bytes, uboot_env_crc,
}

-- On a chip of 512 KiB the service and U-Boot mean the same bytes by the environment: the offsets and
-- sizes agree, the region ends with the chip, and the payload window ends where it begins.
pub region_agrees :
    (capacity_bytes : ℕ)
    → capacity_bytes ≡ 512 * 1024
    → (uboot_env_offset capacity_bytes ≡ config_env_mram_offset)
      × (uboot_env_size ≡ config_env_size)
      × (uboot_env_offset capacity_bytes + uboot_env_size ≡ capacity_bytes)
      × (payload_capacity_bytes capacity_bytes ≡ config_env_mram_offset)
region_agrees capacity_bytes h = omega arith

rounds-eq : (n crc : ℕ) → crc_rounds n crc ≡ Crc.crc_rounds n crc
unfolding crc_rounds Crc.crc_rounds crc_bit
rounds-eq zero crc = refl
rounds-eq (suc n) crc = rounds-eq n _ ∙ ap (Crc.crc_rounds n) (ground arith)

bytes-eq : (s : Bytes) (crc : ℕ) → crc_bytes s crc ≡ crc_loop s crc
unfolding crc_bytes crc_loop
bytes-eq [] crc = refl
bytes-eq (b ∷ s) crc = bytes-eq s _ ∙ ap (crc_loop s) (rounds-eq 8 (bit_xor crc b))

-- The Rust checksum is the C checksum.
pub crc32_uboot-eq : (s : Bytes) → crc32_uboot s ≡ crc32_fram s
unfolding crc32_uboot crc32_fram
crc32_uboot-eq s = ap (λ (t : ℕ). 2 ^ 32 - 1 - t) (bytes-eq s (2 ^ 32 - 1))

from_le_bytes-u32_le : (n : ℕ) (rest : Bytes) → n < 2 ^ 32 → from_le_bytes (u32_le n rest) ≡ n
from_le_bytes-u32_le n rest h = omega arith

-- what the check answers on data behind a stored checksum
env_crc_of :
    (c : ℕ) (s : Bytes) → c < 2 ^ 32 → uboot_env_crc (u32_le c s) ≡ some (c, c == crc32_uboot s)
unfolding uboot_env_crc
env_crc_of c s h =
    rw (long (length s)) (ap (λ (t : ℕ). some (t, t == crc32_uboot s)) (from_le_bytes-u32_le c s h))
  where
    long : (n : ℕ) → ltb (suc (suc (suc (suc n)))) 4 ≡ false
    long n = ground arith

-- A blob of environment data behind its checksum is reported as valid; and if one byte of the data is
-- changed after the checksum was stored, it is reported as invalid.
pub uboot_env_crc_detects :
    (pre : Bytes) (x y : ℕ) (post : Bytes)
    → All IsByte pre
    → IsByte x
    → IsByte y
    → All IsByte post
    → x ≢ y
    → let crc = crc32_uboot (pre ++ x ∷ post) in
      (uboot_env_crc (u32_le crc (pre ++ x ∷ post)) ≡ some (crc, true))
      × (uboot_env_crc (u32_le crc (pre ++ y ∷ post)) ≡ some (crc, false))
uboot_env_crc_detects pre x y post hpre hx hy hpost ne =
    let crc = crc32_uboot (pre ++ x ∷ post) in
    let bound : crc < 2 ^ 32 =
      rw (crc32_uboot-eq (pre ++ x ∷ post))
        (crc32_fram-lt (pre ++ x ∷ post) (All-append IsByte pre (x ∷ post) hpre (hx, hpost))) in
    (
      env_crc_of crc (pre ++ x ∷ post) bound
          ∙ ap (λ (b : Bool). some (crc, b)) ((==_iff crc crc).1 refl),
      env_crc_of crc (pre ++ y ∷ post) bound ∙ ap (λ (b : Bool). some (crc, b)) differs,
    )
  where
    differs : (crc32_uboot (pre ++ x ∷ post) == crc32_uboot (pre ++ y ∷ post)) ≡ false
    differs = elim (Bool-cases (crc32_uboot (pre ++ x ∷ post) == crc32_uboot (pre ++ y ∷ post))) [
      | inr no_match ↦ no_match
      | inl same ↦ absurd (
          crc32_fram_detects pre x y post hpre hx hy hpost ne (
            sym (crc32_uboot-eq (pre ++ x ∷ post))
            ∙ (==_iff _ _).0 same
            ∙ crc32_uboot-eq (pre ++ y ∷ post)))
    ]
