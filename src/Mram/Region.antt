-- ===== src/Mram/Region.antt =====
-- src/env_region.rs of mram-service, as tools/apply-mram-env-region.py writes it: where the U-Boot
-- environment lies on the chip, and its checksum. `CAPACITY_BYTES` is the driver crate's, an argument.
pub mod Checksum
use radsat_linux.Base.{
  ℕ, zero, suc, ◌+◌, ◌-◌, ◌*◌, ◌/◌, ◌%◌, ◌^◌, Bool, not, List, [], ◌∷◌, Option, none, some, Bytes,
  bit_xor, ltb, ◌==◌, if◌then◌else◌, length, get_or, drop,
}

abbrev pub uboot_env_size : ℕ
uboot_env_size = 0x2800

abbrev pub uboot_env_offset : ℕ → ℕ
uboot_env_offset capacity_bytes = capacity_bytes - uboot_env_size

abbrev pub payload_capacity_bytes : ℕ → ℕ
payload_capacity_bytes = uboot_env_offset

-- `for _ in 0..8`
pub crc_rounds : ℕ → ℕ → ℕ
crc_rounds zero crc = crc
crc_rounds (suc n) crc =
    crc_rounds n (if not (crc % 2 == 0) then bit_xor (crc / 2) 0xedb88320 else crc / 2)

-- `for &byte in data`
pub crc_bytes : Bytes → ℕ → ℕ
crc_bytes [] crc = crc
crc_bytes (b ∷ bytes_left) crc = crc_bytes bytes_left (crc_rounds 8 (bit_xor crc b))

unfoldable pub crc32_uboot : Bytes → ℕ
unfolding crc_rounds crc_bytes
crc32_uboot bytes = 2 ^ 32 - 1 - crc_bytes bytes (2 ^ 32 - 1)

-- `u32::from_le_bytes(blob[0..4])`
abbrev pub from_le_bytes : Bytes → ℕ
from_le_bytes b =
    get_or b 0 0 + get_or b 1 0 * 2 ^ 8 + get_or b 2 0 * 2 ^ 16 + get_or b 3 0 * 2 ^ 24

-- the stored checksum, and whether it is right
unfoldable pub uboot_env_crc : Bytes → Option (ℕ × Bool)
uboot_env_crc blob =
    if ltb (length blob) 4
    then none
    else (let stored = from_le_bytes blob in
        let calc = crc32_uboot (drop 4 blob) in some (stored, stored == calc))
