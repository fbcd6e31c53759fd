-- ===== src/Mram/Driver.antt =====
-- common/env_mram.c, as tools/rewrite-uboot-0006-0007.py writes it: the U-Boot environment on SPI
-- MRAM. The SPI controller and `malloc` are U-Boot's: they are the record `Spi` over the state `S` of
-- the bus with its chip. A C function returns its int, what it leaves in the caller's buffer, and the
-- new state; what it does besides is a list of events.
pub mod Chip
pub mod Saved
pub mod Relocate
pub mod First
use radsat_linux.Base.{
  ℕ, ◌+◌, ◌*◌, ◌/◌, ◌%◌, ◌^◌, Bool, true, false, not, ◌&&◌, List, [], ◌∷◌, ◌++◌, Option, none, some,
  Bytes, String, if◌then◌else◌, take, drop, replicate, length,
}
use radsat_linux.Base.Int.{ℤ, pos, negsuc, is_zero, is_negative}

pub record Spi (S : Type 0) : Type 0 where
  pub setup_slave : S → Option S
  pub free_slave : S → S
  pub claim_bus : S → ℤ × S
  -- `spi_xfer(slave, len * 8, buf, buf, SPI_XFER_BEGIN | SPI_XFER_END)`: the int and the new buffer
  pub xfer : S → Bytes → ℤ × Bytes × S
  pub release_bus : S → S
  -- does `malloc(n)` return memory?
  pub malloc_ok : ℕ → Bool

pub data Event : Type 0 where
  puts : String → Event
  printf_failed : ℤ → Event
  import_env : Bytes → Event
  set_default_env : Event

abbrev pub mram_cmd_wren : ℕ
mram_cmd_wren = 0x06

abbrev pub mram_cmd_read : ℕ
mram_cmd_read = 0x03

abbrev pub mram_cmd_write : ℕ
mram_cmd_write = 0x02

abbrev pub config_env_mram_offset : ℕ
config_env_mram_offset = 0x7d800

abbrev pub config_env_size : ℕ
config_env_size = 10 * 1024

abbrev pub enomem : ℤ
enomem = negsuc 11

abbrev pub eio : ℤ
eio = negsuc 4

abbrev pub enodev : ℤ
enodev = negsuc 18

-- frame[0] to frame[3], then the rest
abbrev pub mram_frame : ℕ → ℕ → Bytes → Bytes
mram_frame command offset rest =
    command ∷ (offset / 2 ^ 16 % 256) ∷ (offset / 2 ^ 8 % 256) ∷ (offset % 256) ∷ rest

-- the two fields of `gd` that are set, `default_environment` being U-Boot's address of the built-in one
pub record GlobalData : Type 0 where
  pub env_addr : ℕ
  pub env_valid : ℕ

abbrev pub env_init : ℕ → GlobalData → ℤ × GlobalData
env_init default_environment gd =
    (pos 0, record gd { env_addr = default_environment; env_valid = 1 })

module _ {S : Type 0} (spi : Spi S) where
  unfoldable pub mram_xfer : S → Bytes → ℤ × Bytes × S
  mram_xfer slave buf =
      let (claimed, s) = spi.claim_bus slave in
      if not (is_zero claimed)
      then (claimed, buf, s)
      else (let (ret, buf', s') = spi.xfer s buf in (ret, buf', spi.release_bus s'))

  -- The second part is what is copied to `buf`, if anything is.
  unfoldable pub mram_read : S → ℕ → ℕ → ℤ × Option Bytes × S
  mram_read slave offset len =
      if not (spi.malloc_ok (4 + len))
      then (enomem, none, slave)
      else (let (ret, frame, s) =
            mram_xfer slave (mram_frame mram_cmd_read offset (replicate len 0)) in
          (ret, if is_zero ret then some (drop 4 frame) else none, s))

  unfoldable pub mram_write : S → ℕ → Bytes → ℤ × S
  mram_write slave offset buf =
      let (ret, _, s) = mram_xfer slave (mram_cmd_wren ∷ []) in
      if not (is_zero ret)
      then (ret, s)
      else if not (spi.malloc_ok (4 + length buf))
      then (enomem, s)
      else (let (ret', _, s') = mram_xfer s (mram_frame mram_cmd_write offset buf) in (ret', s'))

  -- `env_export` is U-Boot's: its int and the blob it fills in.
  unfoldable pub saveenv : ℤ × Bytes → S → ℤ × S × List Event
  saveenv (exported, env_new) s =
      if not (is_zero exported) then (exported, s, []) else elim (spi.setup_slave s) [
        | none ↦ (pos 1, s, puts "MRAM: spi_setup_slave failed\n" ∷ [])
        | some slave ↦
            let (ret, s') = mram_write slave config_env_mram_offset env_new in
            if not (is_zero ret)
            then (
              pos 1,
              spi.free_slave s',
              puts "Writing env to SPI MRAM..." ∷ printf_failed ret ∷ [],
            )
            else (pos 0, spi.free_slave s', puts "Writing env to SPI MRAM..." ∷ puts "OK\n" ∷ [])
      ]

-- What the block and EXT4 layers answer: the partition, whether the mount works, and the int and the
-- contents of `ext4_read_file`.
pub record Ext4 : Type 0 where
  pub get_part : ℤ
  pub mounts : Bool
  pub read_file : ℤ × Bytes

abbrev pub is_minus_one : ℤ → Bool
is_minus_one (pos n) = false
is_minus_one (negsuc ℕ.zero) = true
is_minus_one (negsuc (ℕ.suc n)) = false

module _ (env_import : Bytes → ℤ) where
  unfoldable pub env_import_ext4_fallback : Ext4 → ℤ × List Event
  env_import_ext4_fallback fs =
      if is_negative fs.get_part
      then (enodev, [])
      else if not fs.mounts
      then (enodev, [])
      else if is_minus_one fs.read_file.0
      then (eio, [])
      else (env_import fs.read_file.1, import_env fs.read_file.1 ∷ [])

  -- the end of `env_relocate_spec`, from the EXT4 fallback on
  unfoldable pub relocate_fallback : Ext4 → List Event
  relocate_fallback fs =
      let (ret, events) = env_import_ext4_fallback fs in
      if is_zero ret
      then events ++ puts "Env: loaded from EXT4 fallback\n" ∷ []
      else events ++ puts "Env: using compiled-in defaults\n" ∷ set_default_env ∷ []

  -- what is done with the result of `mram_read`
  unfoldable pub relocate_read : ℤ → Option Bytes → Ext4 → List Event
  relocate_read ret none fs =
      puts "Env: MRAM CRC/import failed, trying EXT4\n" ∷ relocate_fallback fs
  relocate_read ret (some buf) fs =
      if not (is_zero ret)
      then puts "Env: MRAM CRC/import failed, trying EXT4\n" ∷ relocate_fallback fs
      else if is_zero (env_import buf)
      then import_env buf ∷ puts "Env: loaded from SPI MRAM\n" ∷ []
      else import_env buf ∷ puts "Env: MRAM CRC/import failed, trying EXT4\n" ∷ relocate_fallback fs

  module _ {S : Type 0} (spi : Spi S) where
    unfoldable pub env_relocate_spec : S → Ext4 → S × List Event
    env_relocate_spec s fs = elim (spi.setup_slave s) [
      | none ↦ (s, puts "Env: MRAM SPI unavailable, trying EXT4\n" ∷ relocate_fallback fs)
      | some slave ↦
          let (ret, buf, s') = mram_read spi slave config_env_mram_offset config_env_size in
          (spi.free_slave s', relocate_read ret buf fs)
    ]
