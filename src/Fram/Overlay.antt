-- ===== src/Fram/Overlay.antt =====
-- `radsat_fram_overlay_env` of common/fram_mission.c, as tools/rewrite-uboot-0006-0007.py writes
-- it, with the layout check of tools/gen-mram-fram-uboot-patches.py beside the one in use.
-- What the function does to the outside is a list of events, in order.
pub mod Policy
pub mod FailOpen
pub mod Layout
pub mod Refuses
pub mod First
use radsat_linux.Base.{
  ℕ, ◌-◌, ◌*◌, Bool, true, false, not, ◌&&◌, ◌||◌, List, [], ◌∷◌, ◌++◌, Option, none, some, Bytes,
  String, ◌==◌, if◌then◌else◌, take,
}
use radsat_linux.Fram.Crc.{crc32_fram}
use radsat_linux.Fram.Record.{
  FramKey, fram_keys, fram_record_size, fram_slots_per_key, fram_rec_magic, byte, le16, le32,
  slot_a_offset, fram_read, decode_and_set,
}

pub data Event : Type 0 where
  set_bus : ℕ → Event
  setenv : Bytes → Option Bytes → Event
  puts : String → Event

-- FRAM_BOOT_POLICY_KEYS * FRAM_SLOTS_PER_KEY * FRAM_RECORD_SIZE
abbrev pub fram_boot_data_end : ℕ
fram_boot_data_end = 6 * fram_slots_per_key * fram_record_size

abbrev pub fram_layout_offset : ℕ
fram_layout_offset = 2048

-- `magic == FRAM_LAYOUT_MAGIC && ver == FRAM_LAYOUT_VERSION`
unfoldable pub header_matches : Bytes → Bool
header_matches hdr = le32 hdr 0 == 0x4d415246 && le16 hdr 4 == 1

-- the `blank` loop: every byte is 0x00 or 0xff
unfoldable pub is_blank : Bytes → Bool
is_blank [] = true
is_blank (b ∷ s) = (b == 0x00 || b == 0xff) && is_blank s

-- the test behind the read of BootChecksum (key id 7, slot A)
unfoldable pub boot_record_ok : ℕ → Bytes → Bool
boot_record_ok calc rec =
    le16 rec 0 == fram_rec_magic
    && byte rec 3 == 7
    && byte rec 4 == 3
    && byte rec 5 == 8
    && le32 rec 10 == calc

module _ (i2c_read : ℕ → ℕ → ℕ → ℕ → Option Bytes) where
  -- the check of the first version: the header must be there
  unfoldable pub fram_layout_ok : Bool
  fram_layout_ok = elim (fram_read i2c_read fram_layout_offset 16) [
    | none ↦ false
    | some hdr ↦ header_matches hdr
  ]

  -- the check in use: a header that is there and does not match
  unfoldable pub fram_layout_present_invalid : Bool
  fram_layout_present_invalid = elim (fram_read i2c_read fram_layout_offset 16) [
    | none ↦ false
    | some hdr ↦ if is_blank hdr then false else not (header_matches hdr)
  ]

  unfoldable pub fram_boot_crc_ok : Bool
  fram_boot_crc_ok = elim (fram_read i2c_read 0 fram_boot_data_end) [
    | none ↦ false
    | some bytes ↦
        elim (fram_read i2c_read (6 * fram_slots_per_key * fram_record_size) fram_record_size) [
          | none ↦ false
          | some rec ↦ boot_record_ok (crc32_fram bytes) rec
        ]
  ]

  -- one round of the loop over `fram_keys`
  unfoldable pub overlay_key : FramKey → List Event
  overlay_key key = elim (fram_read i2c_read (slot_a_offset key.id) fram_record_size) [
    | none ↦ []
    | some raw ↦ elim (decode_and_set i2c_read key raw) [
      | none ↦ []
      | some v ↦ setenv key.name v ∷ []
    ]
  ]

  unfoldable pub overlay_keys : List FramKey → List Event
  overlay_keys [] = []
  overlay_keys (k ∷ ks) = overlay_key k ++ overlay_keys ks

  -- `set_bus_ok` says whether `i2c_set_bus_num` returns 0; `old_bus` is `i2c_get_bus_num()`.
  unfoldable pub radsat_fram_overlay_env : (ℕ → Bool) → ℕ → List Event
  radsat_fram_overlay_env set_bus_ok old_bus =
      if not (set_bus_ok 2)
      then set_bus 2 ∷ puts "FRAM: cannot select I2C2; skipping mission overlay\n" ∷ []
      else if fram_layout_present_invalid
      then set_bus 2
        ∷ puts "FRAM: layout magic/version mismatch; skipping mission overlay\n"
        ∷ set_bus old_bus
        ∷ []
      else if not fram_boot_crc_ok
      then set_bus 2
        ∷ puts "FRAM: boot-region CRC invalid; skipping mission overlay\n"
        ∷ set_bus old_bus
        ∷ []
      else set_bus 2
        ∷ (overlay_keys fram_keys
            ++ puts "FRAM: mission policy keys overlaid\n" ∷ set_bus old_bus ∷ [])
