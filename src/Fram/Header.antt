-- ===== src/Fram/Header.antt =====
-- The layout header of fram-service's src/layout.rs, as tools/apply-mram-fram-plan.py writes it. The backend
-- behind `self.storage` has the interface of `ByteStorage`. RESERVED_KEYS and LAYOUT_VERSION are arguments: they
-- are 32 and 1 in the first layout, and tools/apply-fram-layout-v4.py makes them 40 and 4.
pub mod RoundTrip
pub mod Slots
pub mod Regions
pub mod Mount
use radsat_linux.Base.{
  ℕ, ◌+◌, ◌*◌, ◌/◌, ◌%◌, ◌^◌, Bool, true, false, ◌&&◌, List, [], ◌∷◌, Option, none, some, Bytes,
  ◌==◌, if◌then◌else◌, replicate, get_or,
}
use radsat_linux.Base.Result.{Result, ok, err}
use radsat_linux.Fram.Record.{fram_slots_per_key, fram_record_size}
use radsat_linux.Fram.Record.Fields.{u32_le}
use radsat_linux.Mram.Region.{from_le_bytes}
use radsat_linux.Mram.Window.{ByteStorage, BackendError}

-- MISSION_REGION_END, and LAYOUT_HEADER_OFFSET behind it
abbrev pub mission_region_end : ℕ → ℕ
mission_region_end reserved_keys = reserved_keys * fram_slots_per_key * fram_record_size

abbrev pub layout_header_size : ℕ
layout_header_size = 16

abbrev pub layout_magic : ℕ
layout_magic = 0x4d415246

-- the 16 bytes that `ensure_layout_header` writes
unfoldable pub header_bytes : ℕ → Bytes
header_bytes version =
    u32_le layout_magic ((version % 256) ∷ (version / 2 ^ 8 % 256) ∷ replicate 10 0)

-- the test on the 16 bytes that `verify_layout_header` reads
unfoldable pub header_valid : ℕ → Bytes → Bool
header_valid version raw =
    from_le_bytes raw == layout_magic && get_or raw 4 0 + get_or raw 5 0 * 2 ^ 8 == version

module _ {S : Type 0} (storage : ByteStorage S) (reserved_keys layout_version : ℕ) where
  unfoldable pub verify_layout_header : S → Result BackendError Bool × S
  verify_layout_header s =
      let (outcome, s2) = storage.read s (mission_region_end reserved_keys) 16 in
      elim outcome [ err e ↦ (err e, s2) | ok raw ↦ (ok (header_valid layout_version raw), s2) ]

  unfoldable pub ensure_layout_header : S → Result BackendError (Unit {0}) × S
  ensure_layout_header s =
      let (outcome, s2) = verify_layout_header s in
      elim outcome [
        | err e ↦ (err e, s2)
        | ok true ↦ (ok tt, s2)
        | ok false ↦
            storage.write s2 (mission_region_end reserved_keys) (header_bytes layout_version)
      ]

  unfoldable pub layout_version_of : S → Result BackendError (Option ℕ) × S
  layout_version_of s =
      let (outcome, s2) = verify_layout_header s in
      elim outcome [
        | err e ↦ (err e, s2)
        | ok valid ↦ (ok (if valid then some layout_version else none), s2)
      ]
