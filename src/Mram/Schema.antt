-- ===== src/Mram/Schema.antt =====
-- The queries `storage` and `envRegion` of mram-service's src/schema.rs, as tools/apply-mram-env-region.py writes them.
pub mod Saved
use radsat_linux.Base.{ℕ, Bool, Option, Bytes}
use radsat_linux.Base.Int.{ℤ, pos}
use radsat_linux.Base.Result.{Result, ok, ◌>>=◌}
use radsat_linux.Mission.State.{as_i64}
use radsat_linux.Mram.Fs.{FsError}
use radsat_linux.Mram.Window.{ByteStorage, PayloadWindow, BackendError}
use radsat_linux.Mram.Subsystem
use radsat_linux.Mram.Subsystem.{Subsystem, EnvRegionInfo}

-- what `stats()` of the file system reports
pub record StorageStats : Type 0 where
  pub capacity_bytes : ℕ
  pub allocated_bytes : ℕ
  pub live_bytes : ℕ
  pub reclaimable_bytes : ℕ
  pub free_bytes : ℕ
  pub file_count : ℕ

pub record StorageInfo : Type 0 where
  pub backend : Bytes
  pub capacity_bytes : ℤ
  pub allocated_bytes : ℤ
  pub live_bytes : ℤ
  pub reclaimable_bytes : ℤ
  pub free_bytes : ℤ
  pub file_count : ℤ

pub record EnvRegion : Type 0 where
  pub offset : ℤ
  pub size : ℤ
  pub capacity_bytes : ℤ
  pub payload_capacity_bytes : ℤ
  pub crc_valid : Bool
  pub crc : ℤ

abbrev pub as_storage_info : Bytes → StorageStats → StorageInfo
as_storage_info backend stats = record {
  backend = backend;
  capacity_bytes = as_i64 stats.capacity_bytes;
  allocated_bytes = as_i64 stats.allocated_bytes;
  live_bytes = as_i64 stats.live_bytes;
  reclaimable_bytes = as_i64 stats.reclaimable_bytes;
  free_bytes = as_i64 stats.free_bytes;
  file_count = as_i64 stats.file_count;
}

abbrev pub as_env_region : EnvRegionInfo → EnvRegion
as_env_region info = record {
  offset = as_i64 info.offset;
  size = as_i64 info.size;
  capacity_bytes = as_i64 info.capacity_bytes;
  payload_capacity_bytes = as_i64 info.payload_capacity_bytes;
  crc_valid = info.crc_valid;
  crc = as_i64 info.crc;
}

module _ {S F : Type 0} (storage : ByteStorage S) (capacity_bytes : ℕ)
    (file_image : Bytes → ℕ → Result BackendError S)
    (spidev : Option (Bytes → ℕ → ℕ → Result BackendError S))
    (mount_volume : PayloadWindow S → Result FsError F) where
  -- the query `storage`; `stats` is that of the file system
  unfoldable pub storage_info :
      (F → Result FsError StorageStats × F)
      → Subsystem S F
      → Result FsError StorageInfo × Subsystem S F
  storage_info stats sub =
      let (outcome, fs) = stats sub.fs in
      (outcome >>= λ s. ok (as_storage_info sub.backend_name s), record sub { fs = fs })

  unfoldable pub env_region : Subsystem S F → Result BackendError EnvRegion × Subsystem S F
  env_region sub =
      let (info, next) =
        Subsystem.env_region_info storage capacity_bytes file_image spidev mount_volume sub in
      (info >>= λ i. ok (as_env_region i), next)
