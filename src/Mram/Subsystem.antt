-- ===== src/Mram/Subsystem.antt =====
-- src/subsystem.rs of mram-service, as tools/apply-mram-env-region.py writes it: opening the chip
-- twice, once for the environment and once, behind the payload window, for the file system. What other
-- crates do (opening a backend, mounting littlefs) is an argument. u32 arithmetic wraps around.
pub mod Region
pub mod Files
use radsat_linux.Base.{
  ℕ, zero, suc, ◌+◌, ◌-◌, ◌%◌, ◌^◌, Bool, true, false, not, ◌&&◌, ◌||◌, List, [], ◌∷◌, Option, none,
  some, Bytes, codes, bytes_eq, ltb, ◌==◌, if◌then◌else◌,
}
use radsat_linux.Base.Int.{ℤ, pos, negsuc}
use radsat_linux.Base.Result.{Result, ok, err, ◌>>=◌, ◌>>◌, fail_if, or_err}
use radsat_linux.Mram.Region.{
  uboot_env_size, uboot_env_offset, payload_capacity_bytes, uboot_env_crc,
}
use radsat_linux.Mram.Fs.{FsError, mount}
use radsat_linux.Mram.Window
use radsat_linux.Mram.Window.{ByteStorage, PayloadWindow, BackendError, checked_add}

-- `config.get(key).and_then(as_str)` or `.and_then(as_integer)` of each key
pub record Config : Type 0 where
  pub backend : Option Bytes
  pub env_offset : Option ℤ
  pub env_size : Option ℤ
  pub image_path : Option Bytes
  pub image_capacity_bytes : Option ℤ
  pub spi_device : Option Bytes
  pub spi_speed_hz : Option ℤ
  pub spi_mode : Option ℤ

pub data ConfigError : Type 0 where
  open_failed : BackendError → ConfigError
  spidev_not_built : ConfigError
  unsupported_backend : Bytes → ConfigError
  invalid_env_region : ℕ → ℕ → ℕ → ConfigError
  not_at_high_end : ℕ → ℕ → ConfigError
  env_offset_mismatch : ConfigError
  window_failed : BackendError → ConfigError
  mount_failed : FsError → ConfigError

-- `v as uN` on an i64
abbrev pub as_unsigned : ℕ → ℤ → ℕ
as_unsigned modulus (pos n) = n % modulus
as_unsigned modulus (negsuc n) = modulus - 1 - n % modulus

abbrev pub unwrap_or {ℓ} : {A : Type ℓ} → Option A → A → A
unwrap_or none d = d
unwrap_or (some a) d = a

-- `.map(|v| v as u32).unwrap_or(default)`
abbrev pub u32_or : Option ℤ → ℕ → ℕ
u32_or none d = d
u32_or (some v) d = as_unsigned (2 ^ 32) v

abbrev pub u8_or : Option ℤ → ℕ → ℕ
u8_or none d = d
u8_or (some v) d = as_unsigned (2 ^ 8) v

abbrev pub map_err {ℓ} : {A : Type ℓ} {E F : Type 0} → (E → F) → Result E A → Result F A
map_err f (ok a) = ok a
map_err f (err e) = err (f e)

pub record Subsystem (S F : Type 0) : Type 0 where
  pub fs : F
  pub device : S
  pub backend_name : Bytes
  pub env_offset : ℕ
  pub env_size : ℕ

pub record EnvRegionInfo : Type 0 where
  pub offset : ℕ
  pub size : ℕ
  pub capacity_bytes : ℕ
  pub payload_capacity_bytes : ℕ
  pub crc_valid : Bool
  pub crc : ℕ

pub data RangeError : Type 0 where
  offset_overflow : RangeError
  into_env_region : ℕ → ℕ → ℕ → RangeError

-- the three tests on the region, `env_offset`, `env_size` and `capacity` being u32
unfoldable pub check_region : ℕ → ℕ → ℕ → ℕ → Result ConfigError (Unit {0})
check_region capacity_bytes env_offset env_size capacity = do
  fail_if (env_size == 0 || ltb capacity (unwrap_or (checked_add env_offset env_size) (2 ^ 32 - 1)))
      (invalid_env_region env_offset env_size capacity)
  fail_if (not ((env_offset + env_size) % 2 ^ 32 == capacity)) (not_at_high_end env_offset env_size)
  fail_if
      (not (env_offset == payload_capacity_bytes capacity_bytes)
        && env_size == uboot_env_size
        && not (env_offset == capacity - env_size))
      env_offset_mismatch

module _ {S F : Type 0} (storage : ByteStorage S) (capacity_bytes : ℕ)
    (file_image : Bytes → ℕ → Result BackendError S)
    (spidev : Option (Bytes → ℕ → ℕ → Result BackendError S))
    (mount_volume : PayloadWindow S → Result FsError F) where
  -- the `match backend.as_str()` that opens the chip; `spidev` is none in a build without that feature
  unfoldable pub open_backend : Config → Result ConfigError S
  open_backend config =
      let backend = unwrap_or config.backend (codes "file") in
      if bytes_eq backend (codes "file")
      then map_err open_failed (
          file_image (unwrap_or config.image_path (codes "/tmp/mram-service.img"))
            (u32_or config.image_capacity_bytes capacity_bytes))
      else if bytes_eq backend (codes "spidev")
      then elim spidev [
        | none ↦ err spidev_not_built
        | some spidev_new ↦ map_err open_failed (
            spidev_new (unwrap_or config.spi_device (codes "/dev/spidev1.0"))
              (u32_or config.spi_speed_hz 10000000) (u8_or config.spi_mode 0))
      ]
      else err (unsupported_backend backend)

  -- `from_config` once the keys are read: `opened` is what opening the chip gives, each time it is opened
  unfoldable pub start : Result ConfigError S → Bytes → ℕ → ℕ → Result ConfigError (Subsystem S F)
  start opened backend env_offset env_size = do
    device ← opened
    check_region capacity_bytes env_offset env_size (storage.capacity device)
    storage2 ← opened
    window ← map_err window_failed (Window.new storage storage2 env_offset)
    fs ← map_err mount_failed (mount capacity_bytes mount_volume window)
    ok (record {
      fs = fs;
      device = device;
      backend_name = backend;
      env_offset = env_offset;
      env_size = env_size;
    })

  unfoldable pub from_config : Config → Result ConfigError (Subsystem S F)
  from_config config =
      start (open_backend config) (unwrap_or config.backend (codes "file"))
        (u32_or config.env_offset (uboot_env_offset capacity_bytes))
        (u32_or config.env_size uboot_env_size)

  abbrev pub region_info : Subsystem S F → ℕ → Bytes → Result BackendError EnvRegionInfo
  region_info sub capacity_bytes blob =
      let (crc, crc_valid) = unwrap_or (uboot_env_crc blob) (0, false) in
      ok (record {
        offset = sub.env_offset;
        size = sub.env_size;
        capacity_bytes = capacity_bytes;
        payload_capacity_bytes = sub.env_offset;
        crc_valid = crc_valid;
        crc = crc;
      })

  unfoldable pub read_env_blob : Subsystem S F → Result BackendError Bytes × Subsystem S F
  read_env_blob sub =
      let (blob, device) = storage.read sub.device sub.env_offset sub.env_size in
      (blob, record sub { device = device })

  -- a blob that is too small counts as one with the checksum 0, which is not valid
  unfoldable pub env_region_info : Subsystem S F → Result BackendError EnvRegionInfo × Subsystem S F
  env_region_info sub =
      let (blob, device) = storage.read sub.device sub.env_offset sub.env_size in
      (blob >>= region_info sub (storage.capacity device), record sub { device = device })

  unfoldable pub ensure_payload_range : Subsystem S F → ℕ → ℕ → Result RangeError (Unit {0})
  ensure_payload_range sub offset len = do
    end ← or_err (checked_add offset len) offset_overflow
    fail_if (ltb sub.env_offset end) (into_env_region offset len sub.env_offset)
