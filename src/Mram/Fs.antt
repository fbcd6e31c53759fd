-- ===== src/Mram/Fs.antt =====
-- Mounting the file system of mram-service, src/fs.rs: the size test that tools/apply-mram-env-region.py writes. The
-- mount of littlefs behind it is the argument `mount_volume`.
use radsat_linux.Base.{ℕ, not, ◌==◌}
use radsat_linux.Base.Result.{Result, ◌>>◌, fail_if}
use radsat_linux.Mram.Region.{payload_capacity_bytes}
use radsat_linux.Mram.Window.{PayloadWindow}

pub data FsError : Type 0 where
  -- actual, expected
  capacity_mismatch : ℕ → ℕ → FsError
  volume_failed : FsError

unfoldable pub mount :
    {S F : Type 0} → ℕ → (PayloadWindow S → Result FsError F) → PayloadWindow S → Result FsError F
mount capacity_bytes mount_volume backend = do
  let expected = payload_capacity_bytes capacity_bytes
  fail_if (not (backend.payload_capacity == expected))
      (capacity_mismatch backend.payload_capacity expected)
  mount_volume backend
