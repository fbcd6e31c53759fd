-- ===== src/Tests/Subsystem.antt =====
-- A running subsystem on a small file system, which keeps one file at the low end of its window.
use radsat_linux.Base.Int.{pos}
use radsat_linux.Mram.Driver.{saveenv}
use radsat_linux.Mram.Region.{crc32_uboot}
use radsat_linux.Mram.Schema.{env_region}
use radsat_linux.Mram.Schema.Saved.{valid_region, env_region-saveenv}
use radsat_linux.Base.{ℕ, ◌≡◌, refl, List, [], ◌∷◌, none, false, Bytes, codes, arith}
use radsat_linux.Base.Result.{Result, ok}
use radsat_linux.Mram.Window
use radsat_linux.Mram.Window.{PayloadWindow, BackendError}
use radsat_linux.Mram.Window.Guard.{access, access_all, write_at}
use radsat_linux.Mram.Fs.{FsError, mount}
use radsat_linux.Mram.Subsystem.{Subsystem, check_region, open_backend, start, from_config}
use radsat_linux.Mram.Subsystem.Files.{
  TinyMramFs, Call, write_file, delete_file, env_region_info, share, call_all,
}
use radsat_linux.Mram.Subsystem.Files.Kept.{IsWindowed, IsShared, call_all-from_config}
use radsat_linux.Tests.Mram.{
  spi, spi_works, blank_chip, env_blob, blob_size, blob_valid, storage-IsArray, env_data, storage,
  storage_works, image, config,
}

abbrev Volume : Type 0
Volume = PayloadWindow (ℕ → ℕ)

abbrev mount_volume : Volume → Result FsError Volume
mount_volume w = ok w

abbrev tiny : TinyMramFs Volume Bytes Bytes ℕ
tiny = record {
  list_files = λ w. (ok [], w);
  file = λ name w. (ok none, w);
  read_file = λ name offset len w. (ok [], w);
  write_file = λ name mime_type compressed bytes w. (ok name, (Window.write storage w 0 bytes).1);
  delete_file = λ name w. (ok false, w);
  format = λ w. (ok tt, w);
  stats = λ w. (ok 0, w);
}

tiny-IsWindowed : IsWindowed storage mount_volume tiny (λ w. w)
unfolding access access_all
tiny-IsWindowed = record {
  mount_volume_reached = λ w fs h. ([], cc);
  list_files_reached = λ fs. ([], refl);
  file_reached = λ name fs. ([], refl);
  read_file_reached = λ name offset len fs. ([], refl);
  write_file_reached = λ name mime_type compressed bytes fs. (write_at 0 bytes ∷ [], refl);
  delete_file_reached = λ name fs. ([], refl);
  format_reached = λ fs. ([], refl);
  stats_reached = λ fs. ([], refl);
}

-- the handles are open on one memory
abbrev seen : Volume → (ℕ → ℕ) → ℕ → ℕ
seen w device = w.inner

seen-IsShared : IsShared storage (λ s. s) (λ w. w) seen
seen-IsShared = record { seen_bytes = λ w device n. refl; seen_capacity = λ w device. refl }

abbrev mounted : Subsystem (ℕ → ℕ) Volume
mounted = record {
  fs = record { inner = λ n. 0; payload_capacity = 514048 };
  device = λ n. 0;
  backend_name = codes "file";
  env_offset = 514048;
  env_size = 10240;
}

mounts : from_config storage 524288 image none mount_volume config ≡ ok mounted
unfolding from_config start open_backend check_region Window.new mount
mounts = refl

abbrev calls : List Call
calls =
    write_file (codes "a") none false (codes "text")
    ∷ delete_file (codes "b")
    ∷ env_region_info
    ∷ []

abbrev served : Subsystem (ℕ → ℕ) Volume
served =
    call_all storage 524288 image none mount_volume tiny seen calls
      (share storage 524288 image none mount_volume tiny seen mounted)

call_all-from_config_example : (served.fs.inner 514048 ≡ 0) × (served.device 514048 ≡ 0)
call_all-from_config_example =
    call_all-from_config storage (λ s. s) storage_works 524288 image none mount_volume tiny (λ w. w)
      tiny-IsWindowed seen seen-IsShared config mounted calls 514048 (omega arith)
      (λ s. omega arith) mounts (omega arith)

-- the chip behind U-Boot's saveenv, and the service on it
abbrev saved_chip : ℕ → ℕ
saved_chip = (saveenv spi (pos 0, env_blob) blank_chip).1.memory

abbrev saved_image : Bytes → ℕ → Result BackendError (ℕ → ℕ)
saved_image path capacity = ok saved_chip

abbrev saved_sub : Subsystem (ℕ → ℕ) Volume
saved_sub = record {
  fs = record { inner = saved_chip; payload_capacity = 514048 };
  device = saved_chip;
  backend_name = codes "file";
  env_offset = 514048;
  env_size = 10240;
}

saved_starts : from_config storage 524288 saved_image none mount_volume config ≡ ok saved_sub
unfolding from_config start open_backend check_region Window.new mount
saved_starts = refl

env_region-saveenv_example :
    (env_region storage 524288 saved_image none mount_volume (
      call_all storage 524288 saved_image none mount_volume tiny seen calls
        (share storage 524288 saved_image none mount_volume tiny seen saved_sub))).0
    ≡ ok (valid_region (crc32_uboot env_data))
env_region-saveenv_example =
    env_region-saveenv storage saved_image none mount_volume tiny (λ s. s) storage-IsArray (λ w. w)
      seen seen-IsShared spi (λ s. s.memory) (λ s. s.latch) spi_works storage_works tiny-IsWindowed
      blank_chip env_blob (crc32_uboot env_data) config saved_sub calls blob_size blob_valid
      (λ s. refl) saved_starts (λ n. refl)
