-- ===== src/Tests/Mram.antt =====
-- The MRAM side, on a chip that is a memory with a write latch.
use radsat_linux.Base.{
  ℕ, zero, suc, ◌+◌, ◌-◌, ◌*◌, ◌^◌, ◌≤◌, ◌≡◌, ◌≢◌, ◌↔◌, ◌⊎◌, refl, Bool, true, false, List, [], ◌∷◌,
  ◌++◌, none, some, Bytes, codes, arith, replicate, length, length-replicate, get_or, ◌==◌,
  if◌then◌else◌, All,
}
use radsat_linux.Base.Int.{ℤ, pos, negsuc}
use radsat_linux.Base.Result.{Result, ok, err}
use radsat_linux.Fram.Record.Fields.{u32_le}
use radsat_linux.Mram.Driver.{Spi, Ext4, config_env_size, saveenv, env_relocate_spec, relocate_read}
use radsat_linux.Mram.Driver.Chip.{IsMram, contents, written}
use radsat_linux.Mram.Driver.Saved.{relocate-saveenv}
use radsat_linux.Mram.Driver.Relocate.{takes_defaults, env_import_polarity}
use radsat_linux.Mram.Region.{crc32_uboot, uboot_env_crc, uboot_env_size}
use radsat_linux.Mram.Region.Checksum.{uboot_env_crc_detects}
use radsat_linux.Mram.Mirror.{s79-saveenv}
use radsat_linux.Mram.Startup.{s79}
use radsat_linux.Mram.Startup
use radsat_linux.Mram.Sync.{write_out, Options, Files, defaults, parse_args, open_storage, main}
use radsat_linux.Mram.Window.Guard.{
  Access, IsStorage, read_at, write_at, access_all, access_all_guard,
}
use radsat_linux.Fram.Crc.{IsByte}
use radsat_linux.Mram.Window
use radsat_linux.Mram.Window.{ByteStorage, PayloadWindow, BackendError, check_bounds, out_of_bounds}
use radsat_linux.Mram.Window.Refines.{IsArray, answers, array_answers, answers-refine}
use radsat_linux.Mram.Fs.{mount}
use radsat_linux.Mram.Subsystem.{
  Config, Subsystem, check_region, env_offset_mismatch, open_backend, start, from_config,
}
use radsat_linux.Mram.Subsystem.Region.{check_region_iff, from_config_lem, IsStarted}
use radsat_linux.Mram.Sync.Copy.{Copied, main-Copied}

pub record Chip : Type 0 where
  pub memory : ℕ → ℕ
  pub latch : Bool

abbrev chip_xfer : Chip → Bytes → ℤ × Bytes × Chip
chip_xfer s [] = (pos 0, [], s)
chip_xfer s (c ∷ []) = (pos 0, c ∷ [], record s { latch = true })
chip_xfer s (c ∷ h ∷ []) = (pos 0, c ∷ h ∷ [], s)
chip_xfer s (c ∷ h ∷ m ∷ []) = (pos 0, c ∷ h ∷ m ∷ [], s)
chip_xfer s (c ∷ h ∷ m ∷ l ∷ rest) =
    let base = h * 2 ^ 16 + m * 2 ^ 8 + l in
    if c == 0x03 then (pos 0, c ∷ h ∷ m ∷ l ∷ contents s.memory base (length rest), s) else (
      pos 0,
      c ∷ h ∷ m ∷ l ∷ rest,
      if s.latch then record { memory = written base rest s.memory; latch = false } else s,
    )

abbrev pub spi : Spi Chip
spi = record {
  setup_slave = λ s. some s;
  free_slave = λ s. s;
  claim_bus = λ s. (pos 0, s);
  xfer = chip_xfer;
  release_bus = λ s. s;
  malloc_ok = λ n. true;
}

stored :
    (s : Chip) (base : ℕ) (bytes : Bytes) (n : ℕ)
    → s.latch ≡ true
    → (if s.latch then record { memory = written base bytes s.memory; latch = false } else s).memory
        n
      ≡ written base bytes s.memory n
stored s base bytes n h = rw h refl

pub spi_works : IsMram spi (λ s. s.memory) (λ s. s.latch)
spi_works = record {
  setup_ok = λ s. (s, refl, λ n. refl);
  free_mem = λ s n. refl;
  claim_ok = λ s. refl;
  claim_mem = λ s n. refl;
  claim_latch = λ s. refl;
  release_mem = λ s n. refl;
  release_latch = λ s. refl;
  has_memory = λ n h. refl;
  wren_ok = λ s. refl;
  wren_mem = λ s n. refl;
  wren_latch = λ s. refl;
  write_ok = λ s h m l bytes. refl;
  write_mem = λ s h m l bytes n e. stored s (h * 2 ^ 16 + m * 2 ^ 8 + l) bytes n e;
  read_ok = λ s h m l pad. refl;
  read_bytes = λ s h m l pad. refl;
}

abbrev pub blank_chip : Chip
blank_chip = record { memory = λ n. 0; latch = false }

-- U-Boot's env_import, for a blob that it takes
abbrev accepts : Bytes → ℤ
accepts blob = pos 1

abbrev no_card : Ext4
no_card = record { get_part = negsuc 0; mounts = false; read_file = (negsuc 0, []) }

relocate-saveenv_example :
    ((saveenv spi (pos 0, replicate config_env_size 7) blank_chip).0 ≡ pos 0)
    × ((env_relocate_spec accepts spi
          (saveenv spi (pos 0, replicate config_env_size 7) blank_chip).1
          no_card).1
        ≡ relocate_read accepts (pos 0) (some (replicate config_env_size 7)) no_card)
relocate-saveenv_example =
    relocate-saveenv spi (λ s. s.memory) (λ s. s.latch) spi_works accepts blank_chip
      (replicate config_env_size 7) no_card (length-replicate {A = ℕ} config_env_size 7)

env_import_polarity_example :
    let saved = (saveenv spi (pos 0, replicate config_env_size 7) blank_chip).1 in
    (takes_defaults (env_relocate_spec accepts spi saved no_card).1 ≡ true)
    × (takes_defaults (env_relocate_spec (λ b. pos 0) spi saved no_card).1 ≡ false)
env_import_polarity_example =
    env_import_polarity spi (λ s. s.memory) (λ s. s.latch) spi_works accepts (λ b. pos 0) blank_chip
      (replicate config_env_size 7) no_card (length-replicate {A = ℕ} config_env_size 7) (λ b. refl)
      refl

uboot_env_crc_detects_example :
    let crc = crc32_uboot ([] ++ 1 ∷ 3 ∷ []) in
    (uboot_env_crc (u32_le crc ([] ++ 1 ∷ 3 ∷ [])) ≡ some (crc, true))
    × (uboot_env_crc (u32_le crc ([] ++ 2 ∷ 3 ∷ [])) ≡ some (crc, false))
uboot_env_crc_detects_example =
    uboot_env_crc_detects [] 1 2 (3 ∷ []) tt (omega arith) (omega arith) (omega arith, tt)
      (λ e. omega arith)

-- a storage of 512 KiB of which every access succeeds
abbrev pub storage : ByteStorage (ℕ → ℕ)
storage = record {
  capacity = λ s. 524288;
  read = λ s offset len. (ok (contents s offset len), s);
  write = λ s offset bytes. (ok tt, written offset bytes s);
}

get_or-behind : (bytes : Bytes) (i d : ℕ) → length bytes ≤ i → get_or bytes i d ≡ d
get_or-behind [] i d h = refl
get_or-behind (b ∷ bytes) zero d h = absurd (omega arith)
get_or-behind (b ∷ bytes) (suc i) d h = get_or-behind bytes i d (omega arith)

pub storage_works : IsStorage storage (λ s. s)
storage_works = record {
  read_mem = λ s offset len n. refl;
  write_mem =
      λ s offset bytes n h. ground (arith, get_or-behind bytes (n - offset) (s n) (omega arith));
}

abbrev window : PayloadWindow (ℕ → ℕ)
window = record { inner = λ n. 9; payload_capacity = 514048 }

access_all_guard_example :
    (access_all storage window
        (write_at 514040 (replicate 8 1) ∷ write_at 514048 (2 ∷ []) ∷ [])).inner
      514048
    ≡ window.inner 514048
access_all_guard_example =
    access_all_guard storage (λ s. s) storage_works
      (write_at 514040 (replicate 8 1) ∷ write_at 514048 (2 ∷ []) ∷ []) window 514048 (omega arith)
      (omega arith)

pub storage-IsArray : IsArray storage (λ s. s)
storage-IsArray = record {
  read_out = λ s offset len h. refl;
  read_mem = λ s offset len n. refl;
  read_capacity = λ s offset len. refl;
  write_out = λ s offset bytes h. refl;
  write_mem = λ s offset bytes n h. refl;
  write_capacity = λ s offset bytes. refl;
}

answers-refine_example :
    answers storage window
      (write_at 514040 (replicate 8 1) ∷ write_at 514048 (2 ∷ []) ∷ read_at 514046 2 ∷ [])
    ≡ array_answers 514048
        (λ n. 9)
        (write_at 514040 (replicate 8 1) ∷ write_at 514048 (2 ∷ []) ∷ read_at 514046 2 ∷ [])
answers-refine_example =
    answers-refine storage (λ s. s) storage-IsArray
      (write_at 514040 (replicate 8 1) ∷ write_at 514048 (2 ∷ []) ∷ read_at 514046 2 ∷ []) window
      514048 (λ n. 9) (omega arith) refl (omega arith) (λ n. refl)

check_region_example :
    ((check_region 524288 514048 10240 524288 ≡ ok tt)
      ↔ ((uboot_env_size ≢ 0) × (514048 + 10240 ≡ 524288)))
    × (check_region 524288 514048 10240 524288 ≢ err env_offset_mismatch)
check_region_example =
    check_region_iff 524288 514048 10240 524288 (omega arith) (omega arith) (omega arith)

abbrev pub image : Bytes → ℕ → Result BackendError (ℕ → ℕ)
image path capacity = ok (λ n. 0)

abbrev pub config : Config
config = record {
  backend = none;
  env_offset = none;
  env_size = some (pos 10240);
  image_path = none;
  image_capacity_bytes = none;
  spi_device = none;
  spi_speed_hz = none;
  spi_mode = none;
}

abbrev sub : Subsystem (ℕ → ℕ) (Unit {0})
sub = record {
  fs = tt;
  device = λ n. 0;
  backend_name = codes "file";
  env_offset = 514048;
  env_size = 10240;
}

starts : from_config storage 524288 image none (λ w. ok tt) config ≡ ok sub
unfolding from_config start open_backend check_region Window.new mount
starts = refl

from_config_example : IsStarted storage 524288 image none (λ w. ok tt) sub
from_config_example =
    from_config_lem storage 524288 image none (λ w. ok tt) config sub (omega arith)
      (λ s. omega arith) starts

-- the files of the host, as a list of path and contents
abbrev files : Files (List (Bytes × Bytes))
files = record { create_parent = λ f path. f; store = λ f path bytes. (true, (path, bytes) ∷ f) }

abbrev arguments : List Bytes
arguments =
    codes "--backend"
    ∷ codes "file"
    ∷ codes "--image"
    ∷ codes "mram.img"
    ∷ codes "--size"
    ∷ codes "8"
    ∷ []

main-Copied_example :
    ((main storage files 524288 image none arguments []).1 ≡ [])
    ⊎ ((o : Options) × (s : ℕ → ℕ) × (parse_args (defaults 524288) arguments ≡ ok o)
        × (open_storage storage files 524288 image none o ≡ ok s)
        × Copied files o []
            (storage.read s o.offset o.size).0
            (main storage files 524288 image none arguments []).1)
main-Copied_example = main-Copied storage files 524288 image none arguments []

-- 10,236 bytes of environment data, and the blob
abbrev pub env_data : Bytes
env_data = [] ++ 0 ∷ replicate 10235 0

abbrev pub env_blob : Bytes
env_blob = u32_le (crc32_uboot env_data) env_data

zeros-All : (n : ℕ) → All IsByte (replicate n 0)
zeros-All zero = tt
zeros-All (suc n) = (omega arith, zeros-All n)

pub blob_valid : uboot_env_crc env_blob ≡ some (crc32_uboot env_data, true)
blob_valid =
    (uboot_env_crc_detects [] 0 1 (replicate 10235 0) tt (omega arith) (omega arith)
      (zeros-All 10235) (λ e. omega arith)).0

pub blob_size : length env_blob ≡ config_env_size
blob_size = omega (arith, length-replicate {A = ℕ} 10235 0)

-- the chip as Linux finds it
abbrev left_window : PayloadWindow (ℕ → ℕ)
left_window = record {
  inner = (saveenv spi (pos 0, env_blob) blank_chip).1.memory;
  payload_capacity = 514048;
}

abbrev calls : List Access
calls = write_at 514040 (replicate 8 1) ∷ write_at 514048 (2 ∷ []) ∷ []

abbrev found_chip : ℕ → ℕ
found_chip = (access_all storage left_window calls).inner

s79-saveenv_example :
    s79
      (λ f. f)
      (main storage files 524288 image (some (λ device speed mode. ok found_chip)))
      true
      Startup.start
      []
    ≡ (0, (write_out files (defaults 524288) [] env_blob).1)
s79-saveenv_example =
    s79-saveenv storage files image (λ device speed mode. ok found_chip) spi (λ s. s.memory)
      (λ s. s.latch) spi_works (λ s. s) storage_works storage-IsArray blank_chip env_blob
      (crc32_uboot env_data) left_window calls found_chip (λ f. f) [] blob_size blob_valid
      (λ n. refl) (omega arith) (λ n. refl) refl refl
