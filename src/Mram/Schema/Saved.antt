-- ===== src/Mram/Schema/Saved.antt =====
-- What `envRegion` says of the environment that U-Boot saved.
use radsat_linux.Base.{
  ℕ, ◌≡◌, refl, sym, ap, ◌∙◌, Bool, true, List, [], ◌∷◌, Option, some, Bytes, arith, length,
}
use radsat_linux.Base.Int.{pos}
use radsat_linux.Base.Result.{Result, ok}
use radsat_linux.Mission.State.{as_i64}
use radsat_linux.Mram.Driver.{Spi, saveenv, config_env_mram_offset, config_env_size}
use radsat_linux.Mram.Driver.Chip.{IsMram, contents, written, contents-written}
use radsat_linux.Mram.Driver.Saved.{saveenv_lem}
use radsat_linux.Mram.Fs.{FsError}
use radsat_linux.Mram.Mirror.{contents_from}
use radsat_linux.Mram.Region.{uboot_env_crc}
use radsat_linux.Mram.Window.{ByteStorage, PayloadWindow, BackendError}
use radsat_linux.Mram.Window.Guard.{IsStorage}
use radsat_linux.Mram.Window.Refines.{IsArray}
use radsat_linux.Mram.Subsystem
use radsat_linux.Mram.Subsystem.{Config, Subsystem, from_config}
use radsat_linux.Mram.Subsystem.Region.{from_config_lem}
use radsat_linux.Mram.Subsystem.Files.{
  TinyMramFs, Call, env_region_info, read_env_blob, serve, call, share, call_all,
}
use radsat_linux.Mram.Subsystem.Files.Kept.{IsWindowed, IsShared, call_all-from_config}
use radsat_linux.Mram.Schema.{EnvRegion, env_region}

-- what `envRegion` answers for a chip of 512 KiB whose environment has the right checksum `crc`
abbrev pub valid_region : ℕ → EnvRegion
valid_region crc = record {
  offset = pos 514048;
  size = pos 10240;
  capacity_bytes = pos 524288;
  payload_capacity_bytes = pos 514048;
  crc_valid = true;
  crc = as_i64 crc;
}

module _ {S F FileRecord FilePayload StorageStats : Type 0} (storage : ByteStorage S)
    (file_image : Bytes → ℕ → Result BackendError S)
    (spidev : Option (Bytes → ℕ → ℕ → Result BackendError S))
    (mount_volume : PayloadWindow S → Result FsError F)
    (tiny : TinyMramFs F FileRecord FilePayload StorageStats) (bytes_of : S → ℕ → ℕ)
    (reads : IsArray storage bytes_of) (window_of : F → PayloadWindow S) (seen : F → S → S)
    (shared : IsShared storage bytes_of window_of seen) where
  env_region_valid :
      (sub : Subsystem S F) (blob : Bytes) (crc : ℕ)
      → sub.env_offset ≡ 514048
      → sub.env_size ≡ 10240
      → storage.capacity sub.device ≡ 524288
      → contents (bytes_of sub.device) 514048 10240 ≡ blob
      → uboot_env_crc blob ≡ some (crc, true)
      → (env_region storage 524288 file_image spidev mount_volume sub).0 ≡ ok (valid_region crc)
  unfolding env_region Subsystem.env_region_info
  env_region_valid sub blob crc offset size capacity held valid =
      rw
        (
          offset,
          size,
          reads.read_capacity sub.device 514048 10240,
          capacity,
          reads.read_out sub.device 514048 10240 (omega arith),
          held,
          valid,
        )
        refl

  abbrev IsSized : Subsystem S F → Subsystem S F → Type 0
  IsSized sub next =
      (next.env_offset ≡ sub.env_offset)
      × (next.env_size ≡ sub.env_size)
      × (storage.capacity next.device ≡ storage.capacity sub.device)

  serve-IsSized :
      (c : Call) (sub : Subsystem S F)
      → IsSized sub (serve storage 524288 file_image spidev mount_volume tiny seen c sub)
  unfolding serve Subsystem.env_region_info Subsystem.read_env_blob
  serve-IsSized env_region_info sub =
      (refl, refl, reads.read_capacity sub.device sub.env_offset sub.env_size)
  serve-IsSized read_env_blob sub =
      (refl, refl, reads.read_capacity sub.device sub.env_offset sub.env_size)
  serve-IsSized _ sub = (refl, refl, refl)

  call-IsSized :
      (c : Call) (sub : Subsystem S F)
      → IsSized sub (call storage 524288 file_image spidev mount_volume tiny seen c sub)
  unfolding call
  call-IsSized c sub =
      let (offset, size, capacity) = serve-IsSized c sub in
      (offset, size, shared.seen_capacity _ _ ∙ capacity)

  call_all-IsSized :
      (calls : List Call) (sub : Subsystem S F)
      → IsSized sub (call_all storage 524288 file_image spidev mount_volume tiny seen calls sub)
  unfolding call_all
  call_all-IsSized [] sub = (refl, refl, refl)
  call_all-IsSized (c ∷ calls) sub =
      let next = call storage 524288 file_image spidev mount_volume tiny seen c sub in
      let (offset, size, capacity) = call-IsSized c sub in
      let (offset_left, size_left, capacity_left) = call_all-IsSized calls next in
      (offset_left ∙ offset, size_left ∙ size, capacity_left ∙ capacity)

  -- U-Boot's `saveenv` of a blob with a right checksum, then a start of mram-service on the chip as it was left, then any
  -- calls of the service, writes of files among them, on the same chip: `envRegion` reports the region at 514048 with 10240
  -- bytes, and the blob's checksum as valid. The conditions are that the chip, its storage of 512 KiB and the file system
  -- keep their promises, that the handle for the environment sees what the file system writes, and that the service starts.
  pub env_region-saveenv :
      {C : Type 0} (spi : Spi C) (mem : C → ℕ → ℕ) (latch : C → Bool) (chip : IsMram spi mem latch)
      (keeps : IsStorage storage bytes_of)
      (windowed : IsWindowed storage mount_volume tiny window_of) (s : C) (blob : Bytes) (crc : ℕ)
      (config : Config) (sub : Subsystem S F) (calls : List Call)
      → length blob ≡ config_env_size
      → uboot_env_crc blob ≡ some (crc, true)
      → ((t : S) → storage.capacity t ≡ 524288)
      → from_config storage 524288 file_image spidev mount_volume config ≡ ok sub
      → ((n : ℕ) → bytes_of sub.device n ≡ mem (saveenv spi (pos 0, blob) s).1 n)
      → let opened = share storage 524288 file_image spidev mount_volume tiny seen sub in
        (env_region storage 524288 file_image spidev mount_volume
          (call_all storage 524288 file_image spidev mount_volume tiny seen calls opened)).0
        ≡ ok (valid_region crc)
  env_region-saveenv spi mem latch chip keeps windowed s blob crc config sub calls size valid
        chip_size started found =
      let opened = share storage 524288 file_image spidev mount_volume tiny seen sub in
      let last = call_all storage 524288 file_image spidev mount_volume tiny seen calls opened in
      let (nonzero, fixed, high, mounted) =
        from_config_lem storage 524288 file_image spidev mount_volume config sub (omega arith)
          (λ t. omega (arith, chip_size t)) started in
      let (offset, env_size, capacity) = call_all-IsSized calls opened in
      let (done, stored) = saveenv_lem spi mem latch chip s blob (omega arith) in
      let held =
        contents_from (bytes_of last.device) (written config_env_mram_offset blob (mem s))
          config_env_mram_offset config_env_size
          (λ n above.
            (call_all-from_config storage bytes_of keeps 524288 file_image spidev mount_volume tiny
              window_of windowed seen shared config sub calls n (omega arith)
              (λ t. omega (arith, chip_size t)) started above).1
            ∙ found n
            ∙ stored n)
        ∙ ap (contents (written config_env_mram_offset blob (mem s)) config_env_mram_offset)
            (sym size)
        ∙ contents-written (mem s) (written config_env_mram_offset blob (mem s))
            config_env_mram_offset blob (λ n. refl) in
      env_region_valid last blob crc (offset ∙ fixed)
        (env_size ∙ omega (arith, chip_size sub.device)) (chip_size last.device) held valid
