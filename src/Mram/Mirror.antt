-- ===== src/Mram/Mirror.antt =====
-- From U-Boot's saveenv to the file under Linux: the driver, the window, the sync and its init script on one chip.
use radsat_linux.Base.{
  ℕ, zero, suc, ◌+◌, ◌≤◌, ◌≡◌, refl, sym, ap, ◌∙◌, Bool, true, List, some, Bytes, codes, arith,
  length,
}
use radsat_linux.Base.Int.{pos}
use radsat_linux.Base.Result.{Result, ok}
use radsat_linux.Mram.Driver.{Spi, saveenv, config_env_mram_offset, config_env_size}
use radsat_linux.Mram.Driver.Chip.{IsMram, contents, written, contents-written}
use radsat_linux.Mram.Driver.Saved.{saveenv_lem}
use radsat_linux.Mram.Region.{uboot_env_crc}
use radsat_linux.Mram.Window.{ByteStorage, PayloadWindow, BackendError}
use radsat_linux.Mram.Window.Guard.{IsStorage, Access, access_all, access_all_guard}
use radsat_linux.Mram.Window.Refines.{IsArray}
use radsat_linux.Mram.Startup.{start, sync_arguments, s79}
use radsat_linux.Mram.Sync.{
  set_option, Files, defaults, parse_args, open_storage, copy_env, copy_checked, write_out, main,
}

pub contents_from :
    (a b : ℕ → ℕ) (base len : ℕ)
    → ((n : ℕ) → base ≤ n → a n ≡ b n)
    → contents a base len ≡ contents b base len
unfolding contents
contents_from a b base zero h = refl
contents_from a b base (suc len) h =
    rw (h base (omega arith), contents_from a b (base + 1) len (λ n le. h n (omega arith))) refl

-- the size of the chip
abbrev chip_bytes : ℕ
chip_bytes = 524288

module _ {T F : Type 0} (storage : ByteStorage T) (files : Files F)
    (file_image : Bytes → ℕ → Result BackendError T)
    (spidev : Bytes → ℕ → ℕ → Result BackendError T) where
  main_opened :
      (u : T) (f : F) (blob : Bytes) (crc : ℕ)
      → spidev (codes "/dev/spidev1.0") 10000000 0 ≡ ok u
      → (storage.read u 514048 10240).0 ≡ ok blob
      → uboot_env_crc blob ≡ some (crc, true)
      → main storage files chip_bytes file_image (some spidev) sync_arguments f
        ≡ write_out files (defaults chip_bytes) f blob
  unfolding main parse_args set_option open_storage copy_env copy_checked
  main_opened u f blob crc opened out valid =
      rw (opened, open_storage, out, copy_env, valid, copy_checked) refl

  module _ {S : Type 0} (spi : Spi S) (mem : S → ℕ → ℕ) (latch : S → Bool)
      (chip : IsMram spi mem latch) (bytes_of : T → ℕ → ℕ) (keeps : IsStorage storage bytes_of)
      (reads : IsArray storage bytes_of) where
    saved_bytes :
        (s : S) (blob : Bytes) (w : PayloadWindow T) (calls : List Access) (u : T)
        → length blob ≡ config_env_size
        → ((n : ℕ) → bytes_of w.inner n ≡ mem (saveenv spi (pos 0, blob) s).1 n)
        → w.payload_capacity ≤ config_env_mram_offset
        → ((n : ℕ) → bytes_of u n ≡ bytes_of (access_all storage w calls).inner n)
        → contents (bytes_of u) config_env_mram_offset config_env_size ≡ blob
    saved_bytes s blob w calls u size handed below left =
        let (done, stored) = saveenv_lem spi mem latch chip s blob (omega arith) in
        contents_from (bytes_of u) (written config_env_mram_offset blob (mem s))
          config_env_mram_offset config_env_size
          (λ n le.
            left n
            ∙ access_all_guard storage bytes_of keeps calls w n (omega arith) (omega arith)
            ∙ handed n
            ∙ stored n)
        ∙ ap (contents (written config_env_mram_offset blob (mem s)) config_env_mram_offset)
            (sym size)
        ∙ contents-written (mem s) (written config_env_mram_offset blob (mem s))
            config_env_mram_offset blob (λ n. refl)

    -- U-Boot's `saveenv` of a blob with a right checksum, then any run of reads and writes through the
    -- window of mram-service, then a start of Linux with mram-env-sync installed: S79mram-env-sync exits with 0 and
    -- leaves the files as the write of exactly that blob to /envar/uboot.env leaves them. The conditions are that the
    -- chip and the storage keep their promises, that the window ends below the environment, and that each program finds
    -- the bytes that the one before it left.
    pub s79-saveenv :
        (s : S) (blob : Bytes) (crc : ℕ) (w : PayloadWindow T) (calls : List Access) (u : T)
        (prepare : F → F) (f : F)
        → length blob ≡ config_env_size
        → uboot_env_crc blob ≡ some (crc, true)
        → ((n : ℕ) → bytes_of w.inner n ≡ mem (saveenv spi (pos 0, blob) s).1 n)
        → w.payload_capacity ≤ config_env_mram_offset
        → ((n : ℕ) → bytes_of u n ≡ bytes_of (access_all storage w calls).inner n)
        → storage.capacity u ≡ chip_bytes
        → spidev (codes "/dev/spidev1.0") 10000000 0 ≡ ok u
        → s79 prepare (main storage files chip_bytes file_image (some spidev)) true start f
          ≡ (0, (write_out files (defaults chip_bytes) (prepare f) blob).1)
    unfolding s79
    s79-saveenv s blob crc w calls u prepare f size valid handed below left capacity opened =
        let read_back =
          reads.read_out u 514048 10240 (omega arith)
          ∙ ap (λ b. ok b) (saved_bytes s blob w calls u size handed below left) in
        ap (λ r. (0, r.1)) (main_opened u (prepare f) blob crc opened read_back valid)
