-- ===== src/Mram/Subsystem/Files/Kept.antt =====
-- What a running subsystem leaves of the environment.
use radsat_linux.Base.{
  ℕ, ◌^◌, ◌<◌, ◌≤◌, ◌≡◌, refl, ap, ◌∙◌, Bool, List, [], ◌∷◌, Option, Bytes, arith,
}
use radsat_linux.Base.Result.{Result, ok}
use radsat_linux.Mram.Fs.{FsError}
use radsat_linux.Mram.Window.{ByteStorage, PayloadWindow, BackendError}
use radsat_linux.Mram.Window.Guard.{
  IsStorage, Access, access, access_all, access_guard, access_all_guard,
}
use radsat_linux.Mram.Region.{payload_capacity_bytes}
use radsat_linux.Mram.Subsystem
use radsat_linux.Mram.Subsystem.{Config, Subsystem, from_config}
use radsat_linux.Mram.Subsystem.Region.{from_config_lem}
use radsat_linux.Mram.Subsystem.Files.{
  TinyMramFs, Call, list_files, file, read_file, write_file, delete_file, format, stats,
  env_region_info, read_env_blob, serve, call, share, call_all,
}

module _ {S : Type 0} (storage : ByteStorage S) where
  -- `v` is `w` after some reads and writes
  abbrev pub IsReached : PayloadWindow S → PayloadWindow S → Type 0
  IsReached w v = (accesses : List Access) × (v ≡ access_all storage w accesses)

  -- the file system uses the chip through its window alone
  pub record IsWindowed {F FileRecord FilePayload StorageStats : Type 0}
      (mount_volume : PayloadWindow S → Result FsError F)
      (tiny : TinyMramFs F FileRecord FilePayload StorageStats) (window_of : F → PayloadWindow S)
      : Type 0 where
    pub mount_volume_reached :
        (w : PayloadWindow S) (fs : F) → mount_volume w ≡ ok fs → IsReached w (window_of fs)
    pub list_files_reached : (fs : F) → IsReached (window_of fs) (window_of (tiny.list_files fs).1)
    pub file_reached :
        (name : Bytes) (fs : F) → IsReached (window_of fs) (window_of (tiny.file name fs).1)
    pub read_file_reached :
        (name : Bytes) (offset : ℕ) (len : Option ℕ) (fs : F)
        → IsReached (window_of fs) (window_of (tiny.read_file name offset len fs).1)
    pub write_file_reached :
        (name : Bytes) (mime_type : Option Bytes) (compressed : Bool) (bytes : Bytes) (fs : F)
        → IsReached
            (window_of fs)
            (window_of (tiny.write_file name mime_type compressed bytes fs).1)
    pub delete_file_reached :
        (name : Bytes) (fs : F) → IsReached (window_of fs) (window_of (tiny.delete_file name fs).1)
    pub format_reached : (fs : F) → IsReached (window_of fs) (window_of (tiny.format fs).1)
    pub stats_reached : (fs : F) → IsReached (window_of fs) (window_of (tiny.stats fs).1)

  -- both handles are open on one chip, of one capacity
  pub record IsShared {F : Type 0} (bytes_of : S → ℕ → ℕ) (window_of : F → PayloadWindow S)
      (seen : F → S → S) : Type 0 where
    pub seen_bytes :
        (fs : F) (device : S) (n : ℕ)
        → bytes_of (seen fs device) n ≡ bytes_of (window_of fs).inner n
    pub seen_capacity :
        (fs : F) (device : S) → storage.capacity (seen fs device) ≡ storage.capacity device

  module _ (bytes_of : S → ℕ → ℕ) (keeps : IsStorage storage bytes_of) where
    access_all-payload_capacity :
        (accesses : List Access) (w : PayloadWindow S)
        → w.payload_capacity < 2 ^ 32
        → (access_all storage w accesses).payload_capacity ≡ w.payload_capacity
    unfolding access_all
    access_all-payload_capacity [] w fits = refl
    access_all-payload_capacity (a ∷ accesses) w fits =
        let (same, kept) = access_guard storage bytes_of keeps w a fits in
        access_all-payload_capacity accesses (access storage w a) (omega arith) ∙ same

    -- the same capacity, and the same bytes from there on
    abbrev IsKept : PayloadWindow S → PayloadWindow S → Type 0
    IsKept w v =
        (v.payload_capacity ≡ w.payload_capacity)
        × ((n : ℕ) → w.payload_capacity ≤ n → bytes_of v.inner n ≡ bytes_of w.inner n)

    reached-IsKept :
        (w v : PayloadWindow S) → w.payload_capacity < 2 ^ 32 → IsReached w v → IsKept w v
    reached-IsKept w v fits (accesses, there) = (
      ap (λ u. u.payload_capacity) there ∙ access_all-payload_capacity accesses w fits,
      λ n above.
          ap (λ u. bytes_of u.inner n) there
          ∙ access_all_guard storage bytes_of keeps accesses w n fits above,
    )

    module _ {F FileRecord FilePayload StorageStats : Type 0} (capacity_bytes : ℕ)
        (file_image : Bytes → ℕ → Result BackendError S)
        (spidev : Option (Bytes → ℕ → ℕ → Result BackendError S))
        (mount_volume : PayloadWindow S → Result FsError F)
        (tiny : TinyMramFs F FileRecord FilePayload StorageStats) (window_of : F → PayloadWindow S)
        (windowed : IsWindowed mount_volume tiny window_of) (seen : F → S → S)
        (shared : IsShared bytes_of window_of seen) where
      -- the handle for the environment sees the chip as the file system has left it
      abbrev InSync : Subsystem S F → Type 0
      InSync sub = (n : ℕ) → bytes_of sub.device n ≡ bytes_of (window_of sub.fs).inner n

      serve_lem :
          (c : Call) (sub : Subsystem S F)
          → let next =
              serve storage capacity_bytes file_image spidev mount_volume tiny seen c sub in
            IsReached (window_of sub.fs) (window_of next.fs) × (next.env_offset ≡ sub.env_offset)
      unfolding serve access_all Subsystem.env_region_info Subsystem.read_env_blob
      serve_lem list_files sub = (windowed.list_files_reached sub.fs, refl)
      serve_lem (file name) sub = (windowed.file_reached name sub.fs, refl)
      serve_lem (read_file name offset len) sub =
          (windowed.read_file_reached name offset len sub.fs, refl)
      serve_lem (write_file name mime_type compressed bytes) sub =
          (windowed.write_file_reached name mime_type compressed bytes sub.fs, refl)
      serve_lem (delete_file name) sub = (windowed.delete_file_reached name sub.fs, refl)
      serve_lem format sub = (windowed.format_reached sub.fs, refl)
      serve_lem stats sub = (windowed.stats_reached sub.fs, refl)
      serve_lem env_region_info sub = (([], refl), refl)
      serve_lem read_env_blob sub = (([], refl), refl)

      call_lem :
          (c : Call) (sub : Subsystem S F)
          → let next = call storage capacity_bytes file_image spidev mount_volume tiny seen c sub in
            IsReached (window_of sub.fs) (window_of next.fs)
            × (next.env_offset ≡ sub.env_offset)
            × InSync next
      unfolding call
      call_lem c sub =
          let (reached, offset) = serve_lem c sub in (reached, offset, shared.seen_bytes _ _)

      call_all_lem :
          (calls : List Call) (sub : Subsystem S F)
          → (window_of sub.fs).payload_capacity < 2 ^ 32
          → InSync sub
          → let next =
              call_all storage capacity_bytes file_image spidev mount_volume tiny seen calls sub in
            IsKept (window_of sub.fs) (window_of next.fs)
            × (next.env_offset ≡ sub.env_offset)
            × InSync next
      unfolding call_all
      call_all_lem [] sub fits synced = ((refl, λ n above. refl), refl, synced)
      call_all_lem (c ∷ calls) sub fits synced =
          let next = call storage capacity_bytes file_image spidev mount_volume tiny seen c sub in
          let (reached, offset, synced2) = call_lem c sub in
          let (capacity, bytes) =
            reached-IsKept (window_of sub.fs) (window_of next.fs) fits reached in
          let ((capacity_left, bytes_left), offset_left, synced_left) =
            call_all_lem calls next (omega arith) synced2 in
          (
            (capacity_left ∙ capacity, λ n above. bytes_left n (omega arith) ∙ bytes n above),
            offset_left ∙ offset,
            synced_left,
          )

      -- If `from_config` succeeds, then whatever calls the subsystem serves, the chip has from the driver crate's own
      -- environment offset on the bytes it was opened with, behind the file system's handle and behind the other one.
      -- The conditions are that the capacities are u32, that the storage keeps its promise, that the file system uses the
      -- chip through its window alone, and that the other handle sees what the file system has written.
      pub call_all-from_config :
          (config : Config) (sub : Subsystem S F) (calls : List Call) (n : ℕ)
          → capacity_bytes < 2 ^ 32
          → ((s : S) → storage.capacity s < 2 ^ 32)
          → from_config storage capacity_bytes file_image spidev mount_volume config ≡ ok sub
          → payload_capacity_bytes capacity_bytes ≤ n
          → let opened =
              share storage capacity_bytes file_image spidev mount_volume tiny seen sub in
            let last =
              call_all storage capacity_bytes file_image spidev mount_volume tiny seen calls
                opened in
            (bytes_of (window_of last.fs).inner n ≡ bytes_of sub.device n)
            × (bytes_of last.device n ≡ bytes_of sub.device n)
      call_all-from_config config sub calls n hc hs started above =
          let opened = share storage capacity_bytes file_image spidev mount_volume tiny seen sub in
          let (nonzero, fixed, high, (w, mounted, same, at_offset, not_empty)) =
            from_config_lem storage capacity_bytes file_image spidev mount_volume config sub hc hs
              started in
          let (capacity, bytes) =
            reached-IsKept w (window_of sub.fs) (omega arith)
              (windowed.mount_volume_reached w sub.fs mounted) in
          let ((capacity_left, bytes_left), offset, synced) =
            call_all_lem calls opened (omega arith) (shared.seen_bytes sub.fs sub.device) in
          let kept =
            bytes_left n (omega arith) ∙ bytes n (omega arith) ∙ ap (λ s. bytes_of s n) same in
          (kept, synced n ∙ kept)
