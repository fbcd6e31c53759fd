-- ===== src/Mram/Subsystem/Files.antt =====
-- The operations of a running subsystem, as tools/apply-mram-env-region.py writes them: the ones on files pass on to
-- `TinyMramFs`, whose operations are the record `TinyMramFs` over its state. The handle `device` and the one behind the file
-- system's window are open on the same chip, so that what the file system writes is there for `device` too: `seen fs device`
-- is that handle on the chip as the file system has left it.
pub mod Kept
use radsat_linux.Base.{ℕ, Bool, List, [], ◌∷◌, Option, Bytes}
use radsat_linux.Base.Result.{Result}
use radsat_linux.Mram.Fs.{FsError}
use radsat_linux.Mram.Window.{ByteStorage, PayloadWindow, BackendError}
use radsat_linux.Mram.Subsystem
use radsat_linux.Mram.Subsystem.{Subsystem}

pub record TinyMramFs (F FileRecord FilePayload StorageStats : Type 0) : Type 0 where
  pub list_files : F → Result FsError (List FileRecord) × F
  pub file : Bytes → F → Result FsError (Option FileRecord) × F
  pub read_file : Bytes → ℕ → Option ℕ → F → Result FsError FilePayload × F
  pub write_file : Bytes → Option Bytes → Bool → Bytes → F → Result FsError FileRecord × F
  pub delete_file : Bytes → F → Result FsError Bool × F
  pub format : F → Result FsError (Unit {0}) × F
  pub stats : F → Result FsError StorageStats × F

-- a call of the subsystem
pub data Call : Type 0 where
  list_files : Call
  file : Bytes → Call
  read_file : Bytes → ℕ → Option ℕ → Call
  write_file : Bytes → Option Bytes → Bool → Bytes → Call
  delete_file : Bytes → Call
  format : Call
  stats : Call
  env_region_info : Call
  read_env_blob : Call

module _ {S F FileRecord FilePayload StorageStats : Type 0} (storage : ByteStorage S)
    (capacity_bytes : ℕ) (file_image : Bytes → ℕ → Result BackendError S)
    (spidev : Option (Bytes → ℕ → ℕ → Result BackendError S))
    (mount_volume : PayloadWindow S → Result FsError F)
    (tiny : TinyMramFs F FileRecord FilePayload StorageStats) (seen : F → S → S) where
  -- `let mut fs = self.fs.lock()?` around an operation of the file system
  abbrev pub with_fs : {A : Type 0} → (F → A × F) → Subsystem S F → A × Subsystem S F
  with_fs op sub = let (a, fs) = op sub.fs in (a, record sub { fs = fs })

  -- the one chip behind both handles
  abbrev pub share : Subsystem S F → Subsystem S F
  share sub = record sub { device = seen sub.fs sub.device }

  -- the handles after a call, whatever the call returns
  unfoldable pub serve : Call → Subsystem S F → Subsystem S F
  serve list_files sub = (with_fs tiny.list_files sub).1
  serve (file name) sub = (with_fs (tiny.file name) sub).1
  serve (read_file name offset len) sub = (with_fs (tiny.read_file name offset len) sub).1
  serve (write_file name mime_type compressed bytes) sub =
      (with_fs (tiny.write_file name mime_type compressed bytes) sub).1
  serve (delete_file name) sub = (with_fs (tiny.delete_file name) sub).1
  serve format sub = (with_fs tiny.format sub).1
  serve stats sub = (with_fs tiny.stats sub).1
  serve env_region_info sub =
      (Subsystem.env_region_info storage capacity_bytes file_image spidev mount_volume sub).1
  serve read_env_blob sub =
      (Subsystem.read_env_blob storage capacity_bytes file_image spidev mount_volume sub).1

  -- the subsystem after a call
  unfoldable pub call : Call → Subsystem S F → Subsystem S F
  call c sub = share (serve c sub)

  unfoldable pub call_all : List Call → Subsystem S F → Subsystem S F
  call_all [] sub = sub
  call_all (c ∷ calls) sub = call_all calls (call c sub)
