-- ===== src/Mram/Sync/Copy.antt =====
-- The file is written only with a blob whose checksum is right.
use radsat_linux.Base.{
  ℕ, ◌≡◌, refl, Bool, true, false, Option, none, some, List, Bytes, ◌⊎◌, inl, inr,
}
use radsat_linux.Base.Result.{Result, ok, err, Result-cases}
use radsat_linux.Mram.Region.{uboot_env_crc}
use radsat_linux.Mram.Window.{ByteStorage, BackendError}
use radsat_linux.Mram.Sync.{
  Options, Files, defaults, parse_args, open_storage, copy_checked, copy_env, write_out, main,
}

module _ {F : Type 0} (files : Files F) where
  -- nothing was written, or the valid blob that was read
  abbrev pub Copied : Options → F → Result BackendError Bytes → F → Type 0
  Copied o f outcome f2 =
      (f2 ≡ f)
      ⊎ ((blob : Bytes) × (crc : ℕ) × (outcome ≡ ok blob)
          × (uboot_env_crc blob ≡ some (crc, true))
          × (f2 ≡ (files.store (files.create_parent f o.out) o.out blob).1))

  copy_checked-Copied :
      (o : Options) (f : F) (blob : Bytes) (c : Option (ℕ × Bool))
      → uboot_env_crc blob ≡ c
      → Copied o f (ok blob) (copy_checked files o f blob c).1
  unfolding copy_checked write_out
  copy_checked-Copied o f blob none e = inl refl
  copy_checked-Copied o f blob (some (crc, false)) e = inl refl
  copy_checked-Copied o f blob (some (crc, true)) e = inr (blob, crc, refl, e, refl)

  copy_env-Copied :
      (o : Options) (f : F) (outcome : Result BackendError Bytes)
      → Copied o f outcome (copy_env files o f outcome).1
  unfolding copy_env
  copy_env-Copied o f (err e) = inl refl
  copy_env-Copied o f (ok blob) = copy_checked-Copied o f blob (uboot_env_crc blob) refl

module _ {S F : Type 0} (storage : ByteStorage S) (files : Files F) (capacity_bytes : ℕ)
    (file_image : Bytes → ℕ → Result BackendError S)
    (spidev : Option (Bytes → ℕ → ℕ → Result BackendError S)) where
  -- Whatever the arguments: `main` leaves the host's files alone, or the arguments are good, the
  -- chip opened, the read gave a blob whose checksum is right, and that blob is what the output file was written with.
  pub main-Copied :
      (args : List Bytes) (f : F)
      → ((main storage files capacity_bytes file_image spidev args f).1 ≡ f)
        ⊎ ((o : Options) × (s : S) × (parse_args (defaults capacity_bytes) args ≡ ok o)
            × (open_storage storage files capacity_bytes file_image spidev o ≡ ok s)
            × Copied files o f
                (storage.read s o.offset o.size).0
                (main storage files capacity_bytes file_image spidev args f).1)
  unfolding main
  main-Copied args f = elim (Result-cases (parse_args (defaults capacity_bytes) args)) [
    | inl (exit, e) ↦ inl (rw (e, main) refl)
    | inr (o, e) ↦
        elim (Result-cases (open_storage storage files capacity_bytes file_image spidev o)) [
          | inl (exit, e2) ↦ inl (rw (e, e2, main) refl)
          | inr (s, e2) ↦ inr (
            o,
            s,
            e,
            e2,
            rw (e, e2, main) (copy_env-Copied files o f (storage.read s o.offset o.size).0),
          )
        ]
  ]
