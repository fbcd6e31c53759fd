-- ===== src/Mram/Driver/Relocate.antt =====
-- How the environment is chosen at boot.
use radsat_linux.Base.{
  ℕ, ap, refl, ◌∙◌, length, ◌≡◌, Bool, true, false, ◌||◌, List, [], ◌∷◌, Option, none, some, Bytes,
  String, arith, inl, inr, Option-cases,
}
use radsat_linux.Base.Int.{ℤ, pos, is_zero}
use radsat_linux.Mram.Driver.Chip.{IsMram}
use radsat_linux.Mram.Driver.Saved.{relocate-saveenv}
use radsat_linux.Mram.Driver.{
  saveenv, config_env_size, Spi, Ext4, Event, puts, import_env, set_default_env, printf_failed,
  env_relocate_spec, relocate_read, relocate_fallback, env_import_ext4_fallback,
}

-- does a trace load an environment: from the compiled-in defaults, or by an import that answered 0?
pub loads : (Bytes → ℤ) → List Event → Bool
loads env_import [] = false
loads env_import (import_env b ∷ es) = is_zero (env_import b) || loads env_import es
loads env_import (set_default_env ∷ es) = true
loads env_import (puts s ∷ es) = loads env_import es
loads env_import (printf_failed r ∷ es) = loads env_import es

module _ (env_import : Bytes → ℤ) where
  fallback_loads : (fs : Ext4) → loads env_import (relocate_fallback env_import fs) ≡ true
  unfolding loads relocate_fallback env_import_ext4_fallback
  fallback_loads fs = ground arith

  fallback_loads_puts :
      (msg : String) (fs : Ext4)
      → loads env_import (puts msg ∷ relocate_fallback env_import fs) ≡ true
  unfolding loads
  fallback_loads_puts msg fs = fallback_loads fs

  read_loads :
      (ret : ℤ) (buf : Option Bytes) (fs : Ext4)
      → loads env_import (relocate_read env_import ret buf fs) ≡ true
  unfolding loads relocate_read
  read_loads ret none fs = fallback_loads fs
  read_loads ret (some buf) fs = ground (arith, fallback_loads fs)

  -- Whatever the SPI bus, the chip and the file system do, `env_relocate_spec` ends with an environment:
  -- an import that returned 0, or the compiled-in defaults.
  pub env_relocate_spec-loads :
      {S : Type 0} (spi : Spi S) (s : S) (fs : Ext4)
      → loads env_import (env_relocate_spec env_import spi s fs).1 ≡ true
  unfolding env_relocate_spec
  env_relocate_spec-loads spi s fs = elim (Option-cases (spi.setup_slave s)) [
    | inl absent ↦ rw (absent, env_relocate_spec) (fallback_loads_puts _ fs)
    | inr (slave, set) ↦ rw (set, env_relocate_spec) (read_loads _ _ fs)
  ]

-- does a boot go back to the compiled-in defaults?
unfoldable pub takes_defaults : List Event → Bool
takes_defaults [] = false
takes_defaults (set_default_env ∷ es) = true
takes_defaults (import_env b ∷ es) = takes_defaults es
takes_defaults (puts s ∷ es) = takes_defaults es
takes_defaults (printf_failed r ∷ es) = takes_defaults es

fallback_defaults :
    (env_import : Bytes → ℤ) (fs : Ext4)
    → ((b : Bytes) → env_import b ≡ pos 1)
    → takes_defaults (relocate_fallback env_import fs) ≡ true
unfolding takes_defaults relocate_fallback env_import_ext4_fallback
fallback_defaults env_import fs accepts = ground (arith, accepts fs.read_file.1)

read_defaults :
    (env_import : Bytes → ℤ) (buf : Bytes) (fs : Ext4)
    → ((b : Bytes) → env_import b ≡ pos 1)
    → takes_defaults (relocate_read env_import (pos 0) (some buf) fs) ≡ true
unfolding takes_defaults relocate_read
read_defaults env_import buf fs accepts = rw (accepts buf) (fallback_defaults env_import fs accepts)

read_keeps :
    (env_import : Bytes → ℤ) (buf : Bytes) (fs : Ext4)
    → env_import buf ≡ pos 0
    → takes_defaults (relocate_read env_import (pos 0) (some buf) fs) ≡ false
unfolding takes_defaults relocate_read
read_keeps env_import buf fs rejects = rw rejects refl

-- U-Boot's `env_import` returns 1 for an environment that it takes and 0 for one that it refuses. On a working chip, a boot
-- after `saveenv` ends with the compiled-in defaults if `env_import` takes every blob, the one just saved and that of the
-- EXT4 file system; and it does not go back to the defaults if `env_import` refuses the blob just saved.
pub env_import_polarity :
    {S : Type 0} (spi : Spi S) (mem : S → ℕ → ℕ) (latch : S → Bool) (chip : IsMram spi mem latch)
    (takes refuses : Bytes → ℤ) (s : S) (blob : Bytes) (fs : Ext4)
    → length blob ≡ config_env_size
    → ((b : Bytes) → takes b ≡ pos 1)
    → refuses blob ≡ pos 0
    → let saved = (saveenv spi (pos 0, blob) s).1 in
      (takes_defaults (env_relocate_spec takes spi saved fs).1 ≡ true)
      × (takes_defaults (env_relocate_spec refuses spi saved fs).1 ≡ false)
env_import_polarity spi mem latch chip takes refuses s blob fs size accepts rejects =
    let (done, taken) = relocate-saveenv spi mem latch chip takes s blob fs size in
    let (done2, refused) = relocate-saveenv spi mem latch chip refuses s blob fs size in
    (
      ap takes_defaults taken ∙ read_defaults takes blob fs accepts,
      ap takes_defaults refused ∙ read_keeps refuses blob fs rejects,
    )
