-- ===== src/Mram/Driver/Saved.antt =====
-- What is written is read back, on a chip that keeps its promises.
use radsat_linux.Base.{
  ℕ, ◌+◌, ◌-◌, ◌/◌, ◌%◌, ◌^◌, ◌<◌, ◌≡◌, refl, sym, ap, ◌∙◌, Bool, true, [], ◌∷◌, some, Bytes,
  if◌then◌else◌, ltb, get_or, length, ◌≤◌, replicate, length-replicate, drop, arith,
}
use radsat_linux.Base.Int.{ℤ, pos}
use radsat_linux.Mram.Driver.{
  Spi, Ext4, mram_xfer, mram_read, mram_write, saveenv, env_relocate_spec, relocate_read,
  mram_frame, config_env_mram_offset, config_env_size,
}
use radsat_linux.Mram.Driver.Chip.{
  IsMram, written, contents, address, contents-written, contents-cong,
}

address_parts :
    (offset : ℕ)
    → offset < 2 ^ 24
    → address (offset / 2 ^ 16 % 256) (offset / 2 ^ 8 % 256) (offset % 256) ≡ offset
address_parts offset h = omega arith

module _ {S : Type 0} (spi : Spi S) (mem : S → ℕ → ℕ) (latch : S → Bool)
    (chip : IsMram spi mem latch) where
  -- the state after WREN, and after the claim that follows
  abbrev after_wren : S → S
  after_wren s = spi.release_bus (spi.xfer (spi.claim_bus s).1 (0x06 ∷ [])).2

  abbrev ready : S → S
  ready s = (spi.claim_bus (after_wren s)).1

  ready_latch : (s : S) → latch (ready s) ≡ true
  ready_latch s =
      chip.claim_latch (after_wren s) ∙ chip.release_latch _ ∙ chip.wren_latch (spi.claim_bus s).1

  mem-ready : (s : S) (n : ℕ) → mem (ready s) n ≡ mem s n
  mem-ready s n =
      chip.claim_mem (after_wren s) n
      ∙ chip.release_mem _ n
      ∙ chip.wren_mem (spi.claim_bus s).1 n
      ∙ chip.claim_mem s n

  -- A write of at most CONFIG_ENV_SIZE bytes at an offset below 2^24 succeeds, and leaves the bytes in
  -- the chip's memory at that offset and the rest of the memory as it was.
  pub mram_write_lem :
      (s : S) (offset : ℕ) (bytes : Bytes)
      → offset < 2 ^ 24
      → length bytes ≤ config_env_size
      → ((mram_write spi s offset bytes).0 ≡ pos 0)
        × ((n : ℕ) → mem (mram_write spi s offset bytes).1 n ≡ written offset bytes (mem s) n)
  unfolding mram_write mram_xfer
  mram_write_lem s offset bytes h fits = rw (chip.claim_ok s) (
      rw (chip.wren_ok (spi.claim_bus s).1) (
        rw (chip.has_memory (4 + length bytes) (omega arith)) (
          rw (chip.claim_ok (after_wren s)) (
            chip.write_ok (ready s) _ _ _ bytes,
            λ n.
                chip.release_mem _ n
                ∙ chip.write_mem (ready s) _ _ _ bytes n (ready_latch s)
                ∙ stored n,
          ))))
    where
      stored :
          (n : ℕ)
          → written
              (address (offset / 2 ^ 16 % 256) (offset / 2 ^ 8 % 256) (offset % 256))
              bytes
              (mem (ready s))
              n
            ≡ written offset bytes (mem s) n
      stored n =
          rw (address_parts offset h) (
            ap (λ (b : ℕ). if ltb n offset then b else get_or bytes (n - offset) b) (mem-ready s n))

  -- A read of at most CONFIG_ENV_SIZE bytes below 2^24 succeeds and fills the buffer with the memory's
  -- contents.
  pub mram_read_lem :
      (s : S) (offset len : ℕ)
      → offset < 2 ^ 24
      → len ≤ config_env_size
      → ((mram_read spi s offset len).0 ≡ pos 0)
        × ((mram_read spi s offset len).1 ≡ some (contents (mem s) offset len))
  unfolding mram_read mram_xfer
  mram_read_lem s offset len h fits = rw (chip.has_memory (4 + len) (omega arith)) (
      rw (chip.claim_ok s) (
        rw
          (chip.read_ok (spi.claim_bus s).1 (offset / 2 ^ 16 % 256) (offset / 2 ^ 8 % 256)
            (offset % 256) (replicate len 0))
          (refl, ap some bytes_read)))
    where
      bytes_read :
          drop 4 (spi.xfer (spi.claim_bus s).1 (mram_frame 0x03 offset (replicate len 0))).1
          ≡ contents (mem s) offset len
      bytes_read =
          chip.read_bytes (spi.claim_bus s).1 _ _ _ (replicate len 0)
          ∙ (rw (address_parts offset h, length-replicate {A = ℕ} len 0)
              (contents-cong (mem (spi.claim_bus s).1) (mem s) offset len (chip.claim_mem s)))

  pub saveenv_lem :
      (s : S) (blob : Bytes)
      → length blob ≤ config_env_size
      → ((saveenv spi (pos 0, blob) s).0 ≡ pos 0)
        × ((n : ℕ)
            → mem (saveenv spi (pos 0, blob) s).1 n ≡ written config_env_mram_offset blob (mem s) n)
  unfolding saveenv
  saveenv_lem s blob n =
      let (slave, set, same) = chip.setup_ok s in
      let (ok, stored) = mram_write_lem slave config_env_mram_offset blob (omega arith) n in
      rw set (
        rw ok (
          refl,
          λ k.
              chip.free_mem _ k
              ∙ stored k
              ∙ ap
                  (λ (b : ℕ).
                    if ltb k config_env_mram_offset
                    then b
                    else get_or blob (k - config_env_mram_offset) b)
                  (same k),
        ))

  relocate_lem :
      (env_import : Bytes → ℤ) (s : S) (fs : Ext4)
      → (env_relocate_spec env_import spi s fs).1
        ≡ relocate_read env_import
            (pos 0)
            (some (contents (mem s) config_env_mram_offset config_env_size))
            fs
  unfolding env_relocate_spec
  relocate_lem env_import s fs =
      let (slave, set, same) = chip.setup_ok s in
      let (ok, bytes) =
        mram_read_lem slave config_env_mram_offset config_env_size (omega arith) (omega arith) in
      rw (set, env_relocate_spec)
        (rw (ok, bytes)
          (rw (contents-cong (mem slave) (mem s) config_env_mram_offset config_env_size same)))

  -- `saveenv` of an exported blob of CONFIG_ENV_SIZE bytes returns 0 on a working chip, and the next
  -- `env_relocate_spec` reads exactly that blob from the MRAM and goes on as after a good read of it.
  pub relocate-saveenv :
      (env_import : Bytes → ℤ) (s : S) (blob : Bytes) (fs : Ext4)
      → length blob ≡ config_env_size
      → ((saveenv spi (pos 0, blob) s).0 ≡ pos 0)
        × ((env_relocate_spec env_import spi (saveenv spi (pos 0, blob) s).1 fs).1
            ≡ relocate_read env_import (pos 0) (some blob) fs)
  relocate-saveenv env_import s blob fs n =
      let (ok, stored) = saveenv_lem s blob (omega arith) in
      (
        ok,
        relocate_lem env_import (saveenv spi (pos 0, blob) s).1 fs
            ∙ ap (λ (b : Bytes). relocate_read env_import (pos 0) (some b) fs)
                (ap (contents _ config_env_mram_offset) (sym n)
                  ∙ contents-written (mem s) _ config_env_mram_offset blob stored),
      )
