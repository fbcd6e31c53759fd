-- ===== src/Mram/Driver/First.antt =====
-- common/env_mram.c as tools/gen-mram-fram-uboot-patches.py writes it, the version before the one in use: its transfers take
-- the bytes out and the buffer for the answer apart, and a write asks for no answer.
use radsat_linux.Base.{
  ℕ, ◌+◌, ◌≡◌, refl, not, [], ◌∷◌, Option, none, some, Bytes, if◌then◌else◌, drop, replicate,
  Bool-cases, inl, inr, length,
}
use radsat_linux.Base.Int.{ℤ, is_zero}
use radsat_linux.Mram.Driver.{
  Spi, mram_cmd_wren, mram_cmd_read, mram_cmd_write, enomem, mram_frame, mram_xfer, mram_read,
  mram_write,
}

-- `xfer_out` is `spi_xfer` with NULL for `din`, which drops the answer.
module _ {S : Type 0} (spi : Spi S) (xfer_out : S → Bytes → ℤ × S) where
  -- with `din` the buffer of `dout`
  unfoldable pub xfer_frame : S → Bytes → ℤ × Bytes × S
  xfer_frame slave frame =
      let (claimed, s) = spi.claim_bus slave in
      if not (is_zero claimed)
      then (claimed, frame, s)
      else (let (ret, frame', s') = spi.xfer s frame in (ret, frame', spi.release_bus s'))

  -- with NULL for `din`
  unfoldable pub xfer_silent : S → Bytes → ℤ × S
  xfer_silent slave dout =
      let (claimed, s) = spi.claim_bus slave in
      if not (is_zero claimed)
      then (claimed, s)
      else (let (ret, s') = xfer_out s dout in (ret, spi.release_bus s'))

  unfoldable pub mram_read_first : S → ℕ → ℕ → ℤ × Option Bytes × S
  mram_read_first slave offset len =
      if not (spi.malloc_ok (4 + len))
      then (enomem, none, slave)
      else (let (ret, frame, s) =
            xfer_frame slave (mram_frame mram_cmd_read offset (replicate len 0)) in
          (ret, if is_zero ret then some (drop 4 frame) else none, s))

  unfoldable pub mram_write_first : S → ℕ → Bytes → ℤ × S
  mram_write_first slave offset buf =
      let (ret, s) = xfer_silent slave (mram_cmd_wren ∷ []) in
      if not (is_zero ret)
      then (ret, s)
      else if not (spi.malloc_ok (4 + length buf))
      then (enomem, s)
      else xfer_silent s (mram_frame mram_cmd_write offset buf)

  xfer_silent-xfer :
      (same : (s : S) (dout : Bytes) → xfer_out s dout ≡ ((spi.xfer s dout).0, (spi.xfer s dout).2))
      (slave : S) (dout : Bytes)
      → xfer_silent slave dout ≡ ((mram_xfer spi slave dout).0, (mram_xfer spi slave dout).2)
  unfolding xfer_silent mram_xfer
  xfer_silent-xfer same slave dout = elim (Bool-cases (is_zero (spi.claim_bus slave).0)) [
    | inl claimed ↦ rw (claimed, same (spi.claim_bus slave).1 dout) refl
    | inr busy ↦ rw busy refl
  ]

  -- Both versions of the driver read and write alike, result for result and state for state, if a transfer that drops the
  -- answer does to the chip what a transfer that keeps it does.
  pub driver_first :
      (slave : S) (offset len : ℕ) (buf : Bytes)
      → ((s : S) (dout : Bytes) → xfer_out s dout ≡ ((spi.xfer s dout).0, (spi.xfer s dout).2))
      → (mram_read_first slave offset len ≡ mram_read spi slave offset len)
        × (mram_write_first slave offset buf ≡ mram_write spi slave offset buf)
  unfolding mram_read_first xfer_frame mram_read mram_xfer mram_write_first mram_write
  driver_first slave offset len buf same = (
    refl,
    rw
        (
          xfer_silent-xfer same slave (mram_cmd_wren ∷ []),
          xfer_silent-xfer same _ (mram_frame mram_cmd_write offset buf),
        )
        refl,
  )
