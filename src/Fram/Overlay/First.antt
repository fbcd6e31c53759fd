-- ===== src/Fram/Overlay/First.antt =====
-- `radsat_fram_overlay_env` as tools/gen-mram-fram-uboot-patches.py writes it, the version before the one in
-- use: it demands a layout header.
use radsat_linux.Base.{
  ℕ, ◌≡◌, refl, Bool, not, List, [], ◌∷◌, ◌++◌, Option, Bytes, if◌then◌else◌, All, Bool-cases, inl,
  inr, ◌⊎◌,
}
use radsat_linux.Fram.Record.{fram_keys}
use radsat_linux.Fram.Overlay.{
  Event, set_bus, puts, fram_layout_ok, fram_boot_crc_ok, overlay_keys, radsat_fram_overlay_env,
}
use radsat_linux.Fram.Overlay.FailOpen.{SetsNothing}
use radsat_linux.Fram.Overlay.Layout.{layout_checks}

module _ (i2c_read : ℕ → ℕ → ℕ → ℕ → Option Bytes) where
  unfoldable pub overlay_env_first : (ℕ → Bool) → ℕ → List Event
  overlay_env_first set_bus_ok old_bus =
      if not (set_bus_ok 2)
      then set_bus 2 ∷ puts "FRAM: cannot select I2C2; skipping mission overlay\n" ∷ []
      else if not (fram_layout_ok i2c_read)
      then set_bus 2
        ∷ puts "FRAM: layout magic/version missing; skipping mission overlay\n"
        ∷ set_bus old_bus
        ∷ []
      else if not (fram_boot_crc_ok i2c_read)
      then set_bus 2
        ∷ puts "FRAM: boot-region CRC invalid; skipping mission overlay\n"
        ∷ set_bus old_bus
        ∷ []
      else set_bus 2
        ∷ (overlay_keys i2c_read fram_keys
            ++ puts "FRAM: mission policy keys overlaid\n" ∷ set_bus old_bus ∷ [])

  -- The first version sets no variable, or does what the version in use does, event for event: the change only adds
  -- devices without a header to those that are overlaid.
  pub overlay_env-first :
      (set_bus_ok : ℕ → Bool) (old_bus : ℕ)
      → All SetsNothing (overlay_env_first set_bus_ok old_bus)
        ⊎ (overlay_env_first set_bus_ok old_bus
            ≡ radsat_fram_overlay_env i2c_read set_bus_ok old_bus)
  unfolding overlay_env_first radsat_fram_overlay_env
  overlay_env-first set_bus_ok old_bus = elim (Bool-cases (fram_layout_ok i2c_read)) [
    | inl found ↦ inr (
        rw (found, (layout_checks i2c_read).0 found, overlay_env_first, radsat_fram_overlay_env)
          refl)
    | inr missing ↦ elim (Bool-cases (set_bus_ok 2)) [
      | inl selected ↦ inl (rw (selected, missing, overlay_env_first) (tt, (tt, (tt, tt))))
      | inr failed ↦ inl (rw (failed, overlay_env_first) (tt, (tt, tt)))
    ]
  ]
