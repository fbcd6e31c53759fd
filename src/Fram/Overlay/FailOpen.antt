-- ===== src/Fram/Overlay/FailOpen.antt =====
-- Fail-open: a bad bus, header or checksum leaves every variable alone, and the I2C bus that was
-- selected before is selected again.
use radsat_linux.Base.{
  ℕ, ◌≡◌, ◌≢◌, sym, ◌∙◌, Bool, true, false, List, [], ◌∷◌, ◌++◌, Option, some, Bytes, arith, All,
  All-append, Bool-cases, Option-cases, inl, inr, ◌⊎◌, append_assoc,
}
use radsat_linux.Fram.Crc.{IsByte, crc32_fram}
use radsat_linux.Fram.Crc.Detects.{crc32_fram_detects}
use radsat_linux.Fram.Record.{FramKey, fram_keys, fram_read}
use radsat_linux.Fram.Overlay.{
  Event, set_bus, setenv, puts, overlay_key, overlay_keys, radsat_fram_overlay_env,
  fram_layout_present_invalid, fram_boot_crc_ok, boot_record_ok,
}
use radsat_linux.Fram.Overlay.Policy.{overlay_key-cases}

abbrev pub SetsNothing : Event → Type 0
SetsNothing (setenv name value) = ⊥
SetsNothing (set_bus n) = Unit
SetsNothing (puts s) = Unit

abbrev pub SwitchesNoBus : Event → Type 0
SwitchesNoBus (setenv name value) = Unit
SwitchesNoBus (set_bus n) = ⊥
SwitchesNoBus (puts s) = Unit

module _ (i2c_read : ℕ → ℕ → ℕ → ℕ → Option Bytes) where
  overlay_keys-SwitchesNoBus : (ks : List FramKey) → All SwitchesNoBus (overlay_keys i2c_read ks)
  unfolding overlay_keys
  overlay_keys-SwitchesNoBus [] = tt
  overlay_keys-SwitchesNoBus (k ∷ ks) =
      All-append SwitchesNoBus (overlay_key i2c_read k) (overlay_keys i2c_read ks)
        (elim (overlay_key-cases i2c_read k) [
          | inl nothing ↦ rw nothing tt
          | inr (v, sets) ↦ rw sets (tt, tt)
        ])
        (overlay_keys-SwitchesNoBus ks)

  -- Once bus 2 is selected, the overlay ends by selecting the old bus again and switches no bus in
  -- between, on every path through the code.
  pub overlay_env_restores_bus :
      (set_bus_ok : ℕ → Bool) (old_bus : ℕ)
      → set_bus_ok 2 ≡ true
      → (body : List Event) × (radsat_fram_overlay_env i2c_read set_bus_ok old_bus
          ≡ set_bus 2 ∷ (body ++ set_bus old_bus ∷ []))
        × All SwitchesNoBus body
  unfolding radsat_fram_overlay_env
  overlay_env_restores_bus set_bus_ok old_bus ok =
      rw ok (elim (Bool-cases (fram_layout_present_invalid i2c_read)) [
        | inl invalid ↦ (
          puts "FRAM: layout magic/version mismatch; skipping mission overlay\n" ∷ [],
          rw invalid,
          (tt, tt),
        )
        | inr valid ↦ elim (Bool-cases (fram_boot_crc_ok i2c_read)) [
          | inr crc_bad ↦ (
            puts "FRAM: boot-region CRC invalid; skipping mission overlay\n" ∷ [],
            rw (valid, crc_bad),
            (tt, tt),
          )
          | inl crc_ok ↦ (
            overlay_keys i2c_read fram_keys ++ puts "FRAM: mission policy keys overlaid\n" ∷ [],
            rw (valid, crc_ok, append_assoc),
            All-append SwitchesNoBus (overlay_keys i2c_read fram_keys)
                (puts "FRAM: mission policy keys overlaid\n" ∷ [])
                (overlay_keys-SwitchesNoBus fram_keys) (tt, tt),
          )
        ]
      ])

  -- no variable is set behind a guard
  pub overlay_env-guarded :
      (set_bus_ok : ℕ → Bool) (old_bus : ℕ)
      → (set_bus_ok 2 ≡ false)
        ⊎ (fram_layout_present_invalid i2c_read ≡ true)
        ⊎ (fram_boot_crc_ok i2c_read ≡ false)
      → All SetsNothing (radsat_fram_overlay_env i2c_read set_bus_ok old_bus)
  unfolding radsat_fram_overlay_env
  overlay_env-guarded set_bus_ok old_bus why = elim (Bool-cases (set_bus_ok 2)) [
    | inr bus_bad ↦ rw bus_bad (tt, (tt, tt))
    | inl bus_ok ↦ rw bus_ok (elim (Bool-cases (fram_layout_present_invalid i2c_read)) [
      | inl invalid ↦ rw invalid (tt, (tt, (tt, tt)))
      | inr valid ↦ rw valid (elim (Bool-cases (fram_boot_crc_ok i2c_read)) [
        | inr crc_bad ↦ rw crc_bad (tt, (tt, (tt, tt)))
        | inl crc_ok ↦ absurd (ground arith)
      ])
    ])
  ]

-- A boot record that matches one checksum matches no other.
boot_record_ok_unique :
    (c d : ℕ) (rec : Bytes) → boot_record_ok c rec ≡ true → boot_record_ok d rec ≡ true → c ≡ d
unfolding boot_record_ok
boot_record_ok_unique c d rec h l = ground arith

-- What a successful check has read.
boot_crc_read :
    (i2c_read : ℕ → ℕ → ℕ → ℕ → Option Bytes) (contents : Bytes)
    → i2c_read 0x50 0 2 384 ≡ some contents
    → fram_boot_crc_ok i2c_read ≡ true
    → (rec : Bytes) × (i2c_read 0x50 384 2 32 ≡ some rec)
      × (boot_record_ok (crc32_fram contents) rec ≡ true)
unfolding fram_boot_crc_ok fram_read
boot_crc_read i2c_read contents r ok = elim (Option-cases (i2c_read 0x50 384 2 32)) [
  | inl unread ↦ absurd (ground arith)
  | inr (rec, e) ↦ (rec, e, ground arith)
]

some_eq : (s t : Bytes) → some s ≡ some t → s ≡ t
some_eq s t e = cc

-- Take a device whose boot checksum is right, and change one byte of its 384 bytes of boot data,
-- leaving the checksum record as it is: on the changed device the overlay sets no variable.
pub corrupt_boot_data :
    (i2c_read i2c_read' : ℕ → ℕ → ℕ → ℕ → Option Bytes) (pre : Bytes) (x y : ℕ) (post : Bytes)
    (set_bus_ok : ℕ → Bool) (old_bus : ℕ)
    → All IsByte pre
    → IsByte x
    → IsByte y
    → All IsByte post
    → x ≢ y
    → i2c_read 0x50 0 2 384 ≡ some (pre ++ x ∷ post)
    → i2c_read' 0x50 0 2 384 ≡ some (pre ++ y ∷ post)
    → i2c_read' 0x50 384 2 32 ≡ i2c_read 0x50 384 2 32
    → fram_boot_crc_ok i2c_read ≡ true
    → All SetsNothing (radsat_fram_overlay_env i2c_read' set_bus_ok old_bus)
corrupt_boot_data i2c_read i2c_read' pre x y post set_bus_ok old_bus hpre hx hy hpost ne rx ry same
      ok =
    overlay_env-guarded i2c_read' set_bus_ok old_bus (
      inr (
        inr (elim (Bool-cases (fram_boot_crc_ok i2c_read')) [
          | inr bad ↦ bad
          | inl good ↦
              let (rec, e, right) = boot_crc_read i2c_read (pre ++ x ∷ post) rx ok in
              let (rec', e', right') = boot_crc_read i2c_read' (pre ++ y ∷ post) ry good in
              absurd (
                crc32_fram_detects pre x y post hpre hx hy hpost ne (
                  boot_record_ok_unique _ _ rec right
                    (rw (some_eq rec rec' (sym e ∙ sym same ∙ e')) right')))
        ])))
