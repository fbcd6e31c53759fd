-- ===== src/Fram/Overlay/Refuses.antt =====
-- The devices from which the overlay takes nothing, told by the bytes that they hold.
use radsat_linux.Base.{
  ℕ, zero, suc, ◌<◌, ◌≡◌, refl, ◌≢◌, Bool, true, false, [], ◌∷◌, ◌++◌, Option, none, some, Bytes,
  codes, arith, All, Bool-cases, inl, inr, ◌⊎◌, Option-cases,
}
use radsat_linux.Fram.Crc.{IsByte, crc32_fram}
use radsat_linux.Fram.Header.Mount.{byte-IsByte}
use radsat_linux.Fram.Record.{byte, le16, le32, fram_read}
use radsat_linux.Fram.Record.Fields.{le16-eq, le32-eq}
use radsat_linux.Fram.Overlay.{
  radsat_fram_overlay_env, fram_layout_present_invalid, fram_boot_crc_ok, boot_record_ok,
  header_matches, is_blank,
}
use radsat_linux.Fram.Overlay.Layout.{blank_byte}
use radsat_linux.Fram.Overlay.FailOpen.{SetsNothing, overlay_env-guarded}

-- the first bytes of a header: "FRAM" and the version, lowest byte first
abbrev pub header_start : Bytes
header_start = codes "FRAM" ++ 1 ∷ 0 ∷ []

-- a header that is written, with a byte that is neither 0 nor 0xff, and in which one of the first six bytes is wrong
abbrev pub IsForeign : Bytes → Type 0
IsForeign hdr =
    All IsByte hdr
    × (i : ℕ) × (j : ℕ) × (byte hdr i ≢ 0)
    × (byte hdr i ≢ 0xff)
    × (j < 6)
    × (byte hdr j ≢ byte header_start j)

-- the record of BootChecksum is no record of it, or has another checksum
abbrev pub Differs : Bytes → Bytes → Type 0
Differs contents rec =
    (le16 rec 0 ≢ 0x4652)
    ⊎ (byte rec 3 ≢ 7)
    ⊎ (byte rec 4 ≢ 3)
    ⊎ (byte rec 5 ≢ 8)
    ⊎ (le32 rec 10 ≢ crc32_fram contents)

-- what the six bytes are, if a header matches
first_bytes :
    (hdr : Bytes)
    → All IsByte hdr
    → header_matches hdr ≡ true
    → (byte hdr 0 ≡ b'F')
      × (byte hdr 1 ≡ b'R')
      × (byte hdr 2 ≡ b'A')
      × (byte hdr 3 ≡ b'M')
      × (byte hdr 4 ≡ 1)
      × (byte hdr 5 ≡ 0)
unfolding header_matches
first_bytes hdr bytes matches =
    let b0 = byte-IsByte hdr 0 bytes in
    let b1 = byte-IsByte hdr 1 bytes in
    let b2 = byte-IsByte hdr 2 bytes in
    let b3 = byte-IsByte hdr 3 bytes in
    let b4 = byte-IsByte hdr 4 bytes in
    let b5 = byte-IsByte hdr 5 bytes in
    let magic : le32 hdr 0 ≡ 0x4d415246 = ground arith in
    let version : le16 hdr 4 ≡ 1 = ground arith in
    let m = le32-eq hdr 0 b0 b1 b2 b3 in
    let v = le16-eq hdr 4 b4 b5 in
    (omega arith, omega arith, omega arith, omega arith, omega arith, omega arith)

header_start_lem :
    (hdr : Bytes) (j : ℕ)
    → All IsByte hdr
    → header_matches hdr ≡ true
    → j < 6
    → byte hdr j ≡ byte header_start j
header_start_lem hdr zero bytes matches below = (first_bytes hdr bytes matches).0
header_start_lem hdr (suc zero) bytes matches below = (first_bytes hdr bytes matches).1
header_start_lem hdr (suc (suc zero)) bytes matches below = (first_bytes hdr bytes matches).2
header_start_lem hdr (suc (suc (suc zero))) bytes matches below = (first_bytes hdr bytes matches).3
header_start_lem hdr (suc (suc (suc (suc zero)))) bytes matches below =
    (first_bytes hdr bytes matches).4
header_start_lem hdr (suc (suc (suc (suc (suc zero))))) bytes matches below =
    (first_bytes hdr bytes matches).5
header_start_lem hdr (suc (suc (suc (suc (suc (suc j)))))) bytes matches below =
    absurd (omega arith)

foreign-matches : (hdr : Bytes) → IsForeign hdr → header_matches hdr ≡ false
foreign-matches hdr (bytes, i, j, low, high, below, wrong) =
    elim (Bool-cases (header_matches hdr)) [
      | inl matches ↦ absurd (wrong (header_start_lem hdr j bytes matches below))
      | inr other ↦ other
    ]

foreign-is_blank : (hdr : Bytes) → IsForeign hdr → is_blank hdr ≡ false
foreign-is_blank hdr (bytes, i, j, low, high, below, wrong) = elim (Bool-cases (is_blank hdr)) [
  | inl blank ↦ elim (blank_byte hdr i blank) [ inl e ↦ absurd (low e) | inr e ↦ absurd (high e) ]
  | inr written ↦ written
]

differs_lem :
    (contents rec : Bytes) → Differs contents rec → boot_record_ok (crc32_fram contents) rec ≡ false
unfolding boot_record_ok
differs_lem contents rec differs = ground (arith, differs)

module _ (i2c_read : ℕ → ℕ → ℕ → ℕ → Option Bytes) where
  abbrev pub NoChecksum : Type 0
  NoChecksum =
      (i2c_read 0x50 0 2 384 ≡ none)
      ⊎ (i2c_read 0x50 384 2 32 ≡ none)
      ⊎ ((contents : Bytes) × (rec : Bytes) × (i2c_read 0x50 0 2 384 ≡ some contents)
          × (i2c_read 0x50 384 2 32 ≡ some rec)
          × Differs contents rec)

  foreign-invalid :
      (hdr : Bytes)
      → i2c_read 0x50 2048 2 16 ≡ some hdr
      → IsForeign hdr
      → fram_layout_present_invalid i2c_read ≡ true
  unfolding fram_layout_present_invalid fram_read
  foreign-invalid hdr held foreign =
      rw
        (
          held,
          foreign-is_blank hdr foreign,
          foreign-matches hdr foreign,
          fram_layout_present_invalid,
        )
        refl

  no_checksum : NoChecksum → fram_boot_crc_ok i2c_read ≡ false
  unfolding fram_boot_crc_ok fram_read
  no_checksum (inl unread) = rw (unread, fram_boot_crc_ok) refl
  no_checksum (inr (inl unread)) = elim (Option-cases (i2c_read 0x50 0 2 384)) [
    | inl none_there ↦ rw (none_there, fram_boot_crc_ok) refl
    | inr (contents, e) ↦ rw (e, unread, fram_boot_crc_ok) refl
  ]
  no_checksum (inr (inr (contents, rec, e, e2, differs))) =
      rw (e, e2, differs_lem contents rec differs, fram_boot_crc_ok) refl

  -- No variable is set if bus 2 cannot be selected; if the layout header can be read, has a byte that is neither 0 nor 0xff,
  -- and does not begin with the six bytes "FRAM", 1, 0; or if the boot data or the record of its checksum cannot be read, or
  -- that record is not one of BootChecksum or holds another number than the CRC of the data.
  pub overlay_env_refuses :
      (set_bus_ok : ℕ → Bool) (old_bus : ℕ)
      → (set_bus_ok 2 ≡ false)
        ⊎ ((hdr : Bytes) × (i2c_read 0x50 2048 2 16 ≡ some hdr) × IsForeign hdr)
        ⊎ NoChecksum
      → All SetsNothing (radsat_fram_overlay_env i2c_read set_bus_ok old_bus)
  overlay_env_refuses set_bus_ok old_bus (inl bus_bad) =
      overlay_env-guarded i2c_read set_bus_ok old_bus (inl bus_bad)
  overlay_env_refuses set_bus_ok old_bus (inr (inl (hdr, held, foreign))) =
      overlay_env-guarded i2c_read set_bus_ok old_bus (inr (inl (foreign-invalid hdr held foreign)))
  overlay_env_refuses set_bus_ok old_bus (inr (inr why)) =
      overlay_env-guarded i2c_read set_bus_ok old_bus (inr (inr (no_checksum why)))
