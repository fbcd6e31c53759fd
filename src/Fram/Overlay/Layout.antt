-- ===== src/Fram/Overlay/Layout.antt =====
-- The two layout checks: the one of tools/gen-mram-fram-uboot-patches.py and the one that replaces
-- it.
use radsat_linux.Base.{
  ℕ, ◌<◌, ◌≡◌, refl, true, false, [], ◌∷◌, Option, none, some, Bytes, arith, Bool-cases,
  Option-cases, inl, inr, ◌⊎◌, zero, suc,
}
use radsat_linux.Fram.Record.{fram_read, byte}
use radsat_linux.Fram.Record.Fields.{le32-eq}
use radsat_linux.Fram.Overlay.{
  fram_layout_present_invalid, fram_layout_ok, header_matches, is_blank, fram_layout_offset,
}

-- a byte of a blank header
pub blank_byte :
    (hdr : Bytes) (i : ℕ) → is_blank hdr ≡ true → (byte hdr i ≡ 0) ⊎ (byte hdr i ≡ 0xff)
unfolding is_blank
blank_byte [] i h = inl refl
blank_byte (b ∷ s) zero h = ground arith
blank_byte (b ∷ s) (suc i) h = blank_byte s i (ground arith)

blank-lt : (hdr : Bytes) (i : ℕ) → is_blank hdr ≡ true → byte hdr i < 256
blank-lt hdr i h = elim (blank_byte hdr i h) [ inl e ↦ omega arith | inr e ↦ omega arith ]

-- A blank header does not hold the magic number.
matches-not_blank : (hdr : Bytes) → is_blank hdr ≡ true → header_matches hdr ≡ false
unfolding header_matches
matches-not_blank hdr h = ground (
  arith,
  blank_byte hdr 0 h,
  blank-lt hdr 1 h,
  blank-lt hdr 2 h,
  blank-lt hdr 3 h,
  le32-eq hdr 0 (blank-lt hdr 0 h) (blank-lt hdr 1 h) (blank-lt hdr 2 h) (blank-lt hdr 3 h),
)

-- The newer check refuses only what the older one refused; and what it accepts in addition is a
-- header that cannot be read or is blank, and nothing else.
pub layout_checks :
    (i2c_read : ℕ → ℕ → ℕ → ℕ → Option Bytes)
    → (fram_layout_ok i2c_read ≡ true → fram_layout_present_invalid i2c_read ≡ false)
      × (fram_layout_ok i2c_read ≡ false
          → fram_layout_present_invalid i2c_read ≡ false
          → (fram_read i2c_read fram_layout_offset 16 ≡ none)
            ⊎ ((hdr : Bytes) × (fram_read i2c_read fram_layout_offset 16 ≡ some hdr)
                × (is_blank hdr ≡ true)))
unfolding fram_layout_ok fram_layout_present_invalid
layout_checks i2c_read = elim (Option-cases (fram_read i2c_read fram_layout_offset 16)) [
  | inl unread ↦ (λ h. ground arith, λ h l. inl unread)
  | inr (hdr, e) ↦ elim (Bool-cases (is_blank hdr)) [
    | inl blank ↦ (λ h. ground (arith, matches-not_blank hdr blank), λ h l. inr (hdr, e, blank))
    | inr marked ↦ (λ h. ground arith, λ h l. absurd (ground arith))
  ]
]
