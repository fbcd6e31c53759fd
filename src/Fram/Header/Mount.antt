-- ===== src/Fram/Header/Mount.antt =====
-- The start of fram-service: `FramStorage::mount` and the layout header behind it, as tools/apply-mram-fram-plan2.py
-- writes them in src/subsystem.rs.
use radsat_linux.Base.{
  ℕ, ◌^◌, ◌<◌, ◌≡◌, refl, ap, subst, Bool, true, false, Option, some, Bytes, arith, inl, inr, All,
  ◌⊎◌, [], ◌∷◌, zero, suc,
}
use radsat_linux.Base.Result.{Result, ok, err, Result-cases}
use radsat_linux.Fram.Record.{byte, fram_read}
use radsat_linux.Fram.Record.Fields.{le16-eq, le32-eq}
use radsat_linux.Fram.Overlay.{
  fram_layout_offset, header_matches, fram_layout_ok, fram_layout_present_invalid,
}
use radsat_linux.Fram.Overlay.Layout.{layout_checks}
use radsat_linux.Fram.Crc.{IsByte}
use radsat_linux.Fram.Header.{
  header_valid, ensure_layout_header, verify_layout_header, layout_version_of,
}
use radsat_linux.Fram.Header.RoundTrip.{IsMemory, HoldsHeader, ensure-HoldsHeader, ensure-verify}
use radsat_linux.Mram.Window.{ByteStorage, BackendError}

-- Is the message printed that the write of the header was skipped?
abbrev pub skipped : Result BackendError (Unit {0}) → Bool
skipped (ok u) = false
skipped (err e) = true

ok_inj : {E A : Type 0} {a b : A} → ◌≡◌ {A = Result E A} (ok a) (ok b) → a ≡ b
ok_inj h = cc

not_skipped : (r : Result BackendError (Unit {0})) → skipped r ≡ false → r ≡ ok tt
not_skipped (ok u) h = refl
not_skipped (err e) h = cc

module _ {S E : Type 0} (storage : ByteStorage S) (reserved_keys layout_version : ℕ)
    (mount : S → Result E S) where
  -- `fram.ensure_layout_header()` behind a mount: the storage that it leaves, and `skipped`
  abbrev pub with_header : Result E S → Result E (S × Bool)
  with_header (err e) = err e
  with_header (ok fram) =
      let (outcome, left) = ensure_layout_header storage reserved_keys layout_version fram in
      ok (left, skipped outcome)

  unfoldable pub open_fram : S → Result E (S × Bool)
  open_fram s = with_header (mount s)

  -- The header is advisory: the start succeeds whenever the mount does. Then, on a memory, it has printed its message, or
  -- `verify_layout_header` says that the header is valid and `layout_version` gives the version.
  pub open_fram-header :
      (s fram : S)
      → IsMemory storage
      → layout_version < 2 ^ 16
      → mount s ≡ ok fram
      → (left : S) × (skips : Bool) × (open_fram s ≡ ok (left, skips))
        × ((skips ≡ true)
            ⊎ (((verify_layout_header storage reserved_keys layout_version left).0 ≡ ok true)
                × ((layout_version_of storage reserved_keys layout_version left).0
                    ≡ ok (some layout_version))))
  unfolding open_fram
  open_fram-header s fram memory fits mounted =
      let ensured = ensure_layout_header storage reserved_keys layout_version fram in
      (
        ensured.1,
        skipped ensured.0,
        ap with_header mounted,
        elim (Result-cases ensured.0) [
          | inl (e, failed) ↦ inl (ap skipped failed)
          | inr (u, done) ↦
              inr (ensure-verify storage reserved_keys layout_version fram memory fits done)
        ],
      )

  with_header_inv :
      (m : Result E S) (left : S)
      → with_header m ≡ ok (left, false)
      → (fram : S) × (m ≡ ok fram)
        × ((ensure_layout_header storage reserved_keys layout_version fram).0 ≡ ok tt)
        × ((ensure_layout_header storage reserved_keys layout_version fram).1 ≡ left)
  with_header_inv (err e) left h = absurd (cc)
  with_header_inv (ok fram) left h =
      let ensured = ensure_layout_header storage reserved_keys layout_version fram in
      let parts : ((ensured.1, skipped ensured.0) ≡ (left, false)) = ok_inj h in
      (fram, refl, not_skipped ensured.0 (ap (λ p. p.1) parts), ap (λ p. p.0) parts)

pub byte-IsByte : (raw : Bytes) (i : ℕ) → All IsByte raw → byte raw i < 256
byte-IsByte [] i h = omega arith
byte-IsByte (b ∷ raw) zero (h, t) = h
byte-IsByte (b ∷ raw) (suc i) (h, t) = byte-IsByte raw i t

header_matches-valid :
    (raw : Bytes) → All IsByte raw → header_valid 1 raw ≡ true → header_matches raw ≡ true
unfolding header_valid header_matches
header_matches-valid raw bytes valid = ground (
  arith,
  le16-eq raw 4 (byte-IsByte raw 4 bytes) (byte-IsByte raw 5 bytes),
  le32-eq raw 0 (byte-IsByte raw 0 bytes) (byte-IsByte raw 1 bytes) (byte-IsByte raw 2 bytes)
      (byte-IsByte raw 3 bytes),
)

-- On the first layout, with 32 reserved keys and version 1, a start of the service that prints no message leaves an FRAM
-- that U-Boot accepts: both versions of its layout check pass. The conditions are that the storage is a memory and that
-- U-Boot reads on the bus the bytes that the storage holds.
pub open_fram-uboot :
    {S E : Type 0} (storage : ByteStorage S) (mount : S → Result E S)
    (i2c_read : ℕ → ℕ → ℕ → ℕ → Option Bytes) (s left : S)
    → IsMemory storage
    → ((raw : Bytes) → (storage.read left 2048 16).0 ≡ ok raw → All IsByte raw)
    → ((raw : Bytes)
        → (storage.read left 2048 16).0 ≡ ok raw
        → fram_read i2c_read fram_layout_offset 16 ≡ some raw)
    → open_fram storage 32 1 mount s ≡ ok (left, false)
    → (fram_layout_ok i2c_read ≡ true) × (fram_layout_present_invalid i2c_read ≡ false)
unfolding open_fram fram_layout_ok HoldsHeader
open_fram-uboot storage mount i2c_read s left memory bytes same opened =
    let (fram, mounted, done, after) = with_header_inv storage 32 1 mount (mount s) left opened in
    let (raw, read_back, valid) =
      subst (HoldsHeader storage 32 1) after
        (ensure-HoldsHeader storage 32 1 fram memory (omega arith) done) in
    let accepted : fram_layout_ok i2c_read ≡ true =
      rw (same raw read_back, fram_layout_ok)
        (header_matches-valid raw (bytes raw read_back) valid) in
    (accepted, (layout_checks i2c_read).0 accepted)
