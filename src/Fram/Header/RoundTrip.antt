-- ===== src/Fram/Header/RoundTrip.antt =====
-- A header that was written is found again, by the service and by U-Boot.
use radsat_linux.Base.{
  ℕ, ◌^◌, ◌<◌, ◌≡◌, refl, ap, ◌∙◌, Bool, true, false, some, Bytes, ◌==◌, arith, length, inl, inr,
  Bool-cases,
}
use radsat_linux.Base.Result.{ok, err, Result-cases}
use radsat_linux.Fram.Record.{le32}
use radsat_linux.Fram.Record.Fields.{le16-eq}
use radsat_linux.Fram.Overlay.{header_matches}
use radsat_linux.Fram.Header.{
  mission_region_end, header_bytes, header_valid, verify_layout_header, ensure_layout_header,
  layout_version_of,
}
use radsat_linux.Mram.Window.{ByteStorage, BackendError}

header_valid-bytes :
    (version : ℕ) → version < 2 ^ 16 → header_valid version (header_bytes version) ≡ true
unfolding header_valid header_bytes
header_valid-bytes version h = ground arith

-- What U-Boot's test on the header, which is for version 1, says of the header that the service writes
-- for a version: it matches exactly if the version is 1.
pub header_matches-bytes :
    (version : ℕ) → version < 2 ^ 16 → header_matches (header_bytes version) ≡ (version == 1)
unfolding header_matches header_bytes le32
header_matches-bytes version h =
    ground (arith, le16-eq (header_bytes version) 4 (omega arith) (omega arith))

-- What a memory promises: a read that gave bytes gives them again, and what was written is read.
pub record IsMemory {S : Type 0} (storage : ByteStorage S) : Type 0 where
  pub read_again :
      (s : S) (offset len : ℕ)
      → (storage.read (storage.read s offset len).1 offset len).0 ≡ (storage.read s offset len).0
  pub read_written :
      (s : S) (offset : ℕ) (bytes : Bytes)
      → (storage.write s offset bytes).0 ≡ ok tt
      → (storage.read (storage.write s offset bytes).1 offset (length bytes)).0 ≡ ok bytes

header_bytes-length : (version : ℕ) → length (header_bytes version) ≡ 16
unfolding header_bytes
header_bytes-length version = refl

module _ {S : Type 0} (storage : ByteStorage S) (reserved_keys layout_version : ℕ) where
  verify_lem :
      (s : S) (raw : Bytes)
      → (storage.read s (mission_region_end reserved_keys) 16).0 ≡ ok raw
      → ((verify_layout_header storage reserved_keys layout_version s).0
          ≡ ok (header_valid layout_version raw))
        × ((verify_layout_header storage reserved_keys layout_version s).1
            ≡ (storage.read s (mission_region_end reserved_keys) 16).1)
  unfolding verify_layout_header
  verify_lem s raw e = (rw (e, verify_layout_header) refl, rw (e, verify_layout_header) refl)

  verify_err :
      (s : S) (e : BackendError)
      → (storage.read s (mission_region_end reserved_keys) 16).0 ≡ err e
      → (verify_layout_header storage reserved_keys layout_version s).0 ≡ err e
  unfolding verify_layout_header
  verify_err s b e = rw (e, verify_layout_header) refl

  unfoldable pub HoldsHeader : S → Type 0
  HoldsHeader s =
      (raw : Bytes) × ((storage.read s (mission_region_end reserved_keys) 16).0 ≡ ok raw)
      × (header_valid layout_version raw ≡ true)

  pub verify-HoldsHeader :
      (s : S)
      → HoldsHeader s
      → ((verify_layout_header storage reserved_keys layout_version s).0 ≡ ok true)
        × ((layout_version_of storage reserved_keys layout_version s).0 ≡ ok (some layout_version))
  unfolding HoldsHeader layout_version_of
  verify-HoldsHeader s (raw, e, valid) =
      let verified = (verify_lem s raw e).0 ∙ ap (λ (b : Bool). ok b) valid in
      (verified, rw (verified, layout_version_of) refl)

  ensure_err :
      (s : S) (e : BackendError)
      → (verify_layout_header storage reserved_keys layout_version s).0 ≡ err e
      → (ensure_layout_header storage reserved_keys layout_version s).0 ≡ err e
  unfolding ensure_layout_header
  ensure_err s b e = rw (e, ensure_layout_header) refl

  ensure_kept :
      (s : S)
      → (verify_layout_header storage reserved_keys layout_version s).0 ≡ ok true
      → (ensure_layout_header storage reserved_keys layout_version s).1
        ≡ (verify_layout_header storage reserved_keys layout_version s).1
  unfolding ensure_layout_header
  ensure_kept s e = rw (e, ensure_layout_header) refl

  ensure_written :
      (s : S)
      → (verify_layout_header storage reserved_keys layout_version s).0 ≡ ok false
      → ensure_layout_header storage reserved_keys layout_version s
        ≡ storage.write
            (verify_layout_header storage reserved_keys layout_version s).1
            (mission_region_end reserved_keys)
            (header_bytes layout_version)
  unfolding ensure_layout_header
  ensure_written s e = rw (e, ensure_layout_header) refl

  pub ensure-HoldsHeader :
      (s : S)
      → IsMemory storage
      → layout_version < 2 ^ 16
      → (ensure_layout_header storage reserved_keys layout_version s).0 ≡ ok tt
      → HoldsHeader (ensure_layout_header storage reserved_keys layout_version s).1
  unfolding HoldsHeader header_bytes
  ensure-HoldsHeader s memory fits done =
      elim (Result-cases (storage.read s (mission_region_end reserved_keys) 16).0) [
        | inl (e, failed) ↦ cc (ensure_err s e (verify_err s e failed))
        | inr (raw, e) ↦
            let (outcome, after) = verify_lem s raw e in
            elim (Bool-cases (header_valid layout_version raw)) [
              | inl valid ↦
                  let kept = ensure_kept s (outcome ∙ ap (λ (b : Bool). ok b) valid) ∙ after in
                  (
                    raw,
                    rw kept (memory.read_again s (mission_region_end reserved_keys) 16 ∙ e),
                    valid,
                  )
              | inr invalid ↦
                  let written = ensure_written s (outcome ∙ ap (λ (b : Bool). ok b) invalid) in
                  (
                    header_bytes layout_version,
                    rw written (
                        memory.read_written _ (mission_region_end reserved_keys)
                          (header_bytes layout_version) (rw written at done)),
                    header_valid-bytes layout_version fits,
                  )
            ]
      ]

  -- Once `ensure_layout_header` has succeeded on a memory, `verify_layout_header` says that the header is
  -- valid, and `layout_version` gives the version.
  pub ensure-verify :
      (s : S)
      → IsMemory storage
      → layout_version < 2 ^ 16
      → (ensure_layout_header storage reserved_keys layout_version s).0 ≡ ok tt
      → let s2 = (ensure_layout_header storage reserved_keys layout_version s).1 in
        ((verify_layout_header storage reserved_keys layout_version s2).0 ≡ ok true)
        × ((layout_version_of storage reserved_keys layout_version s2).0 ≡ ok (some layout_version))
  ensure-verify s memory fits done =
      verify-HoldsHeader (ensure_layout_header storage reserved_keys layout_version s).1
        (ensure-HoldsHeader s memory fits done)
