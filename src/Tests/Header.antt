-- ===== src/Tests/Header.antt =====
-- The start of fram-service on a blank chip, and a run of fram-set.
use radsat_linux.Base.{
  codes, ℕ, zero, suc, ◌+◌, ◌≡◌, refl, subst, true, false, [], ◌∷◌, Option, some, Bytes, arith, All,
  ltb, Bool-cases, inl, inr,
}
use radsat_linux.Fram.Helpers.{fram_set}
use radsat_linux.Fram.Helpers.Json.{is_plain, query_of}
use radsat_linux.Fram.Helpers.Request.{mutation, fram_set-query}
use radsat_linux.Base.Result.{Result, ok}
use radsat_linux.Fram.Crc.{IsByte}
use radsat_linux.Fram.Header.{
  header_bytes, header_valid, ensure_layout_header, verify_layout_header,
}
use radsat_linux.Fram.Header.Mount.{open_fram, byte-IsByte, open_fram-uboot}
use radsat_linux.Fram.Overlay.{fram_layout_ok, fram_layout_present_invalid}
use radsat_linux.Fram.Record.{fram_read}
use radsat_linux.Mram.Driver.Chip.{contents, written}
use radsat_linux.Tests.Fram.{memory, memory_keeps}

abbrev mount : (ℕ → ℕ) → Result ℕ (ℕ → ℕ)
mount s = ok s

abbrev started : ℕ → ℕ
started = written 2048 (header_bytes 1) (λ n. 0)

opens : open_fram memory 32 1 mount (λ n. 0) ≡ ok (started, false)
unfolding open_fram ensure_layout_header verify_layout_header contents header_valid
opens = refl

header_bytes-All : All IsByte (header_bytes 1)
unfolding header_bytes
header_bytes-All = (
  omega arith,
  (
    omega arith,
    (
      omega arith,
      (
        omega arith,
        (
          omega arith,
          (
            omega arith,
            (
              omega arith,
              (
                omega arith,
                (
                  omega arith,
                  (
                    omega arith,
                    (
                      omega arith,
                      (omega arith, (omega arith, (omega arith, (omega arith, (omega arith, tt))))),
                    ),
                  ),
                ),
              ),
            ),
          ),
        ),
      ),
    ),
  ),
)

started-IsByte : (n : ℕ) → IsByte (started n)
started-IsByte n = elim (Bool-cases (ltb n 2048)) [
  | inl below ↦ rw below (omega arith)
  | inr above ↦ rw above (byte-IsByte (header_bytes 1) _ header_bytes-All)
]

contents-All : (a len : ℕ) → All IsByte (contents started a len)
unfolding contents
contents-All a zero = tt
contents-All a (suc len) = (started-IsByte a, contents-All (a + 1) len)

abbrev i2c_read : ℕ → ℕ → ℕ → ℕ → Option Bytes
i2c_read address offset width len = some (contents started offset len)

read_back :
    (raw : Bytes) → (memory.read started 2048 16).0 ≡ ok raw → fram_read i2c_read 2048 16 ≡ some raw
unfolding fram_read
read_back raw h = cc

open_fram-uboot_example :
    (fram_layout_ok i2c_read ≡ true) × (fram_layout_present_invalid i2c_read ≡ false)
open_fram-uboot_example =
    open_fram-uboot memory mount i2c_read (λ n. 0) started memory_keeps
      (λ raw h. subst (λ r. All IsByte r) (cc) (contents-All 2048 16)) read_back opens

fram_set-query_example :
    ((body : Bytes) × (fram_set ((b'd' ∷ codes "eployed") ∷ (b't' ∷ codes "rue") ∷ []) ≡ some body)
      × (query_of body
          ≡ some (mutation (codes "boolValue") (codes "deployed") (codes "true") (codes "false"))))
    × ((body : Bytes) × (fram_set ((b'd' ∷ codes "eployed") ∷ (b't' ∷ codes "rue") ∷ [] ∷ [])
          ≡ some body)
        × (query_of body
            ≡ some
                (mutation (codes "boolValue") (codes "deployed") (codes "true") (codes "false"))))
unfolding is_plain
fram_set-query_example =
    fram_set-query b'd' b't' (codes "boolValue") (codes "eployed") (codes "rue") []
      (inl (refl, inl refl)) refl refl refl
