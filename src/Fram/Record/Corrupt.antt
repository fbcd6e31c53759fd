-- ===== src/Fram/Record/Corrupt.antt =====
-- One wrong byte under a record's checksum, in either slot.
use radsat_linux.Base.{
  ℕ, ◌+◌, ◌≡◌, ◌≢◌, ap, ◌∙◌, sym, true, false, [], ◌∷◌, ◌++◌, Option, none, some, Bytes, arith, All,
  length, ==_iff, Bool-cases, inl, inr, All-append, length-append,
}
use radsat_linux.Fram.Crc.{IsByte, crc32_fram, crc32_fram-lt}
use radsat_linux.Fram.Crc.Detects.{crc32_fram_detects}
use radsat_linux.Fram.Record.{
  FramKey, record_crc_ok, slot_a_ok, slot_b_ok, best_slot, decode_value, decode_and_set, fram_read,
  slot_b_offset,
}
use radsat_linux.Fram.Record.Fields.{u32_le}
use radsat_linux.Fram.Record.Slots.{take_at, stored_crc}

module _ (pre : Bytes) (x y : ℕ) (post : Bytes) (hpre : All IsByte pre) (hx : IsByte x)
    (hy : IsByte y) (hpost : All IsByte post) (n : length pre + length post ≡ 27) (ne : x ≢ y) where
  -- 28 bytes, the byte `y` where the writer put `x`, and the writer's checksum
  abbrev damaged : Bytes
  damaged = (pre ++ y ∷ post) ++ u32_le (crc32_fram (pre ++ x ∷ post)) []

  damaged-crc_ok : record_crc_ok damaged ≡ false
  unfolding record_crc_ok
  damaged-crc_ok = elim (Bool-cases (record_crc_ok damaged)) [
    | inr bad ↦ bad
    | inl good ↦ absurd (
        crc32_fram_detects pre x y post hpre hx hy hpost ne (
          sym (
            ap crc32_fram (
              sym (
                take_at 28 (pre ++ y ∷ post) (u32_le (crc32_fram (pre ++ x ∷ post)) [])
                  (length-append pre (y ∷ post) ∙ omega arith)))
            ∙ (==_iff _ _).0 good
            ∙ stored_crc (pre ++ y ∷ post) (crc32_fram (pre ++ x ∷ post))
                (crc32_fram-lt (pre ++ x ∷ post)
                  (All-append IsByte pre (x ∷ post) hpre (hx, hpost)))
                (length-append pre (y ∷ post) ∙ omega arith))))
  ]

-- If one of the 28 checked bytes of slot A was damaged after it was written, the key's variable is left
-- alone: `decode_and_set` fails for every key, whatever slot B holds.
pub damaged_slot_a :
    (i2c_read : ℕ → ℕ → ℕ → ℕ → Option Bytes) (key : FramKey) (pre : Bytes) (x y : ℕ) (post : Bytes)
    → All IsByte pre
    → IsByte x
    → IsByte y
    → All IsByte post
    → length pre + length post ≡ 27
    → x ≢ y
    → decode_and_set i2c_read key ((pre ++ y ∷ post) ++ u32_le (crc32_fram (pre ++ x ∷ post)) [])
      ≡ none
unfolding decode_and_set slot_a_ok
damaged_slot_a i2c_read key pre x y post hpre hx hy hpost n ne =
    ground (arith, damaged-crc_ok pre x y post hpre hx hy hpost n ne)

bad_slot_b :
    (key : FramKey) (raw slot_b : Bytes)
    → record_crc_ok slot_b ≡ false
    → best_slot key raw (some slot_b) ≡ raw
unfolding best_slot slot_b_ok
bad_slot_b key raw slot_b bad = ground arith

-- If one of the 28 checked bytes of slot B was damaged after it was written, slot A decides alone: a
-- valid record there gives its own value.
pub damaged_slot_b :
    (i2c_read : ℕ → ℕ → ℕ → ℕ → Option Bytes) (key : FramKey) (raw pre : Bytes) (x y : ℕ)
    (post : Bytes)
    → All IsByte pre
    → IsByte x
    → IsByte y
    → All IsByte post
    → length pre + length post ≡ 27
    → x ≢ y
    → slot_a_ok key raw ≡ true
    → i2c_read 0x50 (slot_b_offset key.id) 2 32
      ≡ some ((pre ++ y ∷ post) ++ u32_le (crc32_fram (pre ++ x ∷ post)) [])
    → decode_and_set i2c_read key raw ≡ decode_value key raw
unfolding decode_and_set fram_read
damaged_slot_b i2c_read key raw pre x y post hpre hx hy hpost n ne ok read =
    rw ok (rw read (rw (bad_slot_b key raw _ (damaged-crc_ok pre x y post hpre hx hy hpost n ne))))
