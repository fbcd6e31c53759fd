-- ===== src/Fram/Record/Slots.antt =====
-- A round trip through the dual slots. `encode_record` is the record format, stated on its own: the
-- 28 bytes that the checksum covers, then the checksum.
use radsat_linux.Base.{
  ℕ, zero, suc, ◌+◌, ◌/◌, ◌%◌, ◌^◌, ◌<◌, ◌≡◌, refl, sym, ap, ◌∙◌, Bool, true, false, [], ◌∷◌, ◌++◌,
  Option, some, Bytes, arith, All, take, length, replicate, ltb, ==_iff, if◌then◌else◌,
}
use radsat_linux.Fram.Crc.{IsByte, crc32_fram, crc32_fram-lt}
use radsat_linux.Fram.Record.{
  FramKey, byte, le16, le32, format_u64, record_crc_ok, slot_a_ok, slot_b_ok, best_slot,
  decode_value, decode_and_set, fram_read, slot_b_offset,
}
use radsat_linux.Fram.Record.Fields.{le32_of, le64_of, u32_le, u64_le}

-- What the checksum covers: "FR", version 1, key id, value type, value length, sequence, 18 value bytes.
abbrev pub record_body : ℕ → ℕ → ℕ → ℕ → Bytes → Bytes
record_body id vtype len seq payload = 0x52 ∷ 0x46 ∷ 1 ∷ id ∷ vtype ∷ len ∷ u32_le seq payload

abbrev pub encode_record : ℕ → ℕ → ℕ → ℕ → Bytes → Bytes
encode_record id vtype len seq payload =
    record_body id vtype len seq payload
    ++ u32_le (crc32_fram (record_body id vtype len seq payload)) []

pub take_at : (n : ℕ) (s t : Bytes) → length s ≡ n → take n (s ++ t) ≡ s
take_at zero [] t e = refl
take_at zero (x ∷ s) t e = absurd (omega arith)
take_at (suc n) [] t e = absurd (omega arith)
take_at (suc n) (x ∷ s) t e = ap (λ (r : Bytes). x ∷ r) (take_at n s t (omega arith))

byte_at : (s t : Bytes) (i : ℕ) → byte (s ++ t) (length s + i) ≡ byte t i
byte_at [] t i = ap (byte t) (omega arith)
byte_at (x ∷ s) t i = ap (byte ((x ∷ s) ++ t)) (up (length s) i) ∙ byte_at s t i
  where
    up : (n i : ℕ) → suc n + i ≡ suc (n + i)
    up n i = omega arith

byte_behind : (n : ℕ) (s t : Bytes) (i : ℕ) → length s ≡ n → byte (s ++ t) (n + i) ≡ byte t i
byte_behind n s t i e = ap (λ (m : ℕ). byte (s ++ t) (m + i)) (sym e) ∙ byte_at s t i

-- What the last four bytes of a record hold.
pub stored_crc :
    (body : Bytes) (c : ℕ) → c < 2 ^ 32 → length body ≡ 28 → le32 (body ++ u32_le c []) 28 ≡ c
stored_crc body c h n =
    le32_of (body ++ u32_le c []) 28 c h (byte_behind 28 body (u32_le c []) 0 n)
      (byte_behind 28 body (u32_le c []) 1 n) (byte_behind 28 body (u32_le c []) 2 n)
      (byte_behind 28 body (u32_le c []) 3 n)

-- 28 bytes with their checksum behind them pass the test.
crc_ok_of_body :
    (body : Bytes)
    → All IsByte body
    → length body ≡ 28
    → record_crc_ok (body ++ u32_le (crc32_fram body) []) ≡ true
unfolding record_crc_ok
crc_ok_of_body body h n = (==_iff _ _).1 (
    ap crc32_fram (take_at 28 body (u32_le (crc32_fram body) []) n)
    ∙ sym (stored_crc body (crc32_fram body) (crc32_fram-lt body h) n))

-- The hypotheses under which a record can be written: every field fits its place.
pub record Fits (id vtype len seq : ℕ) (payload : Bytes) : Type 0 where
  pub id_fits : id < 256
  pub vtype_fits : vtype < 256
  pub len_fits : len < 256
  pub seq_fits : seq < 2 ^ 32
  pub payload_bytes : All IsByte payload
  pub payload_length : length payload ≡ 18

module _ (id vtype len seq : ℕ) (payload : Bytes) (fits : Fits id vtype len seq payload) where
  body_IsByte : All IsByte (record_body id vtype len seq payload)
  body_IsByte =
      let b : (m : ℕ) → m % 256 < 256 = λ m. omega arith in
      (
        omega arith,
        (
          omega arith,
          (
            omega arith,
            (
              fits.id_fits,
              (
                fits.vtype_fits,
                (
                  fits.len_fits,
                  (
                    b seq,
                    (b (seq / 2 ^ 8), (b (seq / 2 ^ 16), (b (seq / 2 ^ 24), fits.payload_bytes))),
                  ),
                ),
              ),
            ),
          ),
        ),
      )

  encode_record-crc_ok : record_crc_ok (encode_record id vtype len seq payload) ≡ true
  encode_record-crc_ok =
      crc_ok_of_body (record_body id vtype len seq payload) body_IsByte
        (omega (arith, fits.payload_length))

  encode_record-seq : le32 (encode_record id vtype len seq payload) 6 ≡ seq
  encode_record-seq = le32_of _ 6 seq fits.seq_fits refl refl refl refl

  encode_record-slot_a_ok :
      (key : FramKey) → key.id ≡ id → slot_a_ok key (encode_record id vtype len seq payload) ≡ true
  unfolding slot_a_ok le16
  encode_record-slot_a_ok key e = ground (arith, encode_record-crc_ok)

  encode_record-slot_b_ok :
      (key : FramKey) → key.id ≡ id → slot_b_ok key (encode_record id vtype len seq payload) ≡ true
  unfolding slot_b_ok le16
  encode_record-slot_b_ok key e = ground (arith, encode_record-crc_ok)

-- Of two well-formed records in a key's slots, the code decodes the one with the higher sequence
-- number, slot A's on a tie. A record in slot A decodes alone if slot B cannot be read or its checksum
-- is bad.
module _ (i2c_read : ℕ → ℕ → ℕ → ℕ → Option Bytes) (key : FramKey) (type_a len_a seq_a : ℕ)
    (value_a : Bytes) (fits_a : Fits key.id type_a len_a seq_a value_a) where
  abbrev slot_a : Bytes
  slot_a = encode_record key.id type_a len_a seq_a value_a

  decode_and_set-newer :
      (type_b len_b seq_b : ℕ) (value_b : Bytes)
      → Fits key.id type_b len_b seq_b value_b
      → i2c_read 0x50 (slot_b_offset key.id) 2 32
        ≡ some (encode_record key.id type_b len_b seq_b value_b)
      → decode_and_set i2c_read key slot_a
        ≡ decode_value key
            (if ltb seq_a seq_b then encode_record key.id type_b len_b seq_b value_b else slot_a)
  unfolding decode_and_set fram_read best_slot
  decode_and_set-newer type_b len_b seq_b value_b fits_b read =
      rw (encode_record-slot_a_ok key.id type_a len_a seq_a value_a fits_a key refl) (
        rw read (
          rw (encode_record-slot_b_ok key.id type_b len_b seq_b value_b fits_b key refl) (
            rw (encode_record-seq key.id type_a len_a seq_a value_a fits_a)
              (rw (encode_record-seq key.id type_b len_b seq_b value_b fits_b) refl))))

-- The 18 value bytes of a 64-bit value and of a flag.
abbrev pub u64_payload : ℕ → Bytes
u64_payload v = u64_le v (replicate 10 0)

abbrev pub bool_payload : ℕ → Bytes
bool_payload b = b ∷ replicate 17 0

u64_Fits : (id seq v : ℕ) → id < 256 → seq < 2 ^ 32 → Fits id 3 8 seq (u64_payload v)
u64_Fits id seq v h l = omega arith

decode_value-u64 :
    (key : FramKey) (seq v : ℕ)
    → key.vtype ≡ 3
    → v < 2 ^ 64
    → decode_value key (encode_record key.id 3 8 seq (u64_payload v)) ≡ some (some (format_u64 v))
unfolding decode_value
decode_value-u64 key seq v t h = rw t (
    rw (
      le64_of (encode_record key.id 3 8 seq (u64_payload v)) 10 v h refl refl refl refl refl refl
        refl refl))

-- For a u64 key whose two slots hold well-formed records of the values `v_a` and `v_b`, the variable is
-- set to the decimal text of the value with the higher sequence number, slot A's on a tie.
pub newest_u64 :
    (i2c_read : ℕ → ℕ → ℕ → ℕ → Option Bytes) (key : FramKey) (seq_a v_a seq_b v_b : ℕ)
    → key.vtype ≡ 3
    → key.id < 256
    → seq_a < 2 ^ 32
    → seq_b < 2 ^ 32
    → v_a < 2 ^ 64
    → v_b < 2 ^ 64
    → i2c_read 0x50 (slot_b_offset key.id) 2 32
      ≡ some (encode_record key.id 3 8 seq_b (u64_payload v_b))
    → decode_and_set i2c_read key (encode_record key.id 3 8 seq_a (u64_payload v_a))
      ≡ some (some (format_u64 (if ltb seq_a seq_b then v_b else v_a)))
newest_u64 i2c_read key seq_a v_a seq_b v_b t hid ha hb va vb read =
    decode_and_set-newer i2c_read key 3 8 seq_a (u64_payload v_a) (u64_Fits key.id seq_a v_a hid ha)
      3 8 seq_b (u64_payload v_b) (u64_Fits key.id seq_b v_b hid hb) read
    ∙ pick (ltb seq_a seq_b)
  where
    pick :
        (b : Bool)
        → decode_value key (
            if b
            then encode_record key.id 3 8 seq_b (u64_payload v_b)
            else encode_record key.id 3 8 seq_a (u64_payload v_a))
          ≡ some (some (format_u64 (if b then v_b else v_a)))
    pick true = decode_value-u64 key seq_b v_b t vb
    pick false = decode_value-u64 key seq_a v_a t va
