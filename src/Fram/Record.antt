-- ===== src/Fram/Record.antt =====
-- common/fram_mission.c, as tools/rewrite-uboot-0006-0007.py writes it: the key table, the fields
-- of a 32-byte record, the choice between a key's two slots and the value it stands for.
-- `i2c_read` is U-Boot's: a read of `len` bytes, or none on a bus error.
pub mod Fields
pub mod Slots
pub mod Corrupt
pub mod Decimal
use radsat_linux.Base.{
  ℕ, zero, suc, ◌+◌, ◌-◌, ◌*◌, ◌/◌, ◌%◌, ◌^◌, Bool, true, false, not, ◌&&◌, ◌||◌, List, [], ◌∷◌,
  Option, none, some, Bytes, codes, bit_or, ltb, ◌==◌, if◌then◌else◌, get_or, take,
}
use radsat_linux.Fram.Crc.{crc32_fram}

-- `struct fram_key`; vtype is 1 for bool, 2 for timestamp, 3 for u64
pub record FramKey : Type 0 where
  pub id : ℕ
  pub name : Bytes
  pub vtype : ℕ

abbrev key_entry : ℕ → Bytes → ℕ → FramKey
key_entry i n t = record { id = i; name = n; vtype = t }

abbrev pub fram_keys : List FramKey
fram_keys =
    key_entry 1 (codes "remove_before_flight") 1
    ∷ key_entry 2 (codes "deployed") 1
    ∷ key_entry 3 (codes "deploy_start") 2
    ∷ key_entry 4 (codes "initial_safe_state_complete") 1
    ∷ key_entry 5 (codes "fsoo_timer") 3
    ∷ key_entry 6 (codes "detumbling_complete") 1
    ∷ []

abbrev pub fram_record_size : ℕ
fram_record_size = 32

abbrev pub fram_slots_per_key : ℕ
fram_slots_per_key = 2

abbrev pub fram_rec_magic : ℕ
fram_rec_magic = 0x4652

-- `raw[i]`
abbrev pub byte : Bytes → ℕ → ℕ
byte raw i = get_or raw i 0

-- `raw[i] | (raw[i + 1] << 8)`
unfoldable pub le16 : Bytes → ℕ → ℕ
le16 raw i = bit_or (byte raw i) (byte raw (i + 1) * 2 ^ 8)

-- `raw[i] | (raw[i + 1] << 8) | (raw[i + 2] << 16) | (raw[i + 3] << 24)`
unfoldable pub le32 : Bytes → ℕ → ℕ
unfolding le16
le32 raw i = bit_or (bit_or (le16 raw i) (byte raw (i + 2) * 2 ^ 16)) (byte raw (i + 3) * 2 ^ 24)

-- the same over eight bytes, in unsigned long long
unfoldable pub le64 : Bytes → ℕ → ℕ
unfolding le32
le64 raw i =
    bit_or
      (bit_or (bit_or (bit_or (le32 raw i) (byte raw (i + 4) * 2 ^ 32)) (byte raw (i + 5) * 2 ^ 40))
        (byte raw (i + 6) * 2 ^ 48))
      (byte raw (i + 7) * 2 ^ 56)

-- `sprintf(val, "%llu", n)`: the digits of `n` in front of `out`, with the rounds left
unfoldable pub decimal_digits : ℕ → ℕ → Bytes → Bytes
decimal_digits zero n out = out
decimal_digits (suc fuel) n out =
    let out' = (b'0' + n % 10) ∷ out in
    elim (n / 10 == 0) [ true ↦ out' | false ↦ decimal_digits fuel (n / 10) out' ]

-- a 64-bit number has at most 20 digits
unfoldable pub format_u64 : ℕ → Bytes
unfolding decimal_digits
format_u64 n = decimal_digits 20 n []

-- `crc32_fram(slot, 28) == (u32)(slot[28] | ...)`
unfoldable pub record_crc_ok : Bytes → Bool
record_crc_ok slot = crc32_fram (take 28 slot) == le32 slot 28

-- what `decode_and_set` demands of slot A
unfoldable pub slot_a_ok : FramKey → Bytes → Bool
slot_a_ok key raw =
    le16 raw 0 == fram_rec_magic && byte raw 2 == 1 && byte raw 3 == key.id && record_crc_ok raw

-- what it demands of slot B
unfoldable pub slot_b_ok : FramKey → Bytes → Bool
slot_b_ok key slot_b =
    le16 slot_b 0 == fram_rec_magic && byte slot_b 3 == key.id && record_crc_ok slot_b

-- `best`: slot B if it could be read, is valid and has the higher sequence number
unfoldable pub best_slot : FramKey → Bytes → Option Bytes → Bytes
best_slot key raw none = raw
best_slot key raw (some slot_b) =
    if slot_b_ok key slot_b && ltb (le32 raw 6) (le32 slot_b 6) then slot_b else raw

-- The value that `setenv` is called with, `some none` for NULL; none if the code returns -1.
unfoldable pub decode_value : FramKey → Bytes → Option (Option Bytes)
decode_value key best =
    if not (byte best 4 == key.vtype)
    then none
    else if key.vtype == 1
    then (if byte best 5 == 1
        then some (some (if byte best 10 == 0 then codes "false" else codes "true"))
        else none)
    else if key.vtype == 2
    then (if byte best 5 == 0
        then some none
        else if byte best 5 == 8
        then some (some (format_u64 (le64 best 10)))
        else none)
    else if key.vtype == 3
    then (if byte best 5 == 8 then some (some (format_u64 (le64 best 10))) else none)
    else none

-- offsets of a key's two slots
abbrev pub slot_a_offset : ℕ → ℕ
slot_a_offset id = (id - 1) * fram_slots_per_key * fram_record_size

abbrev pub slot_b_offset : ℕ → ℕ
slot_b_offset id = ((id - 1) * fram_slots_per_key + 1) * fram_record_size

module _ (i2c_read : ℕ → ℕ → ℕ → ℕ → Option Bytes) where
  -- CONFIG_FRAM_I2C_ADDR is 0x50, with two address bytes
  unfoldable pub fram_read : ℕ → ℕ → Option Bytes
  fram_read offset len = i2c_read 0x50 offset 2 len

  -- `decode_and_set`: none for a return of -1, else the value given to `setenv(key->name, …)`
  unfoldable pub decode_and_set : FramKey → Bytes → Option (Option Bytes)
  decode_and_set key raw =
      if slot_a_ok key raw
      then decode_value key (best_slot key raw (fram_read (slot_b_offset key.id) fram_record_size))
      else none
