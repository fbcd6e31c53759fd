-- ===== src/Tests/Fram.antt =====
-- The FRAM side, run on small devices.
use radsat_linux.Base.{
  inr, ℕ, zero, suc, ◌+◌, ◌≤◌, ◌≡◌, ◌≢◌, ◌⊎◌, inl, refl, ap, true, List, [], ◌∷◌, ◌++◌, Option,
  none, some, Bytes, codes, arith, All, replicate, ◌==◌, ltb, if◌then◌else◌,
}
use radsat_linux.Base.Result.{ok}
use radsat_linux.Fram.Crc.{IsByte, crc32_fram}
use radsat_linux.Fram.Record.{
  FramKey, format_u64, slot_a_ok, record_crc_ok, le16, le32, decode_value, decode_and_set,
  slot_a_offset, slot_b_offset, fram_read, fram_record_size,
}
use radsat_linux.Fram.Record.Fields.{u32_le}
use radsat_linux.Fram.Record.Slots.{encode_record, u64_payload, newest_u64}
use radsat_linux.Fram.Record.Corrupt.{damaged_slot_a, damaged_slot_b}
use radsat_linux.Fram.Overlay.{
  Event, set_bus, boot_record_ok, fram_boot_crc_ok, radsat_fram_overlay_env,
}
use radsat_linux.Fram.Overlay.Policy.{Allowed, overlay_env-Allowed}
use radsat_linux.Fram.Overlay.FailOpen.{
  SetsNothing, SwitchesNoBus, overlay_env_restores_bus, corrupt_boot_data,
}
use radsat_linux.Fram.Overlay.Refuses.{overlay_env_refuses}
use radsat_linux.Fram.Header.{
  mission_region_end, header_valid, verify_layout_header, ensure_layout_header,
}
use radsat_linux.Fram.Header.RoundTrip.{IsMemory}
use radsat_linux.Fram.Header.Slots.{slots_disjoint}
use radsat_linux.Mram.Driver.Chip.{contents, written, contents-written}
use radsat_linux.Mram.Window.{ByteStorage}
use radsat_linux.Mission.Key.{deployed, fsoo_timer, id}

-- a device that answers every read with zero bytes
abbrev blank_device : ℕ → ℕ → ℕ → ℕ → Option Bytes
blank_device chip offset alen len = some (replicate len 0)

-- the checksum record for 384 zero bytes of boot data
abbrev checksum_record : Bytes
checksum_record =
    0x52 ∷ 0x46 ∷ 1 ∷ 7 ∷ 3 ∷ 8 ∷ 0 ∷ 0 ∷ 0 ∷ 0 ∷ 71 ∷ 209 ∷ 186 ∷ 136 ∷ replicate 18 0

-- a device with a first byte of boot data, zero bytes behind it, and that record
abbrev device : ℕ → ℕ → ℕ → ℕ → ℕ → Option Bytes
device first chip offset alen len =
    if offset == 0 then some (first ∷ replicate 383 0) else some checksum_record

ones : (n : ℕ) → All IsByte (replicate n 1)
ones zero = tt
ones (suc n) = (omega arith, ones n)

zero_bytes : (n : ℕ) → All IsByte (replicate n 0)
zero_bytes zero = tt
zero_bytes (suc n) = (omega arith, zero_bytes n)

device_is_valid : fram_boot_crc_ok (device 0) ≡ true
unfolding fram_boot_crc_ok fram_read boot_record_ok crc32_fram le16 le32
device_is_valid = refl

overlay_env-Allowed_example : All Allowed (radsat_fram_overlay_env (device 0) (λ bus. true) 0)
overlay_env-Allowed_example = overlay_env-Allowed (device 0) (λ bus. true) 0

corrupt_boot_data_example : All SetsNothing (radsat_fram_overlay_env (device 1) (λ bus. true) 0)
corrupt_boot_data_example =
    corrupt_boot_data (device 0) (device 1) [] 0 1 (replicate 383 0) (λ bus. true) 0 tt
      (omega arith) (omega arith) (zero_bytes 383) (λ e. omega arith) refl refl refl device_is_valid

-- a device on which all bytes are 1
abbrev foreign_device : ℕ → ℕ → ℕ → ℕ → Option Bytes
foreign_device chip offset alen len = some (replicate len 1)

overlay_env_refuses_example :
    All SetsNothing (radsat_fram_overlay_env foreign_device (λ bus. true) 0)
overlay_env_refuses_example =
    overlay_env_refuses foreign_device (λ bus. true) 0
      (inr (
        inl (
          replicate 16 1,
          refl,
          (ones 16, 0, 0, λ e. omega arith, λ e. omega arith, omega arith, λ e. omega arith),
        )))

overlay_env_restores_bus_example :
    (body : List Event) × (radsat_fram_overlay_env (device 0) (λ bus. true) 1
      ≡ set_bus 2 ∷ (body ++ set_bus 1 ∷ []))
    × All SwitchesNoBus body
overlay_env_restores_bus_example = overlay_env_restores_bus (device 0) (λ bus. true) 1 refl

abbrev fsoo_timer_key : FramKey
fsoo_timer_key = record { id = 5; name = codes "fsoo_timer"; vtype = 3 }

abbrev slot_b_device : ℕ → ℕ → ℕ → ℕ → Option Bytes
slot_b_device chip offset alen len = some (encode_record 5 3 8 2 (u64_payload 7))

newest_u64_example :
    decode_and_set slot_b_device fsoo_timer_key (encode_record 5 3 8 1 (u64_payload 3))
    ≡ some (some (format_u64 (if ltb 1 2 then 7 else 3)))
newest_u64_example =
    newest_u64 slot_b_device fsoo_timer_key 1 3 2 7 refl (omega arith) (omega arith) (omega arith)
      (omega arith) (omega arith) refl

damaged_slot_a_example :
    decode_and_set slot_b_device fsoo_timer_key
      (([] ++ 2 ∷ replicate 27 0) ++ u32_le (crc32_fram ([] ++ 1 ∷ replicate 27 0)) [])
    ≡ none
damaged_slot_a_example =
    damaged_slot_a slot_b_device fsoo_timer_key [] 1 2 (replicate 27 0) tt (omega arith)
      (omega arith) (zero_bytes 27) refl (λ e. omega arith)

abbrev damaged_device : ℕ → ℕ → ℕ → ℕ → Option Bytes
damaged_device chip offset alen len =
    some (([] ++ 2 ∷ replicate 27 0) ++ u32_le (crc32_fram ([] ++ 1 ∷ replicate 27 0)) [])

slot_a_is_valid : slot_a_ok fsoo_timer_key (encode_record 5 3 8 1 (u64_payload 3)) ≡ true
unfolding slot_a_ok le16 record_crc_ok crc32_fram le32
slot_a_is_valid = refl

damaged_slot_b_example :
    decode_and_set damaged_device fsoo_timer_key (encode_record 5 3 8 1 (u64_payload 3))
    ≡ decode_value fsoo_timer_key (encode_record 5 3 8 1 (u64_payload 3))
damaged_slot_b_example =
    damaged_slot_b damaged_device fsoo_timer_key (encode_record 5 3 8 1 (u64_payload 3)) [] 1 2
      (replicate 27 0) tt (omega arith) (omega arith) (zero_bytes 27) refl (λ e. omega arith)
      slot_a_is_valid refl

-- a memory of bytes, of which every access succeeds
abbrev pub memory : ByteStorage (ℕ → ℕ)
memory = record {
  capacity = λ s. 8192;
  read = λ s offset len. (ok (contents s offset len), s);
  write = λ s offset bytes. (ok tt, written offset bytes s);
}

pub memory_keeps : IsMemory memory
memory_keeps = record {
  read_again = λ s offset len. refl;
  read_written = λ s offset bytes h.
      ap (λ b. ok b) (contents-written s (written offset bytes s) offset bytes (λ n. refl));
}

pub ensured : (ensure_layout_header memory 32 1 (λ n. 0)).0 ≡ ok tt
unfolding ensure_layout_header verify_layout_header contents header_valid
ensured = refl

slots_disjoint_example :
    (slot_a_offset (id fsoo_timer) + fram_record_size ≡ slot_b_offset (id fsoo_timer))
    × (slot_b_offset (id fsoo_timer) + fram_record_size ≤ mission_region_end 40)
    × (deployed ≢ fsoo_timer
        → (slot_b_offset (id deployed) + fram_record_size ≤ slot_a_offset (id fsoo_timer))
          ⊎ (slot_b_offset (id fsoo_timer) + fram_record_size ≤ slot_a_offset (id deployed)))
slots_disjoint_example = slots_disjoint deployed fsoo_timer
