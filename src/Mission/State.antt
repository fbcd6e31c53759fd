-- ===== src/Mission/State.antt =====
-- `MissionState` of fram-service's src/model.rs and its `set`, as tools/apply-fram-layout-v4.py and patch-fram-v5-model.py
-- leave them. The scripts show ten arms of `set`. The fields of the other arms are `rest`, the values that no shown arm
-- takes are `O`, and what the other arms do is the argument `other`.
pub mod Refines
use radsat_linux.Base.{ℕ, suc, ◌-◌, ◌^◌, Bool, List, [], ◌∷◌, ltb, if◌then◌else◌}
use radsat_linux.Base.Int.{ℤ, pos, negsuc}
use radsat_linux.Mission.Key as Key
use radsat_linux.Mission.Key.{MissionKey}

pub data MissionValue (O : Type 0) : Type 0 where
  bool : Bool → MissionValue O
  u64 : ℕ → MissionValue O
  other_value : O → MissionValue O

pub record MissionState (R : Type 0) : Type 0 where
  pub boot_checksum : ℤ
  pub total_boot_fails : ℤ
  pub emmc_recovery_needed : Bool
  pub emmc_recovery_attempts : ℤ
  pub sd_restore_slot : ℤ
  pub last_emmc_probe_ok : Bool
  pub boot_media : ℤ
  pub boot_image_id : ℤ
  pub emmc_restore_offset : ℤ
  pub adcs_commissioning_logged : Bool
  pub rest : R

-- `v as i64` of a u64
abbrev pub as_i64 : ℕ → ℤ
as_i64 v = if ltb v (2 ^ 63) then pos v else negsuc (2 ^ 64 - 1 - v)

module _ {R O : Type 0}
    (other : MissionState R → MissionKey → MissionValue O → MissionState R) where
  unfoldable pub set : MissionState R → MissionKey → MissionValue O → MissionState R
  set s Key.boot_checksum (u64 v) = record s { boot_checksum = as_i64 v }
  set s Key.total_boot_fails (u64 v) = record s { total_boot_fails = as_i64 v }
  set s Key.emmc_recovery_needed (bool v) = record s { emmc_recovery_needed = v }
  set s Key.emmc_recovery_attempts (u64 v) = record s { emmc_recovery_attempts = as_i64 v }
  set s Key.sd_restore_slot (u64 v) = record s { sd_restore_slot = as_i64 v }
  set s Key.last_emmc_probe_ok (bool v) = record s { last_emmc_probe_ok = v }
  set s Key.boot_media (u64 v) = record s { boot_media = as_i64 v }
  set s Key.boot_image_id (u64 v) = record s { boot_image_id = as_i64 v }
  set s Key.emmc_restore_offset (u64 v) = record s { emmc_restore_offset = as_i64 v }
  set s Key.adcs_commissioning_logged (bool v) = record s { adcs_commissioning_logged = v }
  set s k v = other s k v
