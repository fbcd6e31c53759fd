-- ===== src/Mission/Key/Versions.antt =====
-- The key numbering before tools/apply-fram-layout-v4.py, after it, and after
-- tools/patch-fram-v5-model.py. A key that a version's enum does not have yet has no id there.
use radsat_linux.Base.{
  ℕ, ◌+◌, ◌≡◌, true, List, [], ◌∷◌, Option, none, some, arith, leb, if◌then◌else◌,
}
use radsat_linux.Mission.Key
use radsat_linux.Mission.Key.{
  MissionKey, remove_before_flight, deployed, deploy_start, initial_safe_state_complete, fsoo_timer,
  detumbling_complete, boot_checksum, total_boot_fails, emmc_recovery_needed,
  emmc_recovery_attempts, sd_restore_slot, last_emmc_probe_ok, boot_media, boot_image_id,
  solar_panel_deployed, uhf_antenna_deployed, vhf_antenna_deployed, adcs_commissioning_logged,
  adcs_commissioned, sun_pointing_consent, nadir_pointing_consent, platform_commissioned,
  gnss_system_error, gyro0_fail, gyro1_fail, mag0_fail, mag1_fail, reaction_wheel_fail,
  sun_sensor_fail, earth_sensor_fail, sun_pointing_angle_fault, sun_pointing_rate_fault,
  nadir_pointing_angle_fault, nadir_pointing_rate_fault, antenna_deploy_attempts,
  solar_panel_deploy_attempts, nadir_point_attempts, sun_point_attempts, comms_uplink_aes128_key,
  emmc_restore_offset,
}

-- the `id` that the script finds: `old_id`, 32 keys
unfoldable pub id_v3 : MissionKey → Option ℕ
id_v3 remove_before_flight = some 1
id_v3 deployed = some 2
id_v3 deploy_start = some 3
id_v3 initial_safe_state_complete = some 4
id_v3 fsoo_timer = some 5
id_v3 detumbling_complete = some 6
id_v3 boot_checksum = some 7
id_v3 solar_panel_deployed = some 8
id_v3 uhf_antenna_deployed = some 9
id_v3 vhf_antenna_deployed = some 10
id_v3 adcs_commissioning_logged = some 11
id_v3 adcs_commissioned = some 12
id_v3 sun_pointing_consent = some 13
id_v3 nadir_pointing_consent = some 14
id_v3 platform_commissioned = some 15
id_v3 gnss_system_error = some 16
id_v3 gyro0_fail = some 17
id_v3 gyro1_fail = some 18
id_v3 mag0_fail = some 19
id_v3 mag1_fail = some 20
id_v3 reaction_wheel_fail = some 21
id_v3 sun_sensor_fail = some 22
id_v3 earth_sensor_fail = some 23
id_v3 sun_pointing_angle_fault = some 24
id_v3 sun_pointing_rate_fault = some 25
id_v3 nadir_pointing_angle_fault = some 26
id_v3 nadir_pointing_rate_fault = some 27
id_v3 antenna_deploy_attempts = some 28
id_v3 solar_panel_deploy_attempts = some 29
id_v3 nadir_point_attempts = some 30
id_v3 sun_point_attempts = some 31
id_v3 comms_uplink_aes128_key = some 32
id_v3 _ = none

-- the `id` that the script writes: `new_id`, 39 keys
unfoldable pub id_v4 : MissionKey → Option ℕ
id_v4 remove_before_flight = some 1
id_v4 deployed = some 2
id_v4 deploy_start = some 3
id_v4 initial_safe_state_complete = some 4
id_v4 fsoo_timer = some 5
id_v4 detumbling_complete = some 6
id_v4 boot_checksum = some 7
id_v4 total_boot_fails = some 8
id_v4 emmc_recovery_needed = some 9
id_v4 emmc_recovery_attempts = some 10
id_v4 sd_restore_slot = some 11
id_v4 last_emmc_probe_ok = some 12
id_v4 boot_media = some 13
id_v4 boot_image_id = some 14
id_v4 solar_panel_deployed = some 15
id_v4 uhf_antenna_deployed = some 16
id_v4 vhf_antenna_deployed = some 17
id_v4 adcs_commissioning_logged = some 18
id_v4 adcs_commissioned = some 19
id_v4 sun_pointing_consent = some 20
id_v4 nadir_pointing_consent = some 21
id_v4 platform_commissioned = some 22
id_v4 gnss_system_error = some 23
id_v4 gyro0_fail = some 24
id_v4 gyro1_fail = some 25
id_v4 mag0_fail = some 26
id_v4 mag1_fail = some 27
id_v4 reaction_wheel_fail = some 28
id_v4 sun_sensor_fail = some 29
id_v4 earth_sensor_fail = some 30
id_v4 sun_pointing_angle_fault = some 31
id_v4 sun_pointing_rate_fault = some 32
id_v4 nadir_pointing_angle_fault = some 33
id_v4 nadir_pointing_rate_fault = some 34
id_v4 antenna_deploy_attempts = some 35
id_v4 solar_panel_deploy_attempts = some 36
id_v4 nadir_point_attempts = some 37
id_v4 sun_point_attempts = some 38
id_v4 comms_uplink_aes128_key = some 39
id_v4 _ = none

-- `new_keys_array`, the storage order of layout v4
abbrev pub mission_keys_v4 : List MissionKey
mission_keys_v4 =
    remove_before_flight ∷ deployed ∷ deploy_start ∷ initial_safe_state_complete ∷ fsoo_timer
    ∷ detumbling_complete ∷ boot_checksum ∷ total_boot_fails ∷ emmc_recovery_needed
    ∷ emmc_recovery_attempts ∷ sd_restore_slot ∷ last_emmc_probe_ok ∷ boot_media ∷ boot_image_id
    ∷ solar_panel_deployed ∷ uhf_antenna_deployed ∷ vhf_antenna_deployed ∷ adcs_commissioning_logged
    ∷ adcs_commissioned ∷ sun_pointing_consent ∷ nadir_pointing_consent ∷ platform_commissioned
    ∷ gnss_system_error ∷ gyro0_fail ∷ gyro1_fail ∷ mag0_fail ∷ mag1_fail ∷ reaction_wheel_fail
    ∷ sun_sensor_fail ∷ earth_sensor_fail ∷ sun_pointing_angle_fault ∷ sun_pointing_rate_fault
    ∷ nadir_pointing_angle_fault ∷ nadir_pointing_rate_fault ∷ antenna_deploy_attempts
    ∷ solar_panel_deploy_attempts ∷ nadir_point_attempts ∷ sun_point_attempts
    ∷ comms_uplink_aes128_key ∷ []

-- Layout v4 moves the keys in one block: an old id up to 7 (the boot keys) stays, and every later one
-- grows by 7.
pub id_v4-of-v3 :
    (k : MissionKey) {n : ℕ} → id_v3 k ≡ some n → id_v4 k ≡ some (if leb n 7 then n else n + 7)
unfolding id_v3 id_v4
id_v4-of-v3 remove_before_flight h = ground arith
id_v4-of-v3 _ h = ground arith

-- The keys that v4 adds are the recovery keys, and no others.
pub added_in_v4 :
    (k : MissionKey) {n : ℕ} → id_v3 k ≡ none → id_v4 k ≡ some n → Key.is_recovery_key k ≡ true
unfolding id_v3 id_v4 Key.is_recovery_key
added_in_v4 remove_before_flight h e = cc
added_in_v4 _ h e = ground arith

-- Layout v5 moves no key: a v4 id is the v5 id.
pub id-of-v4 : (k : MissionKey) {n : ℕ} → id_v4 k ≡ some n → Key.id k ≡ n
unfolding id_v4 Key.id
id-of-v4 remove_before_flight h = ground arith
id-of-v4 _ h = ground arith

-- An id of layout v3 decides the key's ids in v4 and v5, and they are the same in both: up to 7, the boot
-- keys, it stays, and every later one grows by 7.
pub ids-of-v3 :
    (k : MissionKey) {n : ℕ}
    → id_v3 k ≡ some n
    → (id_v4 k ≡ some (if leb n 7 then n else n + 7)) × (Key.id k ≡ (if leb n 7 then n else n + 7))
ids-of-v3 k h = (id_v4-of-v3 k h, id-of-v4 k (id_v4-of-v3 k h))
