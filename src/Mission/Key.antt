-- ===== src/Mission/Key.antt =====
-- `MissionKey` of fram-service's src/model.rs, as tools/patch-fram-v5-model.py writes it (layout
-- v5): the enum, the storage order, the stable ids, the environment names and the value types;
-- with the `matches!` sets that tools/apply-fram-layout-v4.py and apply-mram-fram-plan.py add.
pub mod Numbering
pub mod Names
pub mod Versions
use radsat_linux.Base.{
  ◌++◌, ℕ, Bool, true, false, ◌||◌, ◌&&◌, List, [], ◌∷◌, Bytes, codes, bytes_eq, leb, ◌==◌, ◌+◌,
  map, if◌then◌else◌, ◌≡◌, refl,
}

pub data MissionKey : Type 0 where
  remove_before_flight deployed deploy_start initial_safe_state_complete fsoo_timer
        detumbling_complete boot_checksum total_boot_fails emmc_recovery_needed
        emmc_recovery_attempts sd_restore_slot last_emmc_probe_ok boot_media boot_image_id
        solar_panel_deployed uhf_antenna_deployed vhf_antenna_deployed adcs_commissioning_logged
        adcs_commissioned sun_pointing_consent nadir_pointing_consent platform_commissioned
        gnss_system_error gyro0_fail gyro1_fail mag0_fail mag1_fail reaction_wheel_fail
        sun_sensor_fail earth_sensor_fail sun_pointing_angle_fault sun_pointing_rate_fault
        nadir_pointing_angle_fault nadir_pointing_rate_fault antenna_deploy_attempts
        solar_panel_deploy_attempts nadir_point_attempts sun_point_attempts comms_uplink_aes128_key
        emmc_restore_offset :
      MissionKey

pub data ValueType : Type 0 where
  timestamp u64 bytes boolean : ValueType

-- `MISSION_KEYS`, in storage order
abbrev pub mission_keys : List MissionKey
mission_keys =
    remove_before_flight ∷ deployed ∷ deploy_start ∷ initial_safe_state_complete ∷ fsoo_timer
    ∷ detumbling_complete ∷ boot_checksum ∷ total_boot_fails ∷ emmc_recovery_needed
    ∷ emmc_recovery_attempts ∷ sd_restore_slot ∷ last_emmc_probe_ok ∷ boot_media ∷ boot_image_id
    ∷ solar_panel_deployed ∷ uhf_antenna_deployed ∷ vhf_antenna_deployed ∷ adcs_commissioning_logged
    ∷ adcs_commissioned ∷ sun_pointing_consent ∷ nadir_pointing_consent ∷ platform_commissioned
    ∷ gnss_system_error ∷ gyro0_fail ∷ gyro1_fail ∷ mag0_fail ∷ mag1_fail ∷ reaction_wheel_fail
    ∷ sun_sensor_fail ∷ earth_sensor_fail ∷ sun_pointing_angle_fault ∷ sun_pointing_rate_fault
    ∷ nadir_pointing_angle_fault ∷ nadir_pointing_rate_fault ∷ antenna_deploy_attempts
    ∷ solar_panel_deploy_attempts ∷ nadir_point_attempts ∷ sun_point_attempts
    ∷ comms_uplink_aes128_key ∷ emmc_restore_offset ∷ []

-- `MissionKey::id`
unfoldable pub id : MissionKey → ℕ
id remove_before_flight = 1
id deployed = 2
id deploy_start = 3
id initial_safe_state_complete = 4
id fsoo_timer = 5
id detumbling_complete = 6
id boot_checksum = 7
id total_boot_fails = 8
id emmc_recovery_needed = 9
id emmc_recovery_attempts = 10
id sd_restore_slot = 11
id last_emmc_probe_ok = 12
id boot_media = 13
id boot_image_id = 14
id solar_panel_deployed = 15
id uhf_antenna_deployed = 16
id vhf_antenna_deployed = 17
id adcs_commissioning_logged = 18
id adcs_commissioned = 19
id sun_pointing_consent = 20
id nadir_pointing_consent = 21
id platform_commissioned = 22
id gnss_system_error = 23
id gyro0_fail = 24
id gyro1_fail = 25
id mag0_fail = 26
id mag1_fail = 27
id reaction_wheel_fail = 28
id sun_sensor_fail = 29
id earth_sensor_fail = 30
id sun_pointing_angle_fault = 31
id sun_pointing_rate_fault = 32
id nadir_pointing_angle_fault = 33
id nadir_pointing_rate_fault = 34
id antenna_deploy_attempts = 35
id solar_panel_deploy_attempts = 36
id nadir_point_attempts = 37
id sun_point_attempts = 38
id comms_uplink_aes128_key = 39
id emmc_restore_offset = 40

-- `MissionKey::env_name`
unfoldable pub env_name : MissionKey → Bytes
env_name remove_before_flight = codes "remove_before_flight"
env_name deployed = codes "deployed"
env_name deploy_start = codes "deploy_start"
env_name initial_safe_state_complete = codes "initial_safe_state_complete"
env_name fsoo_timer = codes "fsoo_timer"
env_name detumbling_complete = codes "detumbling_complete"
env_name boot_checksum = codes "boot_checksum"
env_name total_boot_fails = codes "total_boot_fails"
env_name emmc_recovery_needed = codes "emmc_recovery_needed"
env_name emmc_recovery_attempts = codes "emmc_recovery_attempts"
env_name sd_restore_slot = codes "sd_restore_slot"
env_name last_emmc_probe_ok = codes "last_emmc_probe_ok"
env_name boot_media = codes "boot_media"
env_name boot_image_id = codes "boot_image_id"
env_name solar_panel_deployed = codes "solar_panel_deployed"
env_name uhf_antenna_deployed = codes "uhf_antenna_deployed"
env_name vhf_antenna_deployed = codes "vhf_antenna_deployed"
env_name adcs_commissioning_logged = codes "adcs_commissioning_logged"
env_name adcs_commissioned = codes "adcs_commissioned"
env_name sun_pointing_consent = codes "sun_pointing_consent"
env_name nadir_pointing_consent = codes "nadir_pointing_consent"
env_name platform_commissioned = codes "platform_commissioned"
env_name gnss_system_error = codes "gnss_system_error"
env_name gyro0_fail = codes "gyro0_fail"
env_name gyro1_fail = codes "gyro1_fail"
env_name mag0_fail = codes "mag0_fail"
env_name mag1_fail = codes "mag1_fail"
env_name reaction_wheel_fail = codes "reaction_wheel_fail"
env_name sun_sensor_fail = codes "sun_sensor_fail"
env_name earth_sensor_fail = codes "earth_sensor_fail"
env_name sun_pointing_angle_fault = codes "sun_pointing_angle_fault"
env_name sun_pointing_rate_fault = codes "sun_pointing_rate_fault"
env_name nadir_pointing_angle_fault = codes "nadir_pointing_angle_fault"
env_name nadir_pointing_rate_fault = codes "nadir_pointing_rate_fault"
env_name antenna_deploy_attempts = codes "antenna_deploy_attempts"
env_name solar_panel_deploy_attempts = codes "solar_panel_deploy_attempts"
env_name nadir_point_attempts = codes "nadir_point_attempts"
env_name sun_point_attempts = codes "sun_point_attempts"
env_name comms_uplink_aes128_key = codes "comms_uplink_aes128_key"
env_name emmc_restore_offset = codes "emmc_restore_offset"

-- `MissionKey::declared_value_type`
unfoldable pub declared_value_type : MissionKey → ValueType
declared_value_type deploy_start = timestamp
declared_value_type fsoo_timer = u64
declared_value_type boot_checksum = u64
declared_value_type total_boot_fails = u64
declared_value_type emmc_recovery_attempts = u64
declared_value_type sd_restore_slot = u64
declared_value_type boot_media = u64
declared_value_type boot_image_id = u64
declared_value_type emmc_restore_offset = u64
declared_value_type antenna_deploy_attempts = u64
declared_value_type solar_panel_deploy_attempts = u64
declared_value_type nadir_point_attempts = u64
declared_value_type sun_point_attempts = u64
declared_value_type comms_uplink_aes128_key = bytes
declared_value_type _ = boolean

-- `MissionKey::is_recovery_key`
unfoldable pub is_recovery_key : MissionKey → Bool
is_recovery_key total_boot_fails = true
is_recovery_key emmc_recovery_needed = true
is_recovery_key emmc_recovery_attempts = true
is_recovery_key sd_restore_slot = true
is_recovery_key last_emmc_probe_ok = true
is_recovery_key boot_media = true
is_recovery_key boot_image_id = true
is_recovery_key _ = false

-- the White_Space of Unicode, which `str::trim` cuts from both ends
abbrev is_space : ℕ → Bool
is_space c =
    (leb 9 c && leb c 13)
    || (leb 0x2000 c && leb c 0x200a)
    || c == 0x20
    || c == 0x85
    || c == 0xa0
    || c == 0x1680
    || c == 0x2028
    || c == 0x2029
    || c == 0x202f
    || c == 0x205f
    || c == 0x3000

trim_start : Bytes → Bytes
trim_start [] = []
trim_start (c ∷ s) = if is_space c then trim_start s else c ∷ s

trim_end : Bytes → Bytes
trim_end [] = []
trim_end (c ∷ s) = elim (trim_end s) [ [] ↦ if is_space c then [] else c ∷ [] | d ∷ t ↦ c ∷ d ∷ t ]

to_ascii_lowercase : ℕ → ℕ
to_ascii_lowercase c = if leb b'A' c && leb c b'Z' then c + 32 else c

-- is `name` one of the texts?
unfoldable pub contains : Bytes → List Bytes → Bool
contains name [] = false
contains name (s ∷ ss) = bytes_eq name s || contains name ss

abbrev pub forbidden_names : List Bytes
forbidden_names =
    codes "bootcmd"
    ∷ codes "bootargs"
    ∷ codes "bootdelay"
    ∷ codes "bootfile"
    ∷ codes "dfu_alt_info"
    ∷ codes "dfu_alt_info_mmc"
    ∷ codes "dfu_alt_info_nor"
    ∷ codes "distro_bootcmd"
    ∷ codes "mmcboot"
    ∷ codes "uuid"
    ∷ codes "bootpart"
    ∷ codes "root"
    ∷ codes "loaduimage"
    ∷ codes "loadfdt"
    ∷ []

-- `MissionKey::is_forbidden_boot_env_name`
unfoldable pub is_forbidden_boot_env_name : Bytes → Bool
unfolding trim_start trim_end to_ascii_lowercase contains
is_forbidden_boot_env_name name =
    contains (map to_ascii_lowercase (trim_end (trim_start name))) forbidden_names

-- Case and surrounding blanks do not hide a forbidden name.
forbidden_in_disguise :
    is_forbidden_boot_env_name (0xa0 ∷ (codes " BootCmd " ++ 0x3000 ∷ [])) ≡ true
unfolding is_forbidden_boot_env_name
forbidden_in_disguise = refl
