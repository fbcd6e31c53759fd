-- ===== src/Tools/Model/State.antt =====
-- The texts of tools/patch-fram-v5-model.py for MissionState in src/model.rs.
use radsat_linux.Base.{Bytes, ◌++◌, codes}

abbrev pub old_struct : Bytes
old_struct =
    codes "pub struct MissionState {\n"
    ++ codes "    pub remove_before_flight: bool,\n"
    ++ codes "    pub deployed: bool,\n"
    ++ codes "    pub deploy_start: Option<i64>,\n"
    ++ codes "    pub solar_panel_deployed: bool,\n"
    ++ codes "    pub uhf_antenna_deployed: bool,\n"
    ++ codes "    pub vhf_antenna_deployed: bool,\n"
    ++ codes "    pub initial_safe_state_complete: bool,\n"
    ++ codes "    pub detumbling_complete: bool,\n"
    ++ codes "    pub fsoo_timer: i64,\n"
    ++ codes "    pub boot_checksum: i64,\n"
    ++ codes "    pub adcs_commissioning_logged: bool,"

abbrev pub new_struct : Bytes
new_struct =
    codes "pub struct MissionState {\n"
    ++ codes "    pub remove_before_flight: bool,\n"
    ++ codes "    pub deployed: bool,\n"
    ++ codes "    pub deploy_start: Option<i64>,\n"
    ++ codes "    pub solar_panel_deployed: bool,\n"
    ++ codes "    pub uhf_antenna_deployed: bool,\n"
    ++ codes "    pub vhf_antenna_deployed: bool,\n"
    ++ codes "    pub initial_safe_state_complete: bool,\n"
    ++ codes "    pub detumbling_complete: bool,\n"
    ++ codes "    pub fsoo_timer: i64,\n"
    ++ codes "    pub boot_checksum: i64,\n"
    ++ codes "    pub total_boot_fails: i64,\n"
    ++ codes "    pub emmc_recovery_needed: bool,\n"
    ++ codes "    pub emmc_recovery_attempts: i64,\n"
    ++ codes "    pub sd_restore_slot: i64,\n"
    ++ codes "    pub last_emmc_probe_ok: bool,\n"
    ++ codes "    pub boot_media: i64,\n"
    ++ codes "    pub boot_image_id: i64,\n"
    ++ codes "    pub emmc_restore_offset: i64,\n"
    ++ codes "    pub adcs_commissioning_logged: bool,"

abbrev pub needle : Bytes
needle =
    codes
      "            (MissionKey::BootChecksum, MissionValue::U64(v)) => self.boot_checksum = *v as i64,\n"
    ++ codes "            (MissionKey::AdcsCommissioningLogged, MissionValue::Bool(v)) => {\n"
    ++ codes "                self.adcs_commissioning_logged = *v\n"
    ++ codes "            }"

abbrev pub insert : Bytes
insert =
    codes
      "            (MissionKey::BootChecksum, MissionValue::U64(v)) => self.boot_checksum = *v as i64,\n"
    ++ codes
        "            (MissionKey::TotalBootFails, MissionValue::U64(v)) => self.total_boot_fails = *v as i64,\n"
    ++ codes "            (MissionKey::EmmcRecoveryNeeded, MissionValue::Bool(v)) => {\n"
    ++ codes "                self.emmc_recovery_needed = *v\n"
    ++ codes "            },\n"
    ++ codes "            (MissionKey::EmmcRecoveryAttempts, MissionValue::U64(v)) => {\n"
    ++ codes "                self.emmc_recovery_attempts = *v as i64\n"
    ++ codes "            },\n"
    ++ codes
        "            (MissionKey::SdRestoreSlot, MissionValue::U64(v)) => self.sd_restore_slot = *v as i64,\n"
    ++ codes
        "            (MissionKey::LastEmmcProbeOk, MissionValue::Bool(v)) => self.last_emmc_probe_ok = *v,\n"
    ++ codes
        "            (MissionKey::BootMedia, MissionValue::U64(v)) => self.boot_media = *v as i64,\n"
    ++ codes
        "            (MissionKey::BootImageId, MissionValue::U64(v)) => self.boot_image_id = *v as i64,\n"
    ++ codes "            (MissionKey::EmmcRestoreOffset, MissionValue::U64(v)) => {\n"
    ++ codes "                self.emmc_restore_offset = *v as i64\n"
    ++ codes "            },\n"
    ++ codes "            (MissionKey::AdcsCommissioningLogged, MissionValue::Bool(v)) => {\n"
    ++ codes "                self.adcs_commissioning_logged = *v\n"
    ++ codes "            }"
