-- ===== src/Tools/Recovery/State.antt =====
-- The texts of tools/apply-fram-layout-v4.py for the names, types, state and sets of the keys in src/model.rs.
use radsat_linux.Base.{Bytes, ◌++◌, codes}

abbrev pub names_v3 : Bytes
names_v3 =
    codes "            Self::BootChecksum => \"boot_checksum\",\n"
    ++ codes "            Self::SolarPanelDeployed => \"solar_panel_deployed\","

abbrev pub names_v4 : Bytes
names_v4 =
    codes "            Self::BootChecksum => \"boot_checksum\",\n"
    ++ codes "            Self::TotalBootFails => \"total_boot_fails\",\n"
    ++ codes "            Self::EmmcRecoveryNeeded => \"emmc_recovery_needed\",\n"
    ++ codes "            Self::EmmcRecoveryAttempts => \"emmc_recovery_attempts\",\n"
    ++ codes "            Self::SdRestoreSlot => \"sd_restore_slot\",\n"
    ++ codes "            Self::LastEmmcProbeOk => \"last_emmc_probe_ok\",\n"
    ++ codes "            Self::BootMedia => \"boot_media\",\n"
    ++ codes "            Self::BootImageId => \"boot_image_id\",\n"
    ++ codes "            Self::SolarPanelDeployed => \"solar_panel_deployed\","

abbrev pub types_v3 : Bytes
types_v3 =
    codes "            Self::FsooTimer\n"
    ++ codes "            | Self::BootChecksum\n"
    ++ codes "            | Self::AntennaDeployAttempts\n"
    ++ codes "            | Self::SolarPanelDeployAttempts\n"
    ++ codes "            | Self::NadirPointAttempts\n"
    ++ codes "            | Self::SunPointAttempts => ValueType::U64,"

abbrev pub types_v4 : Bytes
types_v4 =
    codes "            Self::FsooTimer\n"
    ++ codes "            | Self::BootChecksum\n"
    ++ codes "            | Self::TotalBootFails\n"
    ++ codes "            | Self::EmmcRecoveryAttempts\n"
    ++ codes "            | Self::SdRestoreSlot\n"
    ++ codes "            | Self::BootMedia\n"
    ++ codes "            | Self::BootImageId\n"
    ++ codes "            | Self::AntennaDeployAttempts\n"
    ++ codes "            | Self::SolarPanelDeployAttempts\n"
    ++ codes "            | Self::NadirPointAttempts\n"
    ++ codes "            | Self::SunPointAttempts => ValueType::U64,"

abbrev pub fields_v3 : Bytes
fields_v3 =
    codes "    pub boot_checksum: i64,\n" ++ codes "    pub adcs_commissioning_logged: bool,"

abbrev pub fields_v4 : Bytes
fields_v4 =
    codes "    pub boot_checksum: i64,\n"
    ++ codes "    pub total_boot_fails: i64,\n"
    ++ codes "    pub emmc_recovery_needed: bool,\n"
    ++ codes "    pub emmc_recovery_attempts: i64,\n"
    ++ codes "    pub sd_restore_slot: i64,\n"
    ++ codes "    pub last_emmc_probe_ok: bool,\n"
    ++ codes "    pub boot_media: i64,\n"
    ++ codes "    pub boot_image_id: i64,\n"
    ++ codes "    pub adcs_commissioning_logged: bool,"

abbrev pub arms_v3 : Bytes
arms_v3 =
    codes
      "            (MissionKey::BootChecksum, MissionValue::U64(v)) => self.boot_checksum = *v as i64,\n"
    ++ codes "            (MissionKey::AdcsCommissioningLogged, MissionValue::Bool(v)) => {"

abbrev pub arms_v4 : Bytes
arms_v4 =
    codes
      "            (MissionKey::BootChecksum, MissionValue::U64(v)) => self.boot_checksum = *v as i64,\n"
    ++ codes
        "            (MissionKey::TotalBootFails, MissionValue::U64(v)) => self.total_boot_fails = *v as i64,\n"
    ++ codes "            (MissionKey::EmmcRecoveryNeeded, MissionValue::Bool(v)) => {\n"
    ++ codes "                self.emmc_recovery_needed = *v\n"
    ++ codes "            },\n"
    ++ codes "            (MissionKey::EmmcRecoveryAttempts, MissionValue::U64(v)) => {\n"
    ++ codes "                self.emmc_recovery_attempts = *v as i64\n"
    ++ codes "            },\n"
    ++ codes
        "            (MissionKey::SdRestoreSlot, MissionValue::U64(v)) => self.sd_restore_slot = *v as i64,\n"
    ++ codes
        "            (MissionKey::LastEmmcProbeOk, MissionValue::Bool(v)) => self.last_emmc_probe_ok = *v,\n"
    ++ codes
        "            (MissionKey::BootMedia, MissionValue::U64(v)) => self.boot_media = *v as i64,\n"
    ++ codes
        "            (MissionKey::BootImageId, MissionValue::U64(v)) => self.boot_image_id = *v as i64,\n"
    ++ codes "            (MissionKey::AdcsCommissioningLogged, MissionValue::Bool(v)) => {"

abbrev pub boot_v3 : Bytes
boot_v3 =
    codes "    pub fn is_boot_key(self) -> bool {\n"
    ++ codes "        self.is_boot_policy_key() || matches!(self, Self::BootChecksum)\n"
    ++ codes "    }"

abbrev pub boot_v4 : Bytes
boot_v4 =
    codes "    pub fn is_boot_key(self) -> bool {\n"
    ++ codes "        self.is_boot_policy_key() || matches!(self, Self::BootChecksum)\n"
    ++ codes "    }\n"
    ++ codes "\n"
    ++ codes
        "    /// Recovery / ground-visible boot state — U-Boot may read/write; never classic env.\n"
    ++ codes "    pub fn is_recovery_key(self) -> bool {\n"
    ++ codes "        matches!(\n"
    ++ codes "            self,\n"
    ++ codes "            Self::TotalBootFails\n"
    ++ codes "                | Self::EmmcRecoveryNeeded\n"
    ++ codes "                | Self::EmmcRecoveryAttempts\n"
    ++ codes "                | Self::SdRestoreSlot\n"
    ++ codes "                | Self::LastEmmcProbeOk\n"
    ++ codes "                | Self::BootMedia\n"
    ++ codes "                | Self::BootImageId\n"
    ++ codes "        )\n"
    ++ codes "    }"
