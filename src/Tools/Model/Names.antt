-- ===== src/Tools/Model/Names.antt =====
-- The texts of tools/patch-fram-v5-model.py for the ids, names and types of the keys in src/model.rs.
use radsat_linux.Base.{Bytes, ◌++◌, codes}

abbrev pub id_new : Bytes
id_new =
    codes "pub fn id(self) -> u8 {\n"
    ++ codes "        match self {\n"
    ++ codes "            Self::RemoveBeforeFlight => 1,\n"
    ++ codes "            Self::Deployed => 2,\n"
    ++ codes "            Self::DeployStart => 3,\n"
    ++ codes "            Self::InitialSafeStateComplete => 4,\n"
    ++ codes "            Self::FsooTimer => 5,\n"
    ++ codes "            Self::DetumblingComplete => 6,\n"
    ++ codes "            Self::BootChecksum => 7,\n"
    ++ codes "            Self::TotalBootFails => 8,\n"
    ++ codes "            Self::EmmcRecoveryNeeded => 9,\n"
    ++ codes "            Self::EmmcRecoveryAttempts => 10,\n"
    ++ codes "            Self::SdRestoreSlot => 11,\n"
    ++ codes "            Self::LastEmmcProbeOk => 12,\n"
    ++ codes "            Self::BootMedia => 13,\n"
    ++ codes "            Self::BootImageId => 14,\n"
    ++ codes "            Self::SolarPanelDeployed => 15,\n"
    ++ codes "            Self::UhfAntennaDeployed => 16,\n"
    ++ codes "            Self::VhfAntennaDeployed => 17,\n"
    ++ codes "            Self::AdcsCommissioningLogged => 18,\n"
    ++ codes "            Self::AdcsCommissioned => 19,\n"
    ++ codes "            Self::SunPointingConsent => 20,\n"
    ++ codes "            Self::NadirPointingConsent => 21,\n"
    ++ codes "            Self::PlatformCommissioned => 22,\n"
    ++ codes "            Self::GnssSystemError => 23,\n"
    ++ codes "            Self::Gyro0Fail => 24,\n"
    ++ codes "            Self::Gyro1Fail => 25,\n"
    ++ codes "            Self::Mag0Fail => 26,\n"
    ++ codes "            Self::Mag1Fail => 27,\n"
    ++ codes "            Self::ReactionWheelFail => 28,\n"
    ++ codes "            Self::SunSensorFail => 29,\n"
    ++ codes "            Self::EarthSensorFail => 30,\n"
    ++ codes "            Self::SunPointingAngleFault => 31,\n"
    ++ codes "            Self::SunPointingRateFault => 32,\n"
    ++ codes "            Self::NadirPointingAngleFault => 33,\n"
    ++ codes "            Self::NadirPointingRateFault => 34,\n"
    ++ codes "            Self::AntennaDeployAttempts => 35,\n"
    ++ codes "            Self::SolarPanelDeployAttempts => 36,\n"
    ++ codes "            Self::NadirPointAttempts => 37,\n"
    ++ codes "            Self::SunPointAttempts => 38,\n"
    ++ codes "            Self::CommsUplinkAes128Key => 39,\n"
    ++ codes "            Self::EmmcRestoreOffset => 40,\n"
    ++ codes "        }\n"
    ++ codes "    }"

abbrev pub env_new : Bytes
env_new =
    codes "pub fn env_name(self) -> &'static str {\n"
    ++ codes "        match self {\n"
    ++ codes "            Self::RemoveBeforeFlight => \"remove_before_flight\",\n"
    ++ codes "            Self::Deployed => \"deployed\",\n"
    ++ codes "            Self::DeployStart => \"deploy_start\",\n"
    ++ codes "            Self::InitialSafeStateComplete => \"initial_safe_state_complete\",\n"
    ++ codes "            Self::FsooTimer => \"fsoo_timer\",\n"
    ++ codes "            Self::DetumblingComplete => \"detumbling_complete\",\n"
    ++ codes "            Self::BootChecksum => \"boot_checksum\",\n"
    ++ codes "            Self::TotalBootFails => \"total_boot_fails\",\n"
    ++ codes "            Self::EmmcRecoveryNeeded => \"emmc_recovery_needed\",\n"
    ++ codes "            Self::EmmcRecoveryAttempts => \"emmc_recovery_attempts\",\n"
    ++ codes "            Self::SdRestoreSlot => \"sd_restore_slot\",\n"
    ++ codes "            Self::LastEmmcProbeOk => \"last_emmc_probe_ok\",\n"
    ++ codes "            Self::BootMedia => \"boot_media\",\n"
    ++ codes "            Self::BootImageId => \"boot_image_id\",\n"
    ++ codes "            Self::SolarPanelDeployed => \"solar_panel_deployed\",\n"
    ++ codes "            Self::UhfAntennaDeployed => \"uhf_antenna_deployed\",\n"
    ++ codes "            Self::VhfAntennaDeployed => \"vhf_antenna_deployed\",\n"
    ++ codes "            Self::AdcsCommissioningLogged => \"adcs_commissioning_logged\",\n"
    ++ codes "            Self::AdcsCommissioned => \"adcs_commissioned\",\n"
    ++ codes "            Self::SunPointingConsent => \"sun_pointing_consent\",\n"
    ++ codes "            Self::NadirPointingConsent => \"nadir_pointing_consent\",\n"
    ++ codes "            Self::PlatformCommissioned => \"platform_commissioned\",\n"
    ++ codes "            Self::GnssSystemError => \"gnss_system_error\",\n"
    ++ codes "            Self::Gyro0Fail => \"gyro0_fail\",\n"
    ++ codes "            Self::Gyro1Fail => \"gyro1_fail\",\n"
    ++ codes "            Self::Mag0Fail => \"mag0_fail\",\n"
    ++ codes "            Self::Mag1Fail => \"mag1_fail\",\n"
    ++ codes "            Self::ReactionWheelFail => \"reaction_wheel_fail\",\n"
    ++ codes "            Self::SunSensorFail => \"sun_sensor_fail\",\n"
    ++ codes "            Self::EarthSensorFail => \"earth_sensor_fail\",\n"
    ++ codes "            Self::SunPointingAngleFault => \"sun_pointing_angle_fault\",\n"
    ++ codes "            Self::SunPointingRateFault => \"sun_pointing_rate_fault\",\n"
    ++ codes "            Self::NadirPointingAngleFault => \"nadir_pointing_angle_fault\",\n"
    ++ codes "            Self::NadirPointingRateFault => \"nadir_pointing_rate_fault\",\n"
    ++ codes "            Self::AntennaDeployAttempts => \"antenna_deploy_attempts\",\n"
    ++ codes "            Self::SolarPanelDeployAttempts => \"solar_panel_deploy_attempts\",\n"
    ++ codes "            Self::NadirPointAttempts => \"nadir_point_attempts\",\n"
    ++ codes "            Self::SunPointAttempts => \"sun_point_attempts\",\n"
    ++ codes "            Self::CommsUplinkAes128Key => \"comms_uplink_aes128_key\",\n"
    ++ codes "            Self::EmmcRestoreOffset => \"emmc_restore_offset\",\n"
    ++ codes "        }\n"
    ++ codes "    }"

abbrev pub decl_new : Bytes
decl_new =
    codes "pub fn declared_value_type(self) -> ValueType {\n"
    ++ codes "        match self {\n"
    ++ codes "            Self::DeployStart => ValueType::Timestamp,\n"
    ++ codes "            Self::FsooTimer\n"
    ++ codes "            | Self::BootChecksum\n"
    ++ codes "            | Self::TotalBootFails\n"
    ++ codes "            | Self::EmmcRecoveryAttempts\n"
    ++ codes "            | Self::SdRestoreSlot\n"
    ++ codes "            | Self::BootMedia\n"
    ++ codes "            | Self::BootImageId\n"
    ++ codes "            | Self::EmmcRestoreOffset\n"
    ++ codes "            | Self::AntennaDeployAttempts\n"
    ++ codes "            | Self::SolarPanelDeployAttempts\n"
    ++ codes "            | Self::NadirPointAttempts\n"
    ++ codes "            | Self::SunPointAttempts => ValueType::U64,\n"
    ++ codes "            Self::CommsUplinkAes128Key => ValueType::Bytes,\n"
    ++ codes "            _ => ValueType::Bool,\n"
    ++ codes "        }\n"
    ++ codes "    }"
