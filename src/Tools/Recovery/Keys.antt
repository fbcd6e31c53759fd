-- ===== src/Tools/Recovery/Keys.antt =====
-- The texts of tools/apply-fram-layout-v4.py for the keys, their enum and their ids in src/model.rs.
use radsat_linux.Base.{Bytes, ◌++◌, codes}

abbrev pub keys_array : Bytes
keys_array =
    codes "pub const MISSION_KEYS: [MissionKey; 39] = [\n"
    ++ codes "    // --- Boot policy (U-Boot may overlay; ids 1-6) + checksum trailer (7) ---\n"
    ++ codes "    MissionKey::RemoveBeforeFlight,\n"
    ++ codes "    MissionKey::Deployed,\n"
    ++ codes "    MissionKey::DeployStart,\n"
    ++ codes "    MissionKey::InitialSafeStateComplete,\n"
    ++ codes "    MissionKey::FsooTimer,\n"
    ++ codes "    MissionKey::DetumblingComplete,\n"
    ++ codes "    MissionKey::BootChecksum,\n"
    ++ codes "    // --- Recovery + ground-visible boot state (U-Boot R/W; not env overlay) ---\n"
    ++ codes "    MissionKey::TotalBootFails,\n"
    ++ codes "    MissionKey::EmmcRecoveryNeeded,\n"
    ++ codes "    MissionKey::EmmcRecoveryAttempts,\n"
    ++ codes "    MissionKey::SdRestoreSlot,\n"
    ++ codes "    MissionKey::LastEmmcProbeOk,\n"
    ++ codes "    MissionKey::BootMedia,\n"
    ++ codes "    MissionKey::BootImageId,\n"
    ++ codes "    // --- One-time deploy / completion ---\n"
    ++ codes "    MissionKey::SolarPanelDeployed,\n"
    ++ codes "    MissionKey::UhfAntennaDeployed,\n"
    ++ codes "    MissionKey::VhfAntennaDeployed,\n"
    ++ codes "    MissionKey::AdcsCommissioningLogged,\n"
    ++ codes "    // --- Ground consent (operator) ---\n"
    ++ codes "    MissionKey::AdcsCommissioned,\n"
    ++ codes "    MissionKey::SunPointingConsent,\n"
    ++ codes "    MissionKey::NadirPointingConsent,\n"
    ++ codes "    MissionKey::PlatformCommissioned,\n"
    ++ codes "    // --- Failure trip flags ---\n"
    ++ codes "    MissionKey::GnssSystemError,\n"
    ++ codes "    MissionKey::Gyro0Fail,\n"
    ++ codes "    MissionKey::Gyro1Fail,\n"
    ++ codes "    MissionKey::Mag0Fail,\n"
    ++ codes "    MissionKey::Mag1Fail,\n"
    ++ codes "    MissionKey::ReactionWheelFail,\n"
    ++ codes "    MissionKey::SunSensorFail,\n"
    ++ codes "    MissionKey::EarthSensorFail,\n"
    ++ codes "    MissionKey::SunPointingAngleFault,\n"
    ++ codes "    MissionKey::SunPointingRateFault,\n"
    ++ codes "    MissionKey::NadirPointingAngleFault,\n"
    ++ codes "    MissionKey::NadirPointingRateFault,\n"
    ++ codes "    // --- Attempt counters ---\n"
    ++ codes "    MissionKey::AntennaDeployAttempts,\n"
    ++ codes "    MissionKey::SolarPanelDeployAttempts,\n"
    ++ codes "    MissionKey::NadirPointAttempts,\n"
    ++ codes "    MissionKey::SunPointAttempts,\n"
    ++ codes "    // --- Crypto (FRAM-only; never mirrored to env) ---\n"
    ++ codes "    MissionKey::CommsUplinkAes128Key,\n"
    ++ codes "];"

abbrev pub enum_v3 : Bytes
enum_v3 =
    codes "pub enum MissionKey {\n"
    ++ codes "    RemoveBeforeFlight,\n"
    ++ codes "    Deployed,\n"
    ++ codes "    DeployStart,\n"
    ++ codes "    InitialSafeStateComplete,\n"
    ++ codes "    FsooTimer,\n"
    ++ codes "    DetumblingComplete,\n"
    ++ codes "    BootChecksum,\n"
    ++ codes "    SolarPanelDeployed,"

abbrev pub enum_v4 : Bytes
enum_v4 =
    codes "pub enum MissionKey {\n"
    ++ codes "    RemoveBeforeFlight,\n"
    ++ codes "    Deployed,\n"
    ++ codes "    DeployStart,\n"
    ++ codes "    InitialSafeStateComplete,\n"
    ++ codes "    FsooTimer,\n"
    ++ codes "    DetumblingComplete,\n"
    ++ codes "    BootChecksum,\n"
    ++ codes "    TotalBootFails,\n"
    ++ codes "    EmmcRecoveryNeeded,\n"
    ++ codes "    EmmcRecoveryAttempts,\n"
    ++ codes "    SdRestoreSlot,\n"
    ++ codes "    LastEmmcProbeOk,\n"
    ++ codes "    BootMedia,\n"
    ++ codes "    BootImageId,\n"
    ++ codes "    SolarPanelDeployed,"

abbrev pub ids_v3 : Bytes
ids_v3 =
    codes "    pub fn id(self) -> u8 {\n"
    ++ codes "        match self {\n"
    ++ codes "            Self::RemoveBeforeFlight => 1,\n"
    ++ codes "            Self::Deployed => 2,\n"
    ++ codes "            Self::DeployStart => 3,\n"
    ++ codes "            Self::InitialSafeStateComplete => 4,\n"
    ++ codes "            Self::FsooTimer => 5,\n"
    ++ codes "            Self::DetumblingComplete => 6,\n"
    ++ codes "            Self::BootChecksum => 7,\n"
    ++ codes "            Self::SolarPanelDeployed => 8,\n"
    ++ codes "            Self::UhfAntennaDeployed => 9,\n"
    ++ codes "            Self::VhfAntennaDeployed => 10,\n"
    ++ codes "            Self::AdcsCommissioningLogged => 11,\n"
    ++ codes "            Self::AdcsCommissioned => 12,\n"
    ++ codes "            Self::SunPointingConsent => 13,\n"
    ++ codes "            Self::NadirPointingConsent => 14,\n"
    ++ codes "            Self::PlatformCommissioned => 15,\n"
    ++ codes "            Self::GnssSystemError => 16,\n"
    ++ codes "            Self::Gyro0Fail => 17,\n"
    ++ codes "            Self::Gyro1Fail => 18,\n"
    ++ codes "            Self::Mag0Fail => 19,\n"
    ++ codes "            Self::Mag1Fail => 20,\n"
    ++ codes "            Self::ReactionWheelFail => 21,\n"
    ++ codes "            Self::SunSensorFail => 22,\n"
    ++ codes "            Self::EarthSensorFail => 23,\n"
    ++ codes "            Self::SunPointingAngleFault => 24,\n"
    ++ codes "            Self::SunPointingRateFault => 25,\n"
    ++ codes "            Self::NadirPointingAngleFault => 26,\n"
    ++ codes "            Self::NadirPointingRateFault => 27,\n"
    ++ codes "            Self::AntennaDeployAttempts => 28,\n"
    ++ codes "            Self::SolarPanelDeployAttempts => 29,\n"
    ++ codes "            Self::NadirPointAttempts => 30,\n"
    ++ codes "            Self::SunPointAttempts => 31,\n"
    ++ codes "            Self::CommsUplinkAes128Key => 32,\n"
    ++ codes "        }\n"
    ++ codes "    }"

abbrev pub ids_v4 : Bytes
ids_v4 =
    codes "    pub fn id(self) -> u8 {\n"
    ++ codes "        match self {\n"
    ++ codes "            Self::RemoveBeforeFlight => 1,\n"
    ++ codes "            Self::Deployed => 2,\n"
    ++ codes "            Self::DeployStart => 3,\n"
    ++ codes "            Self::InitialSafeStateComplete => 4,\n"
    ++ codes "            Self::FsooTimer => 5,\n"
    ++ codes "            Self::DetumblingComplete => 6,\n"
    ++ codes "            Self::BootChecksum => 7,\n"
    ++ codes "            Self::TotalBootFails => 8,\n"
    ++ codes "            Self::EmmcRecoveryNeeded => 9,\n"
    ++ codes "            Self::EmmcRecoveryAttempts => 10,\n"
    ++ codes "            Self::SdRestoreSlot => 11,\n"
    ++ codes "            Self::LastEmmcProbeOk => 12,\n"
    ++ codes "            Self::BootMedia => 13,\n"
    ++ codes "            Self::BootImageId => 14,\n"
    ++ codes "            Self::SolarPanelDeployed => 15,\n"
    ++ codes "            Self::UhfAntennaDeployed => 16,\n"
    ++ codes "            Self::VhfAntennaDeployed => 17,\n"
    ++ codes "            Self::AdcsCommissioningLogged => 18,\n"
    ++ codes "            Self::AdcsCommissioned => 19,\n"
    ++ codes "            Self::SunPointingConsent => 20,\n"
    ++ codes "            Self::NadirPointingConsent => 21,\n"
    ++ codes "            Self::PlatformCommissioned => 22,\n"
    ++ codes "            Self::GnssSystemError => 23,\n"
    ++ codes "            Self::Gyro0Fail => 24,\n"
    ++ codes "            Self::Gyro1Fail => 25,\n"
    ++ codes "            Self::Mag0Fail => 26,\n"
    ++ codes "            Self::Mag1Fail => 27,\n"
    ++ codes "            Self::ReactionWheelFail => 28,\n"
    ++ codes "            Self::SunSensorFail => 29,\n"
    ++ codes "            Self::EarthSensorFail => 30,\n"
    ++ codes "            Self::SunPointingAngleFault => 31,\n"
    ++ codes "            Self::SunPointingRateFault => 32,\n"
    ++ codes "            Self::NadirPointingAngleFault => 33,\n"
    ++ codes "            Self::NadirPointingRateFault => 34,\n"
    ++ codes "            Self::AntennaDeployAttempts => 35,\n"
    ++ codes "            Self::SolarPanelDeployAttempts => 36,\n"
    ++ codes "            Self::NadirPointAttempts => 37,\n"
    ++ codes "            Self::SunPointAttempts => 38,\n"
    ++ codes "            Self::CommsUplinkAes128Key => 39,\n"
    ++ codes "        }\n"
    ++ codes "    }"
