-- ===== src/Tools/Model/Keys.antt =====
-- The texts of tools/patch-fram-v5-model.py for the keys and their enum in src/model.rs.
use radsat_linux.Base.{Bytes, ◌++◌, codes}

abbrev pub mission_keys_new : Bytes
mission_keys_new =
    codes "pub const MISSION_KEYS: [MissionKey; 40] = [\n"
    ++ codes "    // --- Boot policy (U-Boot may overlay; ids 1-6) + checksum trailer (7) ---\n"
    ++ codes "    MissionKey::RemoveBeforeFlight,\n"
    ++ codes "    MissionKey::Deployed,\n"
    ++ codes "    MissionKey::DeployStart,\n"
    ++ codes "    MissionKey::InitialSafeStateComplete,\n"
    ++ codes "    MissionKey::FsooTimer,\n"
    ++ codes "    MissionKey::DetumblingComplete,\n"
    ++ codes "    MissionKey::BootChecksum,\n"
    ++ codes "    // --- Recovery + ground-visible boot state (ids 8-14) ---\n"
    ++ codes "    MissionKey::TotalBootFails,\n"
    ++ codes "    MissionKey::EmmcRecoveryNeeded,\n"
    ++ codes "    MissionKey::EmmcRecoveryAttempts,\n"
    ++ codes "    MissionKey::SdRestoreSlot,\n"
    ++ codes "    MissionKey::LastEmmcProbeOk,\n"
    ++ codes "    MissionKey::BootMedia,\n"
    ++ codes "    MissionKey::BootImageId,\n"
    ++ codes "    // --- One-time deploy / completion ---\n"
    ++ codes "    MissionKey::SolarPanelDeployed,\n"
    ++ codes "    MissionKey::UhfAntennaDeployed,\n"
    ++ codes "    MissionKey::VhfAntennaDeployed,\n"
    ++ codes "    MissionKey::AdcsCommissioningLogged,\n"
    ++ codes "    // --- Ground consent (operator) ---\n"
    ++ codes "    MissionKey::AdcsCommissioned,\n"
    ++ codes "    MissionKey::SunPointingConsent,\n"
    ++ codes "    MissionKey::NadirPointingConsent,\n"
    ++ codes "    MissionKey::PlatformCommissioned,\n"
    ++ codes "    // --- Failure trip flags ---\n"
    ++ codes "    MissionKey::GnssSystemError,\n"
    ++ codes "    MissionKey::Gyro0Fail,\n"
    ++ codes "    MissionKey::Gyro1Fail,\n"
    ++ codes "    MissionKey::Mag0Fail,\n"
    ++ codes "    MissionKey::Mag1Fail,\n"
    ++ codes "    MissionKey::ReactionWheelFail,\n"
    ++ codes "    MissionKey::SunSensorFail,\n"
    ++ codes "    MissionKey::EarthSensorFail,\n"
    ++ codes "    MissionKey::SunPointingAngleFault,\n"
    ++ codes "    MissionKey::SunPointingRateFault,\n"
    ++ codes "    MissionKey::NadirPointingAngleFault,\n"
    ++ codes "    MissionKey::NadirPointingRateFault,\n"
    ++ codes "    // --- Attempt counters ---\n"
    ++ codes "    MissionKey::AntennaDeployAttempts,\n"
    ++ codes "    MissionKey::SolarPanelDeployAttempts,\n"
    ++ codes "    MissionKey::NadirPointAttempts,\n"
    ++ codes "    MissionKey::SunPointAttempts,\n"
    ++ codes "    // --- Crypto (FRAM-only; never mirrored to env) ---\n"
    ++ codes "    MissionKey::CommsUplinkAes128Key,\n"
    ++ codes "    // --- Resumable SD->eMMC restore progress ---\n"
    ++ codes "    MissionKey::EmmcRestoreOffset,\n"
    ++ codes "];"

abbrev pub enum_new : Bytes
enum_new =
    codes "pub enum MissionKey {\n"
    ++ codes "    RemoveBeforeFlight,\n"
    ++ codes "    Deployed,\n"
    ++ codes "    DeployStart,\n"
    ++ codes "    InitialSafeStateComplete,\n"
    ++ codes "    FsooTimer,\n"
    ++ codes "    DetumblingComplete,\n"
    ++ codes "    BootChecksum,\n"
    ++ codes "    TotalBootFails,\n"
    ++ codes "    EmmcRecoveryNeeded,\n"
    ++ codes "    EmmcRecoveryAttempts,\n"
    ++ codes "    SdRestoreSlot,\n"
    ++ codes "    LastEmmcProbeOk,\n"
    ++ codes "    BootMedia,\n"
    ++ codes "    BootImageId,\n"
    ++ codes "    SolarPanelDeployed,\n"
    ++ codes "    UhfAntennaDeployed,\n"
    ++ codes "    VhfAntennaDeployed,\n"
    ++ codes "    AdcsCommissioningLogged,\n"
    ++ codes "    AdcsCommissioned,\n"
    ++ codes "    SunPointingConsent,\n"
    ++ codes "    NadirPointingConsent,\n"
    ++ codes "    PlatformCommissioned,\n"
    ++ codes "    GnssSystemError,\n"
    ++ codes "    Gyro0Fail,\n"
    ++ codes "    Gyro1Fail,\n"
    ++ codes "    Mag0Fail,\n"
    ++ codes "    Mag1Fail,\n"
    ++ codes "    ReactionWheelFail,\n"
    ++ codes "    SunSensorFail,\n"
    ++ codes "    EarthSensorFail,\n"
    ++ codes "    SunPointingAngleFault,\n"
    ++ codes "    SunPointingRateFault,\n"
    ++ codes "    NadirPointingAngleFault,\n"
    ++ codes "    NadirPointingRateFault,\n"
    ++ codes "    AntennaDeployAttempts,\n"
    ++ codes "    SolarPanelDeployAttempts,\n"
    ++ codes "    NadirPointAttempts,\n"
    ++ codes "    SunPointAttempts,\n"
    ++ codes "    CommsUplinkAes128Key,\n"
    ++ codes "    EmmcRestoreOffset,\n"
    ++ codes "}"
