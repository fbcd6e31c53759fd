-- ===== src/Mission.antt =====
-- The mission keys of fram-service, which U-Boot and Linux share.
pub mod Key
pub mod State
pub mod Env
