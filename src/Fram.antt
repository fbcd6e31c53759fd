-- ===== src/Fram.antt =====
-- The FRAM side of the flight software.
pub mod Crc
pub mod Record
pub mod Overlay
pub mod Header
pub mod Helpers
