-- ===== src/Mram.antt =====
-- The SPI MRAM: U-Boot's driver for the environment, and the Linux service on the rest of the chip.
pub mod Driver
pub mod Region
pub mod Window
pub mod Fs
pub mod Subsystem
pub mod Schema
pub mod Sync
pub mod Startup
pub mod Mirror
