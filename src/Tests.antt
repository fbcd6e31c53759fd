-- ===== src/Tests.antt =====
-- Runs at concrete inputs.
mod Fram
mod Mission
mod Mram
mod Tools
mod Scripts
mod Subsystem
mod Header
mod Services
mod Plan
