-- ===== src/Tools/Fixes.antt =====
-- The scripts of tools/ that repair the outcome of an earlier script.
pub mod MramBits
pub mod UbootPatches
pub mod Hunks
pub mod Nvedit
pub mod SizeFirst
