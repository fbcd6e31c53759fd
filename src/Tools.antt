-- ===== src/Tools.antt =====
-- The Python scripts' own work on text: needles that must be there, unified diffs, the whitelist.
pub mod Text
pub mod Tree
pub mod Diff
pub mod Dual
pub mod Model
pub mod Whitelist
pub mod Fixes
pub mod Services
pub mod Plan
pub mod Recovery
pub mod Generate
