-- ===== src/Protocol/Tmcc2.antt =====
-- The TMCC2 (Legacy) command tables (protocol/tmcc2/tmcc2_constants.py).
pub mod Constants
pub mod Rows
pub mod Engine
pub mod Others
