-- ===== src/Protocol/Tmcc1.antt =====
-- The TMCC1 command tables (protocol/tmcc1/tmcc1_constants.py).
pub mod Constants
pub mod Rows
pub mod Engine
pub mod Others
