-- ===== src/Utils.antt =====
-- Containers that the other parts share (src/pytrain/utils).
pub mod UniqueDeque
pub mod ExpiringSet
mod Runs
