-- ===== src/Pdi.antt =====
-- The PDI protocol of the Base 3 (src/pytrain/pdi).
pub mod Frame
pub mod Listener
pub mod Lcs
pub mod Asc2
pub mod Bpc2
mod Runs
