-- ===== src/Atc.antt =====
-- Automatic train control (atc/).
pub mod Block
pub mod Signals
pub mod Setup
