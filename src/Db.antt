-- ===== src/Db.antt =====
-- The records of engines, trains, switches, accessories and routes (db/).
pub mod Text
pub mod Components
pub mod CompData
pub mod Updates
mod Runs
