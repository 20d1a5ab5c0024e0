-- ===== src/Protocol/RoundTrip.antt =====
-- Decoding what was encoded, command by command.
pub mod Rows
pub mod Words
pub mod Tmcc2
pub mod Find
pub mod Engine
pub mod Receive
pub mod Tmcc1
