-- ===== src/Protocol.antt =====
-- The TMCC and Legacy command protocol (protocol/).
pub mod Scope
pub mod Def
pub mod Tmcc1
pub mod Tmcc2
pub mod Digits
pub mod Request
pub mod Decode
pub mod RoundTrip
mod Runs
pub mod Multibyte
pub mod Sequence
