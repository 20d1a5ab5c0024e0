-- ===== src/Protocol/Sequence.antt =====
-- Command sequences (protocol/sequence/).
pub mod Request
pub mod RampedSpeed
