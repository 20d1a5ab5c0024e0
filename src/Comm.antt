-- ===== src/Comm.antt =====
-- What comes in over the serial port (src/pytrain/comm).
pub mod Dispatcher
pub mod Delay
pub mod Listener
mod Runs
