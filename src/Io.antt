-- ===== src/Io.antt =====
-- base/io: input and output.
pub mod Fifo
pub mod State
pub mod Files
pub mod Start
pub mod Interrupts
pub mod Transmit
pub mod Output
pub mod Readers
