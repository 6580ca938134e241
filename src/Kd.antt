-- ===== src/Kd.antt =====
-- base/kd: the kernel debugger.
pub mod Console
pub mod Commands
pub mod Line
pub mod Keys
pub mod Editing
pub mod Dispatch
pub mod Decimal
