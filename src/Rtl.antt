-- ===== src/Rtl.antt =====
-- base/rtl: memory and string routines, on a memory of bytes.
pub mod Memory
pub mod Strings
pub mod Format
pub mod Text
pub mod Compare
pub mod Copy
