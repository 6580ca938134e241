-- ===== src/Ps.antt =====
-- base/ps/ps.c: processes by their number.
pub mod Lookup
pub mod Programs
pub mod Process
pub mod Kill
pub mod Info
pub mod Listed
pub mod Numbers
pub mod Reference
pub mod Infos
pub mod Changes
pub mod Args
pub mod Overlap
pub mod Start
