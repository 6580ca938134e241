-- ===== src/Ke/Sleepers.antt =====
-- base/ke/scheduler.c: KepWakeUpSleepers, where sleepers are due, and the timer interrupt around it.
pub mod Awake
pub mod Rouse
pub mod Settled
pub mod Due
pub mod Ticking
