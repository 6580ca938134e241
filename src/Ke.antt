-- ===== src/Ke.antt =====
-- base/ke/scheduler.c
pub mod Scheduler
pub mod Timers
pub mod Chain
pub mod Remove
pub mod Dequeue
pub mod Popped
pub mod Enqueue
pub mod Processes
pub mod Priority
pub mod Wake
pub mod Stop
pub mod Tick
pub mod Frame
pub mod Fields
pub mod Sleepers
pub mod Resume
pub mod Suspend
pub mod Sleep
pub mod Block
pub mod Waiting
pub mod Running
pub mod Reschedule
pub mod Choice
pub mod Switch
pub mod Invariant
