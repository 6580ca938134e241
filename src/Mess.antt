-- ===== src/Mess.antt =====
-- base/mess/mess.c: message queues, and the queue of processes that wait for a message.
pub mod WaitQueue
pub mod Waiters
pub mod Removal
pub mod Forget
pub mod Again
pub mod Passing
pub mod Woken
pub mod Messages
pub mod Queue
pub mod Order
pub mod Send
pub mod Wakes
