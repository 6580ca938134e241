-- ===== src/Tests.antt =====
-- The theorems at concrete machines.
pub mod Machine
mod Scheduling
mod Strings
mod Messages
mod Keyboard
mod Ticks
mod Processes
mod Debugger
mod Sleepers
mod Readers
mod Services
mod Exceptions
mod Sending
mod Start
mod Programs
