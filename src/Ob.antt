-- ===== src/Ob.antt =====
-- base/ob/ob.c: objects with reference counts, handle tables, and waiting for an object.
pub mod Objects
pub mod Handles
pub mod Access
pub mod Balance
pub mod Lookup
pub mod Signal
pub mod Kill
pub mod Create
