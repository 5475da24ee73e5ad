-- ===== src/Traffic.antt =====
-- A2: the intersection with four lanes.
pub mod Path
pub mod Order
pub mod Locks
pub mod Lane
pub mod Ring
pub mod Crossing
pub mod Fifo
pub mod Turns
pub mod Schedule
mod Tests
