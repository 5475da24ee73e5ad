-- ===== src/Paging.antt =====
-- A3: the paging simulator.
pub mod Machine
pub mod Swapping
pub mod Policies
pub mod Table
pub mod Sim
pub mod Words
pub mod Invariant
pub mod Keep
pub mod Place
pub mod Slotting
pub mod Expel
pub mod Victim
pub mod Steady
pub mod Evict
pub mod Optimal
pub mod Clock
pub mod Policy
pub mod Allocate
pub mod Load
pub mod Find
pub mod Reference
pub mod Replay
pub mod Start
pub mod Whole
mod Samples
mod Tests
