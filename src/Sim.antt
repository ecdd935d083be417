-- ===== src/Sim.antt =====
-- The fill simulator of crates/pmkit-sim/src/lib.rs: the books, the orders that rest or wait for
-- their activation, and the fills that were not collected yet.
pub mod Events
pub mod Engine
pub mod Updates
pub mod Fills
pub mod Makers
pub mod Loops
pub mod Activation
pub mod Expiry
pub mod Takers
pub mod Clamped
pub mod WellFormed
pub mod Runs
mod Tests
