-- ===== src/Risk.antt =====
-- The durable risk history of the live engine (crates/pmkit/src/live_risk.rs).
pub mod State
pub mod Updates
pub mod Pnl
pub mod Repeats
pub mod History
pub mod Durable
pub mod Tests
