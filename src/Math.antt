-- ===== src/Math.antt =====
-- Fees and fills (crates/pmkit-math/src).
pub mod Fees
pub mod Fill
pub mod Walk
pub mod Bounds
mod Tests
