-- ===== src/Live.antt =====
-- Order admission of the live engine: the rate windows and risk checks of
-- crates/pmkit/src/live_risk.rs, the overrides of crates/pmkit-runtime/src/lib.rs and the market
-- limits of crates/pmkit-exec/src/lib.rs.
pub mod Rates
pub mod Requests
pub mod Windows
pub mod Strategies
pub mod Restart
pub mod Admission
pub mod Overrides
pub mod Limits
mod Tests
