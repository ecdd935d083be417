-- ===== src/Paper.antt =====
-- The paper-account ledger of crates/pmkit-paper/src/ledger.rs: an append-only list of entries, the
-- state that they stand for, and the reconstruction of the state from the entries.
pub mod Events
pub mod Ledger
pub mod Blind
pub mod Equality
pub mod Reconstruct
pub mod Replay
pub mod Prefix
pub mod History
pub mod Redelivery
pub mod Orders
pub mod Fresh
pub mod Lifecycle
pub mod Placing
pub mod Refusals
pub mod Accepted
pub mod Charges
pub mod Runs
pub mod Committed
pub mod Cash
pub mod Storage
mod Tests
mod Examples
mod Refused
pub mod Soundness
