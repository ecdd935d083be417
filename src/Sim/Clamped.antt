-- ===== src/Sim/Clamped.antt =====
-- What the simulator (crates/pmkit-sim/src/lib.rs) does with a post-only order whose price
-- `clamp_post_only` (crates/pmkit-book/src/risk.rs) gave.
use pmkit.Decimals.{Decimals}
