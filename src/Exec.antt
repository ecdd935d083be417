-- ===== src/Exec.antt =====
-- The orders of crates/pmkit-exec/src/lib.rs.
use pmkit.Base.{ℤ, Bool, String}
use pmkit.Decimals.{Decimals}
use pmkit.Domain.{Side, Outcome}

-- When the venue removes an order: never, or at an instant in milliseconds.
pub data TimeInForce : Type 0 where
  gtc : TimeInForce
  gtd : ℤ → TimeInForce

module _ ⦃D : Decimals⦄ where
  open D use {Decimal}

  pub record PlaceOrder : Type 0 where
    pub market : String
    pub outcome : Outcome
    pub side : Side
    pub price : Decimal
    pub qty : Decimal
    pub post_only : Bool
    pub tif : TimeInForce
