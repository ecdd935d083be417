-- ===== src/Event.antt =====
-- The market events of crates/pmkit-event/src/lib.rs.
use pmkit.Base.{ℤ, String, Option, List}
use pmkit.Decimals.{Decimals}
use pmkit.Domain.{Side, Outcome}
pub mod Account

pub data Liquidity : Type 0 where
  maker taker : Liquidity

module _ ⦃D : Decimals⦄ where
  open D use {Decimal}

  pub data MarketEvent : Type 0 where
    -- the market, its outcome, the bids, the asks and the time
    book_update :
        String → Outcome → List (Decimal × Decimal) → List (Decimal × Decimal) → ℤ → MarketEvent
    -- the market, its outcome, the bid, the ask and the time
    best_bid_ask : String → Outcome → Decimal → Decimal → ℤ → MarketEvent
    -- the market, its outcome, the price, the aggressor's side, the size and the time
    last_trade : String → Outcome → Decimal → Side → Decimal → ℤ → MarketEvent
    -- the strategy, the order, the market, its outcome, price, size, side, fee, liquidity and time
    fill :
        Option String
        → String
        → String
        → Outcome
        → Decimal
        → Decimal
        → Side
        → Decimal
        → Liquidity
        → ℤ
        → MarketEvent
    -- the strategy, the order and the time
    order_ack : Option String → String → ℤ → MarketEvent
    tick : ℤ → MarketEvent

  unfoldable pub timestamp_of : MarketEvent → ℤ
  timestamp_of (book_update _ _ _ _ t) = t
  timestamp_of (best_bid_ask _ _ _ _ t) = t
  timestamp_of (last_trade _ _ _ _ _ t) = t
  timestamp_of (fill _ _ _ _ _ _ _ _ _ t) = t
  timestamp_of (order_ack _ _ t) = t
  timestamp_of (tick t) = t
