-- ===== src/Live/Admission.antt =====
-- The risk checks before an order (crates/pmkit/src/live_risk.rs) and the limits of the market
-- (crates/pmkit-exec/src/lib.rs).
use pmkit.Decimals.{Decimals, is_zero}
use pmkit.Base.Replies.{err, panic, ok, Reply}
use pmkit.Domain.{outcome_key, buy, Money, sell, Side, Outcome}
use pmkit.Exec.{PlaceOrder}
use pmkit.Base.{
  ltb, ℕ, Bool, some, Option, ◌&&◌, if◌then◌else◌, none, false, [], ◌||◌, ◌∷◌, List, ◌==◌,
}
use pmkit.Book.{Position}

module _ ⦃D : Decimals⦄ where
  open D use {Decimal, dec_zero, dec_one, add, sub, mul, rem, neg, abs, less, at_most}

  -- `RiskLimits` of crates/pmkit-runtime/src/lib.rs
  pub record RiskLimits : Type 0 where
    pub max_order_notional : Money
    pub max_position_notional : Money
    pub max_portfolio_notional : Money
    pub max_market_notional : Money
    pub max_strategy_notional : Money
    pub max_open_orders : ℕ
    pub max_loss : Money
    pub max_daily_loss : Money

  pub record PortfolioRiskExposure : Type 0 where
    pub portfolio_notional : Decimal
    pub market_notional : Decimal
    pub strategy_notional : Decimal
    pub daily_pnl : Decimal
    pub open_orders : ℕ

  -- The quantity that `find` gives, zero without a position.
  unfoldable pub found_qty : Outcome → List Position → Decimal
  found_qty outcome [] = dec_zero
  found_qty outcome (p ∷ positions) =
      if p.outcome == outcome then p.qty else found_qty outcome positions

  abbrev pub signed_qty : Side → Decimal → Decimal
  signed_qty buy qty = qty
  signed_qty sell qty = neg qty

  unfoldable pub passes_risk : PlaceOrder → RiskLimits → List Position → Option Decimal → Bool
  passes_risk order limits positions none = false
  passes_risk order limits positions (some portfolio_unrealized_pnl) =
      if at_most portfolio_unrealized_pnl (neg limits.max_loss)
        || less limits.max_order_notional (mul order.qty order.price)
      then false
      else at_most
          (mul (abs (add (found_qty order.outcome positions) (signed_qty order.side order.qty)))
            order.price)
          limits.max_position_notional

  unfoldable pub passes_aggregated_risk :
      PlaceOrder → RiskLimits → List Position → PortfolioRiskExposure → Bool
  passes_aggregated_risk order limits positions exposure =
      let order_notional = mul order.qty order.price in
      passes_risk order limits positions (some exposure.daily_pnl)
      && at_most (add exposure.portfolio_notional order_notional) limits.max_portfolio_notional
      && at_most (add exposure.market_notional order_notional) limits.max_market_notional
      && at_most (add exposure.strategy_notional order_notional) limits.max_strategy_notional
      && less (neg limits.max_daily_loss) exposure.daily_pnl
      && ltb exposure.open_orders limits.max_open_orders

  pub record MarketLimits : Type 0 where
    pub min_order_size : Decimal
    pub tick_size : Decimal

  pub data LimitViolation : Type 0 where
    below_min_order_size : Decimal → Decimal → LimitViolation
    off_tick_grid : Decimal → Decimal → LimitViolation

  -- `!(order.price % self.tick_size).is_zero()`, which panics for a tick of zero.
  abbrev check_grid : MarketLimits → PlaceOrder → Reply LimitViolation (Unit {0})
  check_grid limits order =
      if is_zero limits.tick_size
      then panic
      else if is_zero (rem order.price limits.tick_size)
      then ok tt
      else err (off_tick_grid order.price limits.tick_size)

  unfoldable pub check : MarketLimits → PlaceOrder → Reply LimitViolation (Unit {0})
  check limits order =
      if less order.qty limits.min_order_size
      then err (below_min_order_size order.qty limits.min_order_size)
      else if less order.price limits.tick_size || less (sub dec_one limits.tick_size) order.price
      then err (off_tick_grid order.price limits.tick_size)
      else check_grid limits order
