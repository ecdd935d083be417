-- ===== src/Live/Overrides.antt =====
-- Overrides of the risk limits for a market or a strategy (crates/pmkit-runtime/src/lib.rs).
use pmkit.Decimals.{less→lt, lt→less, le→not_less, Leq, dec_laws, Decimals}
use pmkit.Domain.{Money}
use pmkit.Base.Dict.{get, Dict}
use pmkit.Exec.{PlaceOrder}
use pmkit.Live.Admission.{passes_aggregated_risk, PortfolioRiskExposure, passes_risk, RiskLimits}
use pmkit.Book.{Position}
use pmkit.Base.{
  false, lt→ltb, ltb→lt, ◌&&◌, refl, Bool, text_key, leb, arith, ℕ, Bool-cases, Option, String, inr,
  inl, ◌≤◌, some, none, true, ◌≡◌, List, if◌then◌else◌,
}

module _ ⦃D : Decimals⦄ where
  open D use {Decimal, dec_zero, add, sub, mul, neg, less, at_most}

  pub record PartialRiskLimits : Type 0 where
    pub max_order_notional : Option Money
    pub max_position_notional : Option Money
    pub max_portfolio_notional : Option Money
    pub max_market_notional : Option Money
    pub max_strategy_notional : Option Money
    pub max_open_orders : Option ℕ
    pub max_loss : Option Money
    pub max_daily_loss : Option Money

  -- `Ord::min`, of the present value and of the one that is given, if there is one.
  abbrev pub money_min : Money → Option Money → Money
  money_min limit none = limit
  money_min limit (some value) = if at_most limit value then limit else value

  abbrev pub count_min : ℕ → Option ℕ → ℕ
  count_min limit none = limit
  count_min limit (some value) = if leb limit value then limit else value

  unfoldable pub tighten : PartialRiskLimits → RiskLimits → RiskLimits
  tighten p limits = record {
    max_order_notional = money_min limits.max_order_notional p.max_order_notional;
    max_position_notional = money_min limits.max_position_notional p.max_position_notional;
    max_portfolio_notional = money_min limits.max_portfolio_notional p.max_portfolio_notional;
    max_market_notional = money_min limits.max_market_notional p.max_market_notional;
    max_strategy_notional = money_min limits.max_strategy_notional p.max_strategy_notional;
    max_open_orders = count_min limits.max_open_orders p.max_open_orders;
    max_loss = money_min limits.max_loss p.max_loss;
    max_daily_loss = money_min limits.max_daily_loss p.max_daily_loss;
  }

  pub record RiskLimitOverrides : Type 0 where
    pub per_market : Dict String PartialRiskLimits
    pub per_strategy : Dict String PartialRiskLimits

  abbrev pub tighten_by : Option PartialRiskLimits → RiskLimits → RiskLimits
  tighten_by none limits = limits
  tighten_by (some p) limits = tighten p limits

  unfoldable pub effective_limits : RiskLimitOverrides → RiskLimits → String → String → RiskLimits
  effective_limits overrides global market strategy =
      tighten_by (get strategy overrides.per_strategy)
        (tighten_by (get market overrides.per_market) global)

  -- Limits of which none is larger.
  abbrev pub IsTighter : RiskLimits → RiskLimits → Type 0
  IsTighter a b =
      Leq a.max_order_notional b.max_order_notional
      × Leq a.max_position_notional b.max_position_notional
      × Leq a.max_portfolio_notional b.max_portfolio_notional
      × Leq a.max_market_notional b.max_market_notional
      × Leq a.max_strategy_notional b.max_strategy_notional
      × (a.max_open_orders ≤ b.max_open_orders)
      × Leq a.max_loss b.max_loss
      × Leq a.max_daily_loss b.max_daily_loss

  money_min-le : (a : Money) (v : Option Money) → Leq (money_min a v) a
  money_min-le a none = omega arith
  money_min-le a (some v) = elim (Bool-cases (at_most a v)) [
    | inl e ↦ rw e (omega arith)
    | inr e ↦ rw e (omega (dec_laws, e))
  ]

  count_min-le : (a : ℕ) (v : Option ℕ) → count_min a v ≤ a
  count_min-le a none = omega arith
  count_min-le a (some v) = ground arith

  tighten-IsTighter : (p : PartialRiskLimits) (l : RiskLimits) → IsTighter (tighten p l) l
  unfolding tighten
  tighten-IsTighter p l = (
    money_min-le l.max_order_notional p.max_order_notional,
    money_min-le l.max_position_notional p.max_position_notional,
    money_min-le l.max_portfolio_notional p.max_portfolio_notional,
    money_min-le l.max_market_notional p.max_market_notional,
    money_min-le l.max_strategy_notional p.max_strategy_notional,
    count_min-le l.max_open_orders p.max_open_orders,
    money_min-le l.max_loss p.max_loss,
    money_min-le l.max_daily_loss p.max_daily_loss,
  )

  at_most_trans : (a b c : Decimal) → Leq b c → at_most a b ≡ true → at_most a c ≡ true
  at_most_trans a b c le h = elim (Bool-cases (at_most a c)) [
    | inl e ↦ e
    | inr e ↦ absurd (omega (dec_laws, h, e, le))
  ]

  -- An order that passes tighter limits passes the wider ones.
  passes_risk-IsTighter :
      (order : PlaceOrder) (a b : RiskLimits) (positions : List Position) (pnl : Option Decimal)
      → IsTighter a b
      → passes_risk order a positions pnl ≡ true
      → passes_risk order b positions pnl ≡ true
  unfolding passes_risk
  passes_risk-IsTighter order a b positions none t h = h
  passes_risk-IsTighter order a b positions (some pnl) (o, p, _, _, _, _, l, _) h =
      elim (Bool-cases (at_most pnl (neg a.max_loss))) [
        | inl e ↦ cc (rw e at h)
        | inr e ↦ elim (Bool-cases (less a.max_order_notional notional)) [
          | inl f ↦ cc (rw (e, f) at h)
          | inr f ↦
              rw (loss_kept e, le→not_less b.max_order_notional notional (omega (dec_laws, f, o)))
                (at_most_trans _ a.max_position_notional b.max_position_notional p (rw (e, f) at h))
        ]
      ]
    where
      notional : Decimal
      notional = mul order.qty order.price

      loss_kept : at_most pnl (neg a.max_loss) ≡ false → at_most pnl (neg b.max_loss) ≡ false
      loss_kept e = elim (Bool-cases (at_most pnl (neg b.max_loss))) [
        | inl f ↦ absurd (omega (dec_laws, e, f, l))
        | inr f ↦ f
      ]

  and_both :
      (x y x' y' : Bool)
      → (x ≡ true → x' ≡ true)
      → (y ≡ true → y' ≡ true)
      → (x && y) ≡ true
      → (x' && y') ≡ true
  and_both true y x' y' f g h = rw (f refl) (g h)
  and_both false y x' y' f g h = cc h

  passes_aggregated_risk-IsTighter :
      (order : PlaceOrder) (a b : RiskLimits) (positions : List Position)
      (exposure : PortfolioRiskExposure)
      → IsTighter a b
      → passes_aggregated_risk order a positions exposure ≡ true
      → passes_aggregated_risk order b positions exposure ≡ true
  unfolding passes_aggregated_risk
  passes_aggregated_risk-IsTighter order a b positions exposure t =
      let (_, _, portfolio, market, strategy, count, _, daily) = t in
      let notional = mul order.qty order.price in
      and_both _ _ _ _
        (and_both _ _ _ _
          (and_both _ _ _ _
            (and_both _ _ _ _
              (and_both _ _ _ _
                (passes_risk-IsTighter order a b positions (some exposure.daily_pnl) t)
                (at_most_trans (add exposure.portfolio_notional notional) a.max_portfolio_notional
                  b.max_portfolio_notional portfolio))
              (at_most_trans (add exposure.market_notional notional) a.max_market_notional
                b.max_market_notional market))
            (at_most_trans (add exposure.strategy_notional notional) a.max_strategy_notional
              b.max_strategy_notional strategy))
          (λ e.
            lt→less (neg b.max_daily_loss) exposure.daily_pnl
              (omega (dec_laws, less→lt (neg a.max_daily_loss) exposure.daily_pnl e, daily))))
        (λ e.
          lt→ltb exposure.open_orders b.max_open_orders
            (omega (arith, ltb→lt exposure.open_orders a.max_open_orders e, count)))

  tighten_by-IsTighter :
      (p : Option PartialRiskLimits) (l : RiskLimits) → IsTighter (tighten_by p l) l
  tighten_by-IsTighter none l = omega arith
  tighten_by-IsTighter (some p) l = tighten-IsTighter p l

  -- Overrides only tighten: an order that passes the risk check under the effective limits of a
  -- market and a strategy passes it under the global limits too, and under the limits of the market
  -- alone.
  pub effective_limits-IsTighter :
      (overrides : RiskLimitOverrides) (global : RiskLimits) (market strategy : String)
      (order : PlaceOrder) (positions : List Position) (exposure : PortfolioRiskExposure)
      → passes_aggregated_risk order
          (effective_limits overrides global market strategy)
          positions
          exposure
        ≡ true
      → (passes_aggregated_risk order global positions exposure ≡ true)
        × (passes_aggregated_risk order
              (tighten_by (get market overrides.per_market) global)
              positions
              exposure
            ≡ true)
  unfolding effective_limits
  effective_limits-IsTighter overrides global market strategy order positions exposure h =
      let middle = tighten_by (get market overrides.per_market) global in
      let inner =
        passes_aggregated_risk-IsTighter order _ middle positions exposure
          (tighten_by-IsTighter (get strategy overrides.per_strategy) middle) h in
      (
        passes_aggregated_risk-IsTighter order middle global positions exposure
            (tighten_by-IsTighter (get market overrides.per_market) global) inner,
        inner,
      )
