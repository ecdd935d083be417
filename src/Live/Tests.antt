-- ===== src/Live/Tests.antt =====
-- Runs of the order rate windows and the checks, and their theorems at concrete inputs.
use pmkit.Decimals.{Leq, Less}
use pmkit.Exec.{gtc, PlaceOrder}
use pmkit.Live.Limits.{check_lem}
use pmkit.Domain.{buy, up}
use pmkit.Live.Overrides.{
  effective_limits-IsTighter, RiskLimitOverrides, PartialRiskLimits, tighten, effective_limits,
  tighten_by,
}
use pmkit.Base.Replies.{ok, panic}
use pmkit.Live.Admission.{
  passes_risk, RiskLimits, MarketLimits, found_qty, PortfolioRiskExposure, passes_aggregated_risk,
  check,
}
use pmkit.Decimals.Millionths.{millionths, whole_of, cents, left}
use pmkit.Live.Strategies.{orders_of, admit_within_strategy}
use pmkit.Live.Restart.{restore-admit}
use pmkit.Base.Dict.{get, insert}
use pmkit.Live.Windows.{counted, admit_within}
use pmkit.Live.Requests.{admit}
use pmkit.Base.{
  ◌↔◌, true, ◌-ℤ◌, ◌≢◌, none, ◌*ℤ◌, text_key, ℤ, refl, pos, [], ◌≤◌, List, ◌+◌, arith, length, ◌+ℤ◌,
  String, ◌≡◌, some, ◌∷◌,
}
use pmkit.Live.Rates.{
  saturating_suc, saturating_add, default_state, restore, record_strategy, has_capacity, first_of,
  next_window, OrderRateLimits, OrderRateState, record_portfolio, saturate_i64, record_order,
  try_accept,
}

abbrev tight : OrderRateLimits
tight = record { max_per_strategy = 1; max_per_portfolio = 2; window_duration_ms = pos 10 }

abbrev requests : List (String × ℤ)
requests = ("a", pos 1) ∷ ("a", pos 2) ∷ ("b", pos 3) ∷ ("c", pos 4) ∷ []

-- The second order of `a` is one too many for the strategy, that of `c` for the portfolio.
admitted : (admit tight requests default_state).0 ≡ (some "a", pos 1) ∷ (some "b", pos 3) ∷ []
unfolding admit try_accept record_strategy record_portfolio next_window record_order has_capacity
    get insert saturating_add saturate_i64 ◌+ℤ◌ saturating_suc
admitted = refl

restore-admit_example :
    let (orders, final) = admit tight requests default_state in
    restore tight orders default_state ≡ final
restore-admit_example = restore-admit tight requests default_state (omega arith, omega arith)

abbrev opened_state : OrderRateState
opened_state = record {
  portfolio = some (first_of (pos 1));
  per_strategy = ("a", first_of (pos 1)) ∷ [];
}

admit_within_example :
    let (orders, final) = admit tight requests opened_state in
    (1 + length orders ≤ 2) × (final.portfolio ≡ some (counted (length orders) (first_of (pos 1))))
unfolding saturating_add ◌+ℤ◌
admit_within_example =
    admit_within tight requests opened_state (first_of (pos 1)) refl (omega arith) (omega arith)
      (omega arith, omega arith)

admit_within_strategy_example :
    let (orders, final) = admit tight requests opened_state in
    (1 + length (orders_of "a" orders) ≤ 1)
    × (get "a" final.per_strategy
        ≡ some (counted (length (orders_of "a" orders)) (first_of (pos 1))))
unfolding get saturating_add ◌+ℤ◌
admit_within_strategy_example =
    admit_within_strategy tight "a" requests opened_state (first_of (pos 1)) refl (omega arith)
      (omega arith) (omega arith, omega arith)

abbrev loose : RiskLimits
loose = record {
  max_order_notional = whole_of 100;
  max_position_notional = whole_of 100;
  max_portfolio_notional = whole_of 500;
  max_market_notional = whole_of 200;
  max_strategy_notional = whole_of 200;
  max_open_orders = 10;
  max_loss = pos 50;
  max_daily_loss = whole_of 50;
}

abbrev small_orders : PartialRiskLimits
small_orders = record {
  max_order_notional = some (whole_of 40);
  max_position_notional = none;
  max_portfolio_notional = none;
  max_market_notional = none;
  max_strategy_notional = none;
  max_open_orders = some 3;
  max_loss = none;
  max_daily_loss = none;
}

abbrev for_market : RiskLimitOverrides
for_market = record { per_market = ("btc-5m", small_orders) ∷ []; per_strategy = [] }

abbrev forty : PlaceOrder
forty = record {
  market = "btc-5m";
  outcome = up;
  side = buy;
  price = cents 50;
  qty = whole_of 80;
  post_only = true;
  tif = gtc;
}

abbrev quiet : PortfolioRiskExposure
quiet = record {
  portfolio_notional = whole_of 0;
  market_notional = whole_of 0;
  strategy_notional = whole_of 0;
  daily_pnl = whole_of 0;
  open_orders = 2;
}

passes_effective :
    passes_aggregated_risk forty (effective_limits for_market loose "btc-5m" "maker") [] quiet
    ≡ true
unfolding passes_aggregated_risk passes_risk effective_limits tighten get found_qty ◌+ℤ◌ ◌-ℤ◌ ◌*ℤ◌
passes_effective = refl

effective_limits-IsTighter_example :
    (passes_aggregated_risk forty loose [] quiet ≡ true)
    × (passes_aggregated_risk forty (tighten_by (get "btc-5m" for_market.per_market) loose) [] quiet
        ≡ true)
effective_limits-IsTighter_example =
    effective_limits-IsTighter for_market loose "btc-5m" "maker" forty [] quiet passes_effective

abbrev fine : MarketLimits
fine = record { min_order_size = whole_of 5; tick_size = cents 1 }

check_lem_example :
    ((check fine forty ≡ ok tt) ↔ (
      Leq (whole_of 5) (whole_of 80)
      × Leq (cents 1) (cents 50)
      × Leq (cents 50) (whole_of 1 -ℤ cents 1)
      × (left (cents 50) (cents 1) ≡ pos 0)))
    × (check fine forty ≡ ok tt → Less (pos 0) (cents 50) × Less (cents 50) (whole_of 1))
    × (check fine forty ≢ panic)
check_lem_example = check_lem fine forty (omega arith)

-- That order is accepted, and so is one at the highest price.
accepted : (check fine forty ≡ ok tt) × (check fine (record forty { price = cents 99 }) ≡ ok tt)
unfolding check ◌-ℤ◌
accepted = (refl, refl)
