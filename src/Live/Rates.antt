-- ===== src/Live/Rates.antt =====
-- The order rate windows of crates/pmkit/src/live_risk.rs. A window starts with its first order and
-- lasts for the duration, its last millisecond included.
use pmkit.Base.Dict.{get, Dict, insert}
use pmkit.Base.{
  text_key, ltb, leb, ℤ, ◌+ℤ◌, List, String, Option, none, negsuc, some, ℕ, if◌then◌else◌, ◌||◌,
  ◌+◌, true, Bool, not, false, ◌∷◌, pos, ltb_ℤ, leb_ℤ, [],
}

-- `i64::saturating_add` and `u32::saturating_add(1)`
abbrev pub i64_max : ℕ
i64_max = 9223372036854775807

abbrev pub u32_max : ℕ
u32_max = 4294967295

unfoldable pub saturate_i64 : ℤ → ℤ
saturate_i64 (pos n) = if leb n i64_max then pos n else pos i64_max
saturate_i64 (negsuc n) = if leb n i64_max then negsuc n else negsuc i64_max

unfoldable pub saturating_add : ℤ → ℤ → ℤ
unfolding saturate_i64
saturating_add a b = saturate_i64 (a +ℤ b)

unfoldable pub saturating_suc : ℕ → ℕ
saturating_suc n = if leb u32_max n then u32_max else n + 1

pub record OrderRateLimits : Type 0 where
  pub max_per_strategy : ℕ
  pub max_per_portfolio : ℕ
  pub window_duration_ms : ℤ

-- `OrderRateLimits::default`
unfoldable pub default_limits : OrderRateLimits
default_limits = record {
  max_per_strategy = 100;
  max_per_portfolio = 1000;
  window_duration_ms = pos 60000;
}

pub record FixedOrderWindow : Type 0 where
  pub started_at_ms : ℤ
  pub accepted : ℕ

-- Whether an instant is after the window.
abbrev pub is_over : FixedOrderWindow → ℤ → ℤ → Bool
is_over window timestamp_ms duration_ms =
    ltb_ℤ (saturating_add window.started_at_ms duration_ms) timestamp_ms

unfoldable pub has_capacity : FixedOrderWindow → ℤ → ℤ → ℕ → Bool
has_capacity window timestamp_ms duration_ms maximum =
    is_over window timestamp_ms duration_ms || ltb window.accepted maximum

abbrev pub first_of : ℤ → FixedOrderWindow
first_of timestamp_ms = record { started_at_ms = timestamp_ms; accepted = 1 }

-- `FixedOrderWindow::record`
unfoldable pub record_order : FixedOrderWindow → ℤ → ℤ → FixedOrderWindow
record_order window timestamp_ms duration_ms =
    if is_over window timestamp_ms duration_ms
    then first_of timestamp_ms
    else record window { accepted = saturating_suc window.accepted }

pub record OrderRateState : Type 0 where
  pub portfolio : Option FixedOrderWindow
  pub per_strategy : Dict String FixedOrderWindow

abbrev pub default_state : OrderRateState
default_state = record { portfolio = none; per_strategy = [] }

abbrev pub is_none_or : Option FixedOrderWindow → (FixedOrderWindow → Bool) → Bool
is_none_or none p = true
is_none_or (some window) p = p window

-- The window after one more order, when there is one already and when there is none.
unfoldable pub next_window : Option FixedOrderWindow → ℤ → ℤ → FixedOrderWindow
next_window none timestamp_ms duration_ms = first_of timestamp_ms
next_window (some window) timestamp_ms duration_ms = record_order window timestamp_ms duration_ms

unfoldable pub record_portfolio : ℤ → ℤ → OrderRateState → OrderRateState
record_portfolio timestamp_ms duration_ms s = record s {
  portfolio = some (next_window s.portfolio timestamp_ms duration_ms);
}

unfoldable pub record_strategy : String → ℤ → ℤ → OrderRateState → OrderRateState
record_strategy strategy timestamp_ms duration_ms s = record s {
  per_strategy =
      insert strategy (next_window (get strategy s.per_strategy) timestamp_ms duration_ms)
        s.per_strategy;
}

unfoldable pub try_accept : String → ℤ → OrderRateLimits → OrderRateState → Bool × OrderRateState
try_accept strategy timestamp_ms limits s =
    let duration_ms = limits.window_duration_ms in
    let portfolio_has_capacity =
      is_none_or s.portfolio
        (λ window. has_capacity window timestamp_ms duration_ms limits.max_per_portfolio) in
    let strategy_has_capacity =
      is_none_or (get strategy s.per_strategy)
        (λ window. has_capacity window timestamp_ms duration_ms limits.max_per_strategy) in
    if not portfolio_has_capacity || not strategy_has_capacity then (false, s) else (
      true,
      record_strategy strategy timestamp_ms duration_ms
          (record_portfolio timestamp_ms duration_ms s),
    )

-- `sort_by_key` on the time, which is stable.
unfoldable pub insert_by_time :
    Option String × ℤ → List (Option String × ℤ) → List (Option String × ℤ)
insert_by_time order [] = order ∷ []
insert_by_time order (other ∷ orders) =
    let rest = insert_by_time order orders in
    if leb_ℤ order.1 other.1 then order ∷ other ∷ orders else other ∷ rest

unfoldable pub sort_by_time : List (Option String × ℤ) → List (Option String × ℤ)
sort_by_time [] = []
sort_by_time (order ∷ orders) = insert_by_time order (sort_by_time orders)

abbrev pub record_named : Option String → ℤ → ℤ → OrderRateState → OrderRateState
record_named none timestamp_ms duration_ms s = s
record_named (some strategy) timestamp_ms duration_ms s =
    record_strategy strategy timestamp_ms duration_ms s

unfoldable pub record_all : ℤ → List (Option String × ℤ) → OrderRateState → OrderRateState
record_all duration_ms [] s = s
record_all duration_ms ((strategy, timestamp_ms) ∷ orders) s =
    record_all duration_ms orders
      (record_named strategy timestamp_ms duration_ms (record_portfolio timestamp_ms duration_ms s))

unfoldable pub restore :
    OrderRateLimits → List (Option String × ℤ) → OrderRateState → OrderRateState
restore limits accepted s = record_all limits.window_duration_ms (sort_by_time accepted) s
