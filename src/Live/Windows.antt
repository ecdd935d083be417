-- ===== src/Live/Windows.antt =====
-- Requests inside the window of the portfolio (crates/pmkit/src/live_risk.rs).
use pmkit.Base.Dict.{get}
use pmkit.Live.Requests.{admit}
use pmkit.Base.{
  text_key, Bool, Bool-cases, ap, ◌∙◌, length, inr, ltb→lt, inl, ltb, ℤ, ◌⊎◌, ◌≡◌, false, ◌+◌, true,
  List, ℕ, [], ◌<◌, refl, some, ◌≤◌, String, ◌∷◌, ◌≤ℤ◌, arith,
}
use pmkit.Live.Rates.{
  is_none_or, has_capacity, is_over, record_portfolio, FixedOrderWindow, saturating_suc,
  OrderRateLimits, next_window, u32_max, record_strategy, record_order, OrderRateState, try_accept,
  saturating_add,
}

-- The requests whose time is not after `last`.
abbrev pub AreUntil : ℤ → List (String × ℤ) → Type 0
AreUntil last [] = Unit
AreUntil last ((_, timestamp_ms) ∷ requests) = (timestamp_ms ≤ℤ last) × AreUntil last requests

abbrev pub end_of : OrderRateLimits → FixedOrderWindow → ℤ
end_of limits window = saturating_add window.started_at_ms limits.window_duration_ms

abbrev pub counted : ℕ → FixedOrderWindow → FixedOrderWindow
counted n window = record window { accepted = window.accepted + n }

pub not_over :
    (limits : OrderRateLimits) (window : FixedOrderWindow) (t : ℤ)
    → t ≤ℤ end_of limits window
    → is_over window t limits.window_duration_ms ≡ false
not_over limits window t h = ground (arith, h)

pub record_order_lem :
    (limits : OrderRateLimits) (window : FixedOrderWindow) (t : ℤ) (maximum : ℕ)
    → t ≤ℤ end_of limits window
    → window.accepted < maximum
    → maximum ≤ u32_max
    → record_order window t limits.window_duration_ms ≡ counted 1 window
unfolding record_order saturating_suc
record_order_lem limits window t maximum h room fits =
    rw (not_over limits window t h) (ground arith)

pub has_capacity_lem :
    (limits : OrderRateLimits) (window : FixedOrderWindow) (t : ℤ) (maximum : ℕ)
    → t ≤ℤ end_of limits window
    → has_capacity window t limits.window_duration_ms maximum ≡ ltb window.accepted maximum
unfolding has_capacity
has_capacity_lem limits window t maximum h = rw (not_over limits window t h) refl

-- One request inside the window of the portfolio.
step_portfolio :
    (limits : OrderRateLimits) (strategy : String) (t : ℤ) (s : OrderRateState)
    (window : FixedOrderWindow)
    → s.portfolio ≡ some window
    → limits.max_per_portfolio ≤ u32_max
    → window.accepted ≤ limits.max_per_portfolio
    → t ≤ℤ end_of limits window
    → let (b, s') = try_accept strategy t limits s in
      ((b ≡ true)
        × (s'.portfolio ≡ some (counted 1 window))
        × (window.accepted < limits.max_per_portfolio))
      ⊎ ((b ≡ false) × (s' ≡ s))
unfolding try_accept record_strategy record_portfolio next_window
step_portfolio limits strategy t s window found fits room h =
    elim (Bool-cases (ltb window.accepted limits.max_per_portfolio)) [
      | inr full ↦
          rw (found, has_capacity_lem limits window t limits.max_per_portfolio h, full)
            (inr (refl, refl))
      | inl free ↦ elim (Bool-cases strategy_has_capacity) [
        | inr refused ↦
            rw (found, has_capacity_lem limits window t limits.max_per_portfolio h, free, refused)
              (inr (refl, refl))
        | inl taken ↦
            let below = ltb→lt window.accepted limits.max_per_portfolio free in
            rw (found, has_capacity_lem limits window t limits.max_per_portfolio h, free, taken)
              (inl (
                refl,
                ap some (record_order_lem limits window t limits.max_per_portfolio h below fits),
                below,
              ))
      ]
    ]
  where
    strategy_has_capacity : Bool
    strategy_has_capacity =
        is_none_or (get strategy s.per_strategy)
          (λ w. has_capacity w t limits.window_duration_ms limits.max_per_strategy)

-- In the window of the portfolio, a sequence of requests never gets more orders admitted than the
-- window has room for, whatever the strategies are; the window counts exactly the orders that were
-- admitted, and keeps its start.
pub admit_within :
    (limits : OrderRateLimits) (requests : List (String × ℤ)) (s : OrderRateState)
    (window : FixedOrderWindow)
    → s.portfolio ≡ some window
    → limits.max_per_portfolio ≤ u32_max
    → window.accepted ≤ limits.max_per_portfolio
    → AreUntil (end_of limits window) requests
    → let (orders, final) = admit limits requests s in
      (window.accepted + length orders ≤ limits.max_per_portfolio)
      × (final.portfolio ≡ some (counted (length orders) window))
unfolding admit
admit_within limits [] s window found fits room until =
    (omega (arith, room), rw found (ap (λ n. some (record window { accepted = n })) (omega arith)))
admit_within limits ((strategy, t) ∷ requests) s window found fits room (h, until) =
    elim (step_portfolio limits strategy t s window found fits room h) [
      | inl (taken, after, below) ↦
          let (bound, kept) =
            admit_within limits requests (try_accept strategy t limits s).1 (counted 1 window) after
              fits (omega (arith, below)) until in
          rw taken (
            omega (arith, bound),
            kept ∙ ap (λ n. some (record window { accepted = n })) (omega arith),
          )
      | inr (refused, same) ↦
          rw (refused, same) (admit_within limits requests s window found fits room until)
    ]
