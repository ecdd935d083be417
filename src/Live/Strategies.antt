-- ===== src/Live/Strategies.antt =====
-- Requests inside the window of one strategy (crates/pmkit/src/live_risk.rs).
use pmkit.Live.Requests.{admit}
use pmkit.Base.Dict.{get, get-insert}
use pmkit.Live.Windows.{has_capacity_lem, AreUntil, record_order_lem, counted, end_of}
use pmkit.Base.{
  [], ◌∷◌, ◌∙◌, length, arith, ap, ltb→lt, ◌+◌, text_key, ℤ, ◌⊎◌, false, Bool, ◌==◌, ◌≤◌, keep, ◌≡◌,
  refl, Option, some, Bool-cases, true, none, ◌<◌, inl, List, String, ◌≤ℤ◌, inr,
}
use pmkit.Live.Rates.{
  record_strategy, record_portfolio, FixedOrderWindow, OrderRateState, has_capacity,
  OrderRateLimits, try_accept, is_none_or, next_window, u32_max,
}

abbrev is_of : String → Option String × ℤ → Bool
is_of strategy (none, _) = false
is_of strategy (some other, _) = other == strategy

abbrev pub orders_of : String → List (Option String × ℤ) → List (Option String × ℤ)
orders_of strategy orders = keep (is_of strategy) orders

-- One request inside the window of strategy `k`.
step_strategy :
    (limits : OrderRateLimits) (k strategy : String) (t : ℤ) (s : OrderRateState)
    (window : FixedOrderWindow)
    → get k s.per_strategy ≡ some window
    → limits.max_per_strategy ≤ u32_max
    → window.accepted ≤ limits.max_per_strategy
    → t ≤ℤ end_of limits window
    → let (b, s') = try_accept strategy t limits s in
      ((b ≡ true)
          × ((strategy == k) ≡ true)
          × (get k s'.per_strategy ≡ some (counted 1 window))
          × (window.accepted < limits.max_per_strategy)
        ⊎ (b ≡ true) × ((strategy == k) ≡ false) × (get k s'.per_strategy ≡ some window))
      ⊎ (b ≡ false) × (s' ≡ s)
unfolding try_accept record_strategy record_portfolio next_window
step_strategy limits k strategy t s window found fits room h =
    elim (Bool-cases (portfolio_has_capacity s.portfolio)) [
      | inr full ↦ rw full (inr (refl, refl))
      | inl free ↦ elim (Bool-cases (strategy_has_capacity (get strategy s.per_strategy))) [
        | inr refused ↦ rw (free, refused) (inr (refl, refl))
        | inl taken ↦ elim (Bool-cases (strategy == k)) [
          | inr other ↦
              rw (free, taken)
                (inl (
                  inr (
                    refl,
                    other,
                    rw (get-insert strategy k (after strategy) s.per_strategy, other) found,
                  )))
          | inl same ↦
              let key : strategy ≡ k = (text_key.matches_iff strategy k).0 same in
              let below = ltb→lt window.accepted limits.max_per_strategy (
                rw (key, found, has_capacity_lem limits window t limits.max_per_strategy h) at
                  taken) in
              rw (free, taken)
                (inl (
                  inl (
                    refl,
                    same,
                    rw (get-insert strategy k (after strategy) s.per_strategy, same)
                        (ap some (after_same key below)),
                    below,
                  )))
        ]
      ]
    ]
  where
    portfolio_has_capacity : Option FixedOrderWindow → Bool
    portfolio_has_capacity p =
        is_none_or p (λ w. has_capacity w t limits.window_duration_ms limits.max_per_portfolio)

    strategy_has_capacity : Option FixedOrderWindow → Bool
    strategy_has_capacity p =
        is_none_or p (λ w. has_capacity w t limits.window_duration_ms limits.max_per_strategy)

    after : String → FixedOrderWindow
    after j = next_window (get j s.per_strategy) t limits.window_duration_ms

    after_same :
        strategy ≡ k → window.accepted < limits.max_per_strategy → after strategy ≡ counted 1 window
    after_same key below =
        ap after key
        ∙ ap (λ p. next_window p t limits.window_duration_ms) found
        ∙ record_order_lem limits window t limits.max_per_strategy h below fits

-- In the window of a strategy, a sequence of requests of any strategies never gets more orders of
-- this one admitted than its window has room for; the window counts exactly those orders.
pub admit_within_strategy :
    (limits : OrderRateLimits) (k : String) (requests : List (String × ℤ)) (s : OrderRateState)
    (window : FixedOrderWindow)
    → get k s.per_strategy ≡ some window
    → limits.max_per_strategy ≤ u32_max
    → window.accepted ≤ limits.max_per_strategy
    → AreUntil (end_of limits window) requests
    → let (orders, final) = admit limits requests s in
      (window.accepted + length (orders_of k orders) ≤ limits.max_per_strategy)
      × (get k final.per_strategy ≡ some (counted (length (orders_of k orders)) window))
unfolding admit
admit_within_strategy limits k [] s window found fits room until =
    (omega (arith, room), rw found (ap (λ n. some (record window { accepted = n })) (omega arith)))
admit_within_strategy limits k ((strategy, t) ∷ requests) s window found fits room (h, until) =
    let s' = (try_accept strategy t limits s).1 in
    elim (step_strategy limits k strategy t s window found fits room h) [
      | inl (inl (taken, same, after, below)) ↦
          let (bound, kept) =
            admit_within_strategy limits k requests s' (counted 1 window) after fits
              (omega (arith, below)) until in
          rw (taken, same)
            (
              omega (arith, bound),
              kept ∙ ap (λ n. some (record window { accepted = n })) (omega arith),
            )
      | inl (inr (taken, other, after)) ↦
          rw (taken, other)
            (admit_within_strategy limits k requests s' window after fits room until)
      | inr (refused, unchanged) ↦
          rw (refused, unchanged)
            (admit_within_strategy limits k requests s window found fits room until)
    ]
