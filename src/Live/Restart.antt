-- ===== src/Live/Restart.antt =====
-- Restoring the order rate windows from the orders that were accepted
-- (crates/pmkit/src/live_risk.rs, `restore`).
use pmkit.Base.Dict.{get}
use pmkit.Live.Requests.{admit}
use pmkit.Live.Rates.{
  is_none_or, has_capacity, insert_by_time, record_portfolio, restore, record_all, sort_by_time,
  try_accept, record_named, OrderRateState, OrderRateLimits,
}
use pmkit.Base.{
  text_key, ◌||◌, Bool, not, ℤ, some, false, ◌∙◌, refl, true, inl, inr, ◌≡◌, arith, List,
  Bool-cases, Option, ◌∷◌, ◌≤ℤ◌, ap, [], String, ◌⊎◌, leb_ℤ,
}

-- No time before `first`, and times that do not fall.
abbrev AreSince : {K : Type 0} → ℤ → List (K × ℤ) → Type 0
AreSince first [] = Unit
AreSince first ((_, timestamp_ms) ∷ orders) = (first ≤ℤ timestamp_ms) × AreSince first orders

abbrev pub IsOrdered : {K : Type 0} → List (K × ℤ) → Type 0
IsOrdered [] = Unit
IsOrdered ((_, timestamp_ms) ∷ orders) = AreSince timestamp_ms orders × IsOrdered orders

-- Sorting by time leaves such a list alone.
sort-IsOrdered :
    (orders : List (Option String × ℤ)) → IsOrdered orders → sort_by_time orders ≡ orders
unfolding sort_by_time
sort-IsOrdered [] h = refl
sort-IsOrdered (order ∷ orders) (since, h) =
    ap (insert_by_time order) (sort-IsOrdered orders h) ∙ first order orders since
  where
    first :
        (order : Option String × ℤ) (orders : List (Option String × ℤ))
        → AreSince order.1 orders
        → insert_by_time order orders ≡ order ∷ orders
    first order [] h = unfold insert_by_time in refl
    first order (other ∷ orders) (le, h) =
        let before : leb_ℤ order.1 other.1 ≡ true = ground (arith, le) in
        unfold insert_by_time in rw before refl

-- A request that is accepted is recorded, one that is not changes nothing.
try_accept_lem :
    (strategy : String) (t : ℤ) (limits : OrderRateLimits) (s : OrderRateState)
    → let (b, s') = try_accept strategy t limits s in
      ((b ≡ true)
        × (s'
            ≡ record_named
                (some strategy)
                t
                limits.window_duration_ms
                (record_portfolio t limits.window_duration_ms s)))
      ⊎ (b ≡ false) × (s' ≡ s)
unfolding try_accept
try_accept_lem strategy t limits s = elim (Bool-cases refused) [
  | inl e ↦ rw e (inr (refl, refl))
  | inr e ↦ rw e (inl (refl, refl))
]
  where
    refused : Bool
    refused =
        not (
          is_none_or s.portfolio
            (λ w. has_capacity w t limits.window_duration_ms limits.max_per_portfolio))
        || not (
            is_none_or (get strategy s.per_strategy)
              (λ w. has_capacity w t limits.window_duration_ms limits.max_per_strategy))

admit-AreSince :
    (limits : OrderRateLimits) (first : ℤ) (requests : List (String × ℤ)) (s : OrderRateState)
    → AreSince first requests
    → AreSince first (admit limits requests s).0
unfolding admit
admit-AreSince limits first [] s h = tt
admit-AreSince limits first ((strategy, t) ∷ requests) s (le, h) =
    let s' = (try_accept strategy t limits s).1 in
    let rest = admit-AreSince limits first requests s' h in
    elim (Bool-cases (try_accept strategy t limits s).0) [
      | inl e ↦ rw e (le, rest)
      | inr e ↦ rw e rest
    ]

admit-IsOrdered :
    (limits : OrderRateLimits) (requests : List (String × ℤ)) (s : OrderRateState)
    → IsOrdered requests
    → IsOrdered (admit limits requests s).0
unfolding admit
admit-IsOrdered limits [] s h = tt
admit-IsOrdered limits ((strategy, t) ∷ requests) s (since, h) =
    let s' = (try_accept strategy t limits s).1 in
    let rest = admit-IsOrdered limits requests s' h in
    elim (Bool-cases (try_accept strategy t limits s).0) [
      | inl e ↦ rw e (admit-AreSince limits t requests s' since, rest)
      | inr e ↦ rw e rest
    ]

record_all-admit :
    (limits : OrderRateLimits) (requests : List (String × ℤ)) (s : OrderRateState)
    → record_all limits.window_duration_ms (admit limits requests s).0 s
      ≡ (admit limits requests s).1
unfolding admit record_all
record_all-admit limits [] s = refl
record_all-admit limits ((strategy, t) ∷ requests) s = elim (try_accept_lem strategy t limits s) [
  | inl (e, same) ↦ rw (e, same) (record_all-admit limits requests _)
  | inr (e, same) ↦ rw (e, same) (record_all-admit limits requests s)
]

-- A restart forgets nothing of the windows: for requests whose times do not fall, restoring the
-- start state from the orders that were accepted gives the state after the requests.
pub restore-admit :
    (limits : OrderRateLimits) (requests : List (String × ℤ)) (s : OrderRateState)
    → IsOrdered requests
    → let (orders, final) = admit limits requests s in restore limits orders s ≡ final
unfolding restore
restore-admit limits requests s h =
    ap (λ orders. record_all limits.window_duration_ms orders s)
      (sort-IsOrdered (admit limits requests s).0 (admit-IsOrdered limits requests s h))
    ∙ record_all-admit limits requests s
