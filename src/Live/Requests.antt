-- ===== src/Live/Requests.antt =====
-- Sequences of calls of `try_accept` (crates/pmkit/src/live_risk.rs): the orders that were accepted
-- and the state that is left.
use pmkit.Live.Rates.{OrderRateLimits, OrderRateState, try_accept}
use pmkit.Base.{ℤ, Bool, String, Option, true, List, ◌∷◌, false, some, []}

abbrev keep_if : Bool → String → ℤ → List (Option String × ℤ) → List (Option String × ℤ)
keep_if true strategy timestamp_ms orders = (some strategy, timestamp_ms) ∷ orders
keep_if false strategy timestamp_ms orders = orders

unfoldable pub admit :
    OrderRateLimits → List (String × ℤ) → OrderRateState → List (Option String × ℤ) × OrderRateState
admit limits [] s = ([], s)
admit limits ((strategy, timestamp_ms) ∷ requests) s =
    let (accepted, after) = try_accept strategy timestamp_ms limits s in
    let (orders, final) = admit limits requests after in
    (keep_if accepted strategy timestamp_ms orders, final)
