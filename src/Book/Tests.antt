-- ===== src/Book/Tests.antt =====
-- The theorems on books and positions at concrete values.
use pmkit.Book.Sizing.{clamp_post_only}
use pmkit.Book.Sorted.{best_levels_agree}
use pmkit.Book.Quantities.{apply_fill-held_qty}
use pmkit.Base.{◌-ℤ◌, ◌+ℤ◌, [], ◌∷◌, ◌≡◌, none, pos, some, arith, refl}
use pmkit.Domain.{buy, up, sell, down}
use pmkit.Book.{
  Position, OrderBookL2, best_ask as top_ask, best_bid as top_bid, spread as top_spread,
}
use pmkit.Book.Levels.{
  signed, held_qty, position_quantities, price_of, min_level, best_ask, best_bid, spread,
  apply_fill,
}
use pmkit.Decimals.Millionths.{millionths, whole_of, cents}

abbrev two_sided : OrderBookL2
two_sided = record {
  bids = (cents 40, whole_of 5) ∷ (cents 35, whole_of 9) ∷ [];
  asks = (cents 50, whole_of 4) ∷ (cents 55, whole_of 6) ∷ [];
  timestamp_ms = pos 5;
  last_trade_price = none;
}

best_levels_agree_example :
    (best_ask two_sided ≡ price_of (top_ask two_sided))
    × (best_bid two_sided ≡ price_of (top_bid two_sided))
    × (spread two_sided ≡ top_spread two_sided)
best_levels_agree_example = best_levels_agree two_sided (omega arith, tt) (omega arith, tt)

abbrev long_up : Position
long_up = record { outcome = up; qty = whole_of 5; avg_entry = cents 20; unrealized_pnl = pos 0 }

apply_fill-held_qty_example :
    let positions = apply_fill up sell (cents 30) (whole_of 8) (long_up ∷ []) in
    (held_qty positions up ≡ held_qty (long_up ∷ []) up +ℤ signed sell (whole_of 8))
    × (held_qty positions down ≡ held_qty (long_up ∷ []) down)
    × ((position_quantities positions).0 ≡ held_qty positions up)
    × ((position_quantities positions).1 ≡ held_qty positions down)
apply_fill-held_qty_example = apply_fill-held_qty up sell (cents 30) (whole_of 8) (long_up ∷ [])

-- The scan finds the best levels of a book that is not sorted.
scanned :
    let book = record two_sided { asks = (cents 55, whole_of 6) ∷ (cents 50, whole_of 4) ∷ [] } in
    best_ask book ≡ some (cents 50)
unfolding best_ask min_level
scanned = refl

-- Prices that would cross are moved one tick away from the best price of the other side.
clamped :
    (clamp_post_only (cents 40) sell (some (cents 40)) none (cents 1) ≡ some (cents 41))
    × (clamp_post_only (cents 55) buy none (some (cents 50)) (cents 1) ≡ some (cents 49))
    × (clamp_post_only (cents 99) sell (some (cents 99)) none (cents 1) ≡ none)
unfolding clamp_post_only ◌+ℤ◌ ◌-ℤ◌
clamped = (refl, refl, refl)
