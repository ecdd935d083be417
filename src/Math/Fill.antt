-- ===== src/Math/Fill.antt =====
-- Walking the levels of a book (crates/pmkit-math/src/fill.rs).
use pmkit.Decimals.MinMax.{dec_min}
use pmkit.Decimals.{Decimals}
use pmkit.Base.{◌||◌, ◌∷◌, Bool, some, none, Option, false, if◌then◌else◌, [], true, List}

module _ ⦃D : Decimals⦄ where
  open D use {Decimal, dec_zero, add, sub, mul, div, less, at_most}

  -- Whether the limit stops the walk at a price.
  abbrev pub is_beyond : Decimal → Bool → Decimal → Bool
  is_beyond limit_price true price = less limit_price price
  is_beyond limit_price false price = less price limit_price

  -- The loop: the total cost and the total quantity.
  unfoldable pub walk :
      List (Decimal × Decimal) → Decimal → Decimal → Bool → Decimal → Decimal → Decimal × Decimal
  walk [] remaining limit_price is_buy total_cost total_qty = (total_cost, total_qty)
  walk ((price, qty) ∷ levels) remaining limit_price is_buy total_cost total_qty =
      let fill = dec_min remaining qty in
      let rest =
        walk levels (sub remaining fill) limit_price is_buy (add total_cost (mul fill price))
          (add total_qty fill) in
      if at_most remaining dec_zero || is_beyond limit_price is_buy price
      then (total_cost, total_qty)
      else rest

  -- The average price of what was taken.
  abbrev pub averaged_fill : Decimal × Decimal → Option (Decimal × Decimal)
  averaged_fill (total_cost, total_qty) =
      if less dec_zero total_qty then some (div total_cost total_qty, total_qty) else none

  unfoldable pub walk_book :
      List (Decimal × Decimal) → Decimal → Decimal → Bool → Option (Decimal × Decimal)
  unfolding walk
  walk_book levels remaining limit_price is_buy =
      averaged_fill (walk levels remaining limit_price is_buy dec_zero dec_zero)
