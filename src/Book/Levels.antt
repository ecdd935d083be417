-- ===== src/Book/Levels.antt =====
-- Helper functions on books and positions (crates/pmkit-book/src/book.rs). They scan all levels.
use pmkit.Accounting.Exposure.{totals}
use pmkit.Accounting.{sum}
use pmkit.Decimals.{Decimals, is_zero}
use pmkit.Book.{Position, two, OrderBookL2, on_both}
use pmkit.Base.{
  ◌&&◌, map, none, Option, List, find, Bool, some, ◌++◌, if◌then◌else◌, keep, ◌||◌, ◌∷◌, [], ◌==◌,
  update_first,
}
use pmkit.Domain.{outcome_key, buy, Side, Outcome, sell, up}

module _ ⦃D : Decimals⦄ where
  open D use {Decimal, dec_zero, add, sub, mul, div, neg, abs, less, at_most}

  -- `iter().min_by_key(price)` takes the first of the smallest, `max_by_key` the last of the
  -- largest.
  unfoldable pub min_level : List (Decimal × Decimal) → Option (Decimal × Decimal)
  min_level [] = none
  min_level (level ∷ levels) = elim (min_level levels) [
    | none ↦ some level
    | some other ↦ if at_most level.0 other.0 then some level else some other
  ]

  unfoldable pub max_level : List (Decimal × Decimal) → Option (Decimal × Decimal)
  max_level [] = none
  max_level (level ∷ levels) = elim (max_level levels) [
    | none ↦ some level
    | some other ↦ if at_most level.0 other.0 then some other else some level
  ]

  abbrev pub price_of : Option (Decimal × Decimal) → Option Decimal
  price_of none = none
  price_of (some (price, _)) = some price

  unfoldable pub best_ask : OrderBookL2 → Option Decimal
  best_ask book = price_of (min_level book.asks)

  unfoldable pub best_bid : OrderBookL2 → Option Decimal
  best_bid book = price_of (max_level book.bids)

  abbrev pub weighted : Option (Decimal × Decimal) → Option (Decimal × Decimal) → Option Decimal
  weighted (some (bid, bid_qty)) (some (ask, ask_qty)) =
      let total_qty = add bid_qty ask_qty in
      if less dec_zero total_qty
      then some (div (add (mul bid ask_qty) (mul ask bid_qty)) total_qty)
      else some (div (add bid ask) two)
  weighted _ _ = none

  unfoldable pub mid_price : OrderBookL2 → Option Decimal
  mid_price book = weighted (max_level book.bids) (min_level book.asks)

  unfoldable pub spread : OrderBookL2 → Option Decimal
  spread book = on_both (λ bid ask. sub ask bid) (max_level book.bids) (min_level book.asks)

  -- `held_qty`: the sum over the positions of the outcome.
  unfoldable pub held_qty : List Position → Outcome → Decimal
  held_qty positions outcome = sum (map (λ p. p.qty) (keep (λ p. p.outcome == outcome) positions))

  unfoldable pub position_quantities_from : Decimal × Decimal → List Position → Decimal × Decimal
  position_quantities_from totals [] = totals
  position_quantities_from (u, d) (p ∷ positions) =
      position_quantities_from (if p.outcome == up then (add u p.qty, d) else (u, add d p.qty))
        positions

  unfoldable pub position_quantities : List Position → Decimal × Decimal
  unfolding position_quantities_from
  position_quantities = position_quantities_from (dec_zero, dec_zero)

  abbrev pub signed : Side → Decimal → Decimal
  signed buy quantity = quantity
  signed sell quantity = neg quantity

  abbrev pub is_increasing : Decimal → Decimal → Bool
  is_increasing qty delta =
      at_most dec_zero qty && less dec_zero delta || at_most qty dec_zero && less delta dec_zero

  -- The average entry after a fill that increases the position, by its prior size.
  abbrev pub averaged : Decimal → Decimal → Position → Decimal
  averaged price quantity p =
      let prior = abs p.qty in
      let total = add prior quantity in
      if less dec_zero total
      then div (add (mul p.avg_entry prior) (mul price quantity)) total
      else p.avg_entry

  unfoldable pub fill_position : Side → Decimal → Decimal → Position → Position
  fill_position side price quantity p =
      let delta = signed side quantity in
      let entry = if is_increasing p.qty delta then averaged price quantity p else p.avg_entry in
      let qty = add p.qty delta in
      record p { qty = qty; avg_entry = if is_zero qty then dec_zero else entry }

  abbrev pub opened_position : Outcome → Side → Decimal → Decimal → Position
  opened_position outcome side price quantity = record {
    outcome = outcome;
    qty = signed side quantity;
    avg_entry = price;
    unrealized_pnl = dec_zero;
  }

  abbrev pub is_outcome : Outcome → Position → Bool
  is_outcome outcome p = p.outcome == outcome

  -- `apply_fill`: through the position that is found, or to a new one.
  abbrev pub filled_or_opened :
      Option Position → Outcome → Side → Decimal → Decimal → List Position → List Position
  filled_or_opened (some _) outcome side price quantity positions =
      update_first (is_outcome outcome) (fill_position side price quantity) positions
  filled_or_opened none outcome side price quantity positions =
      positions ++ opened_position outcome side price quantity ∷ []

  unfoldable pub apply_fill : Outcome → Side → Decimal → Decimal → List Position → List Position
  apply_fill outcome side price quantity positions =
      filled_or_opened (find (is_outcome outcome) positions) outcome side price quantity positions
