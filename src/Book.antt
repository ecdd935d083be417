-- ===== src/Book.antt =====
-- Order books and positions (crates/pmkit-book/src/lib.rs).
use pmkit.Domain.{Outcome}
use pmkit.Accounting.Exposure.{total}
use pmkit.Base.{ℤ, ◌∷◌, some, none, pos, Option, if◌then◌else◌, [], List}
use pmkit.Decimals.{Decimals, is_zero}
pub mod Levels
pub mod Sizing
pub mod Quantities
pub mod Sorted
mod Tests

module _ ⦃D : Decimals⦄ where
  open D use {Decimal, dec_zero, add, sub, div, of_int}

  pub record OrderBookL2 : Type 0 where
    pub bids : List (Decimal × Decimal)
    pub asks : List (Decimal × Decimal)
    pub timestamp_ms : ℤ
    pub last_trade_price : Option Decimal

  pub record Position : Type 0 where
    pub outcome : Outcome
    pub qty : Decimal
    pub avg_entry : Decimal
    pub unrealized_pnl : Decimal

  abbrev pub first : List (Decimal × Decimal) → Option (Decimal × Decimal)
  first [] = none
  first (level ∷ _) = some level

  unfoldable pub best_bid : OrderBookL2 → Option (Decimal × Decimal)
  best_bid book = first book.bids

  unfoldable pub best_ask : OrderBookL2 → Option (Decimal × Decimal)
  best_ask book = first book.asks

  -- The chains of `?` over the two best levels.
  abbrev pub on_both :
      (Decimal → Decimal → Decimal)
      → Option (Decimal × Decimal)
      → Option (Decimal × Decimal)
      → Option Decimal
  on_both f (some (bid, _)) (some (ask, _)) = some (f bid ask)
  on_both f _ _ = none

  abbrev pub two : Decimal
  two = of_int (pos 2)

  unfoldable pub mid_price : OrderBookL2 → Option Decimal
  unfolding best_bid best_ask
  mid_price book = on_both (λ bid ask. div (add bid ask) two) (best_bid book) (best_ask book)

  unfoldable pub spread : OrderBookL2 → Option Decimal
  unfolding best_bid best_ask
  spread book = on_both (λ bid ask. sub ask bid) (best_bid book) (best_ask book)

  abbrev pub qty_of : Option (Decimal × Decimal) → Decimal
  qty_of none = dec_zero
  qty_of (some (_, qty)) = qty

  unfoldable pub obi : OrderBookL2 → Decimal
  unfolding best_bid best_ask
  obi book =
      let bid_qty = qty_of (best_bid book) in
      let ask_qty = qty_of (best_ask book) in
      let total = add bid_qty ask_qty in
      if is_zero total then dec_zero else div (sub bid_qty ask_qty) total
