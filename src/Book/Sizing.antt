-- ===== src/Book/Sizing.antt =====
-- The clamping of the price of a post-only order (crates/pmkit-book/src/risk.rs).
use pmkit.Decimals.MinMax.{dec_min, dec_max}
use pmkit.Decimals.{Decimals}
use pmkit.Domain.{Side, buy, sell}
use pmkit.Base.{Option, none, some, if◌then◌else◌}

module _ ⦃D : Decimals⦄ where
  open D use {Decimal, dec_zero, dec_one, add, sub, at_most}

  abbrev pub below : Decimal → Decimal → Option Decimal
  below price max_bid = if at_most max_bid dec_zero then none else some (dec_min price max_bid)

  abbrev pub above : Decimal → Decimal → Option Decimal
  above price min_ask = if at_most dec_one min_ask then none else some (dec_max price min_ask)

  unfoldable pub clamp_post_only :
      Decimal → Side → Option Decimal → Option Decimal → Decimal → Option Decimal
  clamp_post_only price buy best_bid none tick_size = none
  clamp_post_only price buy best_bid (some ask) tick_size = below price (sub ask tick_size)
  clamp_post_only price sell none best_ask tick_size = none
  clamp_post_only price sell (some bid) best_ask tick_size = above price (add bid tick_size)
