-- ===== src/Math/Fees.antt =====
-- Taker fees by category (crates/pmkit-math/src/fees.rs) and the fee model of the simulator
-- (crates/pmkit-sim/src/fee.rs).
use pmkit.Decimals.{Decimals}
use pmkit.Base.Replies.{ok, Reply, err}
use pmkit.Base.{ℤ, Option, negsuc, some, if◌then◌else◌, ltb_ℤ, ◌||◌, ℕ, pos}
use pmkit.Event.{Liquidity, taker, maker}

pub data MarketCategory : Type 0 where
  crypto sports finance politics economics culture weather mentions tech geopolitics other :
      MarketCategory

unfoldable pub fee_rate_bps : MarketCategory → ℕ
fee_rate_bps crypto = 700
fee_rate_bps sports = 300
fee_rate_bps finance = 400
fee_rate_bps politics = 400
fee_rate_bps mentions = 400
fee_rate_bps tech = 400
fee_rate_bps economics = 500
fee_rate_bps culture = 500
fee_rate_bps weather = 500
fee_rate_bps other = 500
fee_rate_bps geopolitics = 0

-- Signed basis points of a maker and of a taker.
pub record FeeModel : Type 0 where
  pub maker_bps : ℤ
  pub taker_bps : ℤ

pub data FeeModelError : Type 0 where
  maker_out_of_range : ℤ → FeeModelError
  taker_out_of_range : ℤ → FeeModelError

abbrev pub min_maker_fee_bps : ℤ
min_maker_fee_bps = negsuc 9999

abbrev pub max_fee_bps : ℤ
max_fee_bps = pos 10000

unfoldable pub try_new : ℤ → ℤ → Reply FeeModelError FeeModel
try_new maker_bps taker_bps =
    if ltb_ℤ maker_bps min_maker_fee_bps || ltb_ℤ max_fee_bps maker_bps
    then err (maker_out_of_range maker_bps)
    else if ltb_ℤ taker_bps (pos 0) || ltb_ℤ max_fee_bps taker_bps
    then err (taker_out_of_range taker_bps)
    else ok (record { maker_bps = maker_bps; taker_bps = taker_bps })

unfoldable pub for_category : MarketCategory → FeeModel
unfolding fee_rate_bps
for_category category = record { maker_bps = pos 0; taker_bps = pos (fee_rate_bps category) }

-- `FeeModel::default`
unfoldable pub default_fee_model : FeeModel
unfolding for_category
default_fee_model = for_category crypto

abbrev pub bps_of : Liquidity → FeeModel → ℤ
bps_of maker model = model.maker_bps
bps_of taker model = model.taker_bps

module _ ⦃D : Decimals⦄ where
  open D use {Decimal, dec_zero, dec_one, sub, mul, div, of_int, round_dp}

  abbrev pub fee_of : FeeModel → Decimal → Decimal → Liquidity → Decimal
  fee_of model size price liquidity =
      let rate = div (of_int (bps_of liquidity model)) (of_int (pos 10000)) in
      round_dp 5 (mul (mul (mul size rate) price) (sub dec_one price))

  -- The checked operations give `None` where a decimal overflows, which decimals here do not do.
  unfoldable pub fee_order : FeeModel → Decimal → Decimal → Liquidity → Option Decimal
  fee_order model size price liquidity = some (fee_of model size price liquidity)

  -- `Decimal::from_parts(n, 0, 0, false, 2)`
  abbrev pub hundredths : ℕ → Decimal
  hundredths n = div (of_int (pos n)) (of_int (pos 100))

  unfoldable pub fee_rate : MarketCategory → Decimal
  fee_rate crypto = hundredths 7
  fee_rate sports = hundredths 3
  fee_rate finance = hundredths 4
  fee_rate politics = hundredths 4
  fee_rate mentions = hundredths 4
  fee_rate tech = hundredths 4
  fee_rate economics = hundredths 5
  fee_rate culture = hundredths 5
  fee_rate weather = hundredths 5
  fee_rate other = hundredths 5
  fee_rate geopolitics = dec_zero

  unfoldable pub maker_rebate_pct : MarketCategory → Decimal
  maker_rebate_pct crypto = hundredths 20
  maker_rebate_pct geopolitics = dec_zero
  maker_rebate_pct _ = hundredths 25

  abbrev pub round_fee : Decimal → Decimal
  round_fee raw = round_dp 5 raw

  unfoldable pub taker_fee_per_share : Decimal → MarketCategory → Decimal
  unfolding fee_rate
  taker_fee_per_share price category =
      round_fee (mul (mul (fee_rate category) price) (sub dec_one price))

  unfoldable pub taker_fee_order : Decimal → Decimal → MarketCategory → Decimal
  unfolding fee_rate
  taker_fee_order size price category =
      round_fee (mul (mul (mul size (fee_rate category)) price) (sub dec_one price))

  unfoldable pub effective_cost_per_share : Decimal → MarketCategory → Decimal
  unfolding taker_fee_per_share
  effective_cost_per_share price category = D.add price (taker_fee_per_share price category)
