-- ===== src/Sim/Tests.antt =====
-- The theorems on the simulator at a run over decimals of six digits: a book, a bid that rests, a
-- bid that waits for its activation, and a book that crosses.
use pmkit.Live.Rates.{saturating_add}
use pmkit.Sim.Activation.{is_waiting}
use pmkit.Event.{taker}
use pmkit.Sim.Expiry.{update_book-delayed}
use pmkit.Math.Walk.{IsWithin}
use pmkit.Sim.Takers.{submit_taker_lem}
use pmkit.Paper.Ledger.{order_id_text}
use pmkit.Book.{best_bid, best_ask, OrderBookL2}
use pmkit.Base.Dict.{remove, get, insert}
use pmkit.Math.Fees.{fee_of, fee_order, for_category, default_fee_model}
use pmkit.Exec.{PlaceOrder, gtd}
use pmkit.Sim.Events.{book_key, SimEngine, SimOrder, SimulationConfig}
use pmkit.Sim.Fills.{open_qty, filled, placed_qty}
use pmkit.Sim.Updates.{
  fill_quantity, fill_resting, is_due, fill_with, update_book, check_resting_fills,
  activate_delayed, fill_all,
}
use pmkit.Sim.Engine.{
  submit_taker, taker_fill, expired, place, with_fee_config, sim_order, submit_with_strategy,
  expire_orders, submit_maker, violates_market_limits, is_live,
}
use pmkit.Domain.{up, buy}
use pmkit.Base.{
  ◌+ℤ◌, ◌++◌, keep, ◌*ℤ◌, arith, ◌-ℤ◌, find, text_key, ℤ, false, some, pos, none, refl, ◌∷◌, [],
  show, ◌≡◌, join, true, Bool,
}
use pmkit.Decimals.Millionths.{millionths, whole_of, cents}
use pmkit.Sim.Runs.{
  Run-IsWellFormed, with_config-IsWellFormed, Run, at_start, after_step, submitted, book_arrived,
  Run-placed_qty,
}

abbrev config : SimulationConfig
config = record {
  activation_latency_ms = pos 50;
  maker_queue_ahead_bps = 0;
  slippage_bps = 100;
  market_impact_bps = 0;
  fee_model = none;
  market_limits = none;
}

abbrev quiet_book : OrderBookL2
quiet_book = record {
  bids = (cents 40, whole_of 5) ∷ [];
  asks = (cents 50, whole_of 4) ∷ (cents 55, whole_of 6) ∷ [];
  timestamp_ms = pos 5;
  last_trade_price = none;
}

abbrev crossing_book : OrderBookL2
crossing_book = record {
  bids = (cents 35, whole_of 5) ∷ [];
  asks = (cents 40, whole_of 2) ∷ (cents 55, whole_of 6) ∷ [];
  timestamp_ms = pos 100;
  last_trade_price = none;
}

abbrev bid : ℤ → Bool → PlaceOrder
bid price post_only = record {
  market = "btc-5m";
  outcome = up;
  side = buy;
  price = price;
  qty = whole_of 6;
  post_only = post_only;
  tif = gtd (pos 150);
}

abbrev at_rest : SimOrder
at_rest = sim_order "run-0" (bid (cents 45) true) none (pos 10) config

abbrev at_wait : SimOrder
at_wait = sim_order "run-1" (bid (cents 50) false) none (pos 70) config

abbrev new_engine : SimEngine
new_engine = with_fee_config "run" 0 config

abbrev open_engine : SimEngine
open_engine = update_book "btc-5m" up quiet_book new_engine

abbrev resting_engine : SimEngine
resting_engine = (submit_with_strategy (bid (cents 45) true) none (pos 10) open_engine).1

abbrev resting_run : Run new_engine resting_engine
resting_run =
    after_step _ open_engine _
      (after_step _ new_engine _ (at_start new_engine)
        (book_arrived "btc-5m" up quiet_book new_engine))
      (submitted (bid (cents 45) true) none (pos 10) open_engine)

abbrev waiting_engine : SimEngine
waiting_engine = (submit_with_strategy (bid (cents 50) false) none (pos 70) resting_engine).1

abbrev waiting_run : Run new_engine waiting_engine
waiting_run =
    after_step _ resting_engine _ resting_run
      (submitted (bid (cents 50) false) none (pos 70) resting_engine)

it_rests : get "run-0" resting_engine.resting ≡ some at_rest
unfolding submit_with_strategy violates_market_limits place submit_maker update_book expire_orders
    expired check_resting_fills activate_delayed fill_all with_fee_config default_fee_model
    for_category get insert order_id_text join show best_ask best_bid
it_rests = refl

Run-placed_qty_example :
    let s' = update_book "btc-5m" up crossing_book resting_engine in
    (is_live "btc-5m" up (pos 100) at_rest ≡ true
      → placed_qty "run-0" s' ≡ placed_qty "run-0" resting_engine)
    × (is_live "btc-5m" up (pos 100) at_rest ≡ false
        → (get "run-0" s'.resting ≡ none)
          × (filled "run-0" s'.pending_fills ≡ filled "run-0" resting_engine.pending_fills))
Run-placed_qty_example =
    Run-placed_qty "run" 0 config resting_engine "btc-5m" up crossing_book "run-0" at_rest
      resting_run it_rests

-- The crossing book fills the two units of its best level.
crossed :
    let s' = update_book "btc-5m" up crossing_book resting_engine in
    (open_qty "run-0" s' ≡ whole_of 4) × (filled "run-0" s'.pending_fills ≡ whole_of 2)
unfolding submit_with_strategy violates_market_limits place submit_maker update_book expire_orders
    expired check_resting_fills activate_delayed fill_all fill_resting fill_with fill_quantity
    fee_order with_fee_config default_fee_model for_category get insert remove order_id_text join
    show best_ask best_bid saturating_add ◌-ℤ◌ ◌+ℤ◌ ◌*ℤ◌
crossed = (refl, refl)

has_book : get ⦃e = book_key⦄ ("btc-5m", up) open_engine.books ≡ some quiet_book
unfolding update_book expire_orders check_resting_fills activate_delayed fill_all with_fee_config
    get insert
has_book = refl

submit_taker_lem_example :
    (true ≡ true
      → (price : ℤ) × (submit_taker "run-1" (bid (cents 50) false) (pos 70) (pos 100) open_engine
          ≡ (
            some "run-1",
            record open_engine {
              pending_fills =
                  open_engine.pending_fills
                  ++ taker_fill "run-1"
                      (bid (cents 50) false)
                      price
                      (whole_of 4)
                      (fee_of open_engine.fee_model (whole_of 4) price taker)
                      (pos 100)
                    ∷ [];
            },
          ))
        × IsWithin true (cents 50) price)
    × (true ≡ false
        → submit_taker "run-1" (bid (cents 50) false) (pos 70) (pos 100) open_engine
          ≡ (none, open_engine))
unfolding ◌+ℤ◌ ◌*ℤ◌
submit_taker_lem_example =
    submit_taker_lem "run-1" (bid (cents 50) false) (pos 70) (pos 100) quiet_book open_engine
      has_book (omega arith, omega arith, (omega arith, omega arith, tt)) (omega arith)
      (refl, (refl, tt)) refl

update_book-delayed_example :
    let s' = update_book "btc-5m" up crossing_book waiting_engine in
    (s'.delayed
      ≡ keep
          (is_waiting "btc-5m" up (pos 100))
          (keep (is_live "btc-5m" up (pos 100)) waiting_engine.delayed))
    × (find (is_due "btc-5m" up (pos 100)) s'.delayed ≡ none)
update_book-delayed_example =
    update_book-delayed "btc-5m" up crossing_book waiting_engine
      (Run-IsWellFormed new_engine waiting_engine waiting_run
        (with_config-IsWellFormed "run" 0 config)).orderly

abbrev two_engine : SimEngine
two_engine = (submit_with_strategy (bid (cents 45) true) none (pos 20) resting_engine).1

-- The two units of the best level fill each of two bids.
filled_twice :
    let s' = update_book "btc-5m" up crossing_book two_engine in
    (filled "run-0" s'.pending_fills ≡ whole_of 2) × (filled "run-1" s'.pending_fills ≡ whole_of 2)
unfolding submit_with_strategy violates_market_limits place submit_maker update_book expire_orders
    expired check_resting_fills activate_delayed fill_all fill_resting fill_with fill_quantity
    fee_order with_fee_config default_fee_model for_category get insert remove order_id_text join
    show best_ask best_bid saturating_add ◌-ℤ◌ ◌+ℤ◌ ◌*ℤ◌
filled_twice = (refl, refl)
