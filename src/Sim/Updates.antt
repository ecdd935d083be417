-- ===== src/Sim/Updates.antt =====
-- What a new book does (`update_book`), and cancelling and listing orders
-- (crates/pmkit-sim/src/lib.rs).
use pmkit.Accounting.{sum}
use pmkit.Math.Fees.{fee_order}
use pmkit.Sim.Engine.{is_in, crosses, max_ℤ, remove_first, submit_taker, expire_orders}
use pmkit.Decimals.MinMax.{dec_min, dec_max}
use pmkit.Decimals.{Decimals, is_zero}
use pmkit.Domain.{Outcome, sell, Side, buy}
use pmkit.Base.Dict.{get, Dict, remove, sort_by_key, insert}
use pmkit.Base.{
  text_key, ℤ, some, [], map, ℕ, leb_ℤ, if◌then◌else◌, ◌∷◌, ◌&&◌, pos, ◌++◌, String, Option, List,
  none, Bool, length, ◌==◌, keep, find,
}
use pmkit.Event.{MarketEvent, maker, fill as market_fill}
use pmkit.Book.{qty_of, OrderBookL2, best_ask, best_bid}
use pmkit.Sim.Events.{SimOrder, SimEngine, SimulationConfig, SimOpenOrder, book_key}

module _ ⦃D : Decimals⦄ where
  open D use {Decimal, dec_zero, dec_one, add, sub, mul, div, of_int, less, at_most}

  abbrev pub is_due : String → Outcome → ℤ → SimOrder → Bool
  is_due market outcome now_ms o = is_in market outcome o && leb_ℤ o.active_at_ms now_ms

  -- The loop over the delayed orders: those that are due take liquidity, the others remain.
  unfoldable pub activate_all :
      String → Outcome → ℤ → List SimOrder → SimEngine → List SimOrder × SimEngine
  activate_all market outcome now_ms [] s = ([], s)
  activate_all market outcome now_ms (o ∷ waiting) s =
      let due = is_due market outcome now_ms o in
      let after = (submit_taker o.order_id o.order o.submitted_ms now_ms s).1 in
      let (remaining, s') = activate_all market outcome now_ms waiting (if due then after else s) in
      (if due then remaining else o ∷ remaining, s')

  abbrev pub activate_at : Option OrderBookL2 → String → Outcome → SimEngine → SimEngine
  activate_at none market outcome s = s
  activate_at (some book) market outcome s =
      let (remaining, s') =
        activate_all market outcome book.timestamp_ms s.delayed (record s { delayed = [] }) in
      record s' { delayed = remaining }

  unfoldable pub activate_delayed : String → Outcome → SimEngine → SimEngine
  unfolding activate_all
  activate_delayed market outcome s = activate_at (get (market, outcome) s.books) market outcome s

  abbrev pub is_filled_by : String → Outcome → OrderBookL2 → String × SimOrder → Bool
  is_filled_by market outcome book (_, o) =
      is_due market outcome book.timestamp_ms o && crosses o.order.side o.order.price book

  abbrev pub ids_of : Dict String SimOrder → List String
  ids_of orders = map (λ p. p.1.order_id) orders

  abbrev pub top_quantity : Side → OrderBookL2 → Decimal
  top_quantity buy book = qty_of (best_ask book)
  top_quantity sell book = qty_of (best_bid book)

  -- The share of the top level that is not assumed to be ahead in the queue.
  abbrev pub available : SimulationConfig → Side → OrderBookL2 → Decimal
  available config side book =
      mul (top_quantity side book)
        (sub dec_one (div (of_int (pos config.maker_queue_ahead_bps)) (of_int (pos 10000))))

  abbrev pub maker_fill : SimOrder → OrderBookL2 → Decimal → Decimal → MarketEvent
  maker_fill o book qty fee =
      market_fill none o.order_id o.order.market o.order.outcome o.order.price qty o.order.side fee
        maker (max_ℤ book.timestamp_ms o.submitted_ms)

  abbrev pub left_over : SimOrder → Decimal → SimOrder
  left_over o qty = record o { order = record o.order { qty = sub o.order.qty qty } }

  -- An order that was taken out of `resting`, a book and a quantity.
  unfoldable pub fill_with : String → SimOrder → OrderBookL2 → Decimal → SimEngine → SimEngine
  fill_with order_id o book qty s =
      if is_zero qty
      then record s { resting = insert order_id o s.resting }
      else elim (fee_order s.fee_model qty o.order.price maker) [
        | none ↦ record s { resting = insert order_id o s.resting }
        | some fee ↦
            let emitted = record s {
              pending_fills = s.pending_fills ++ maker_fill o book qty fee ∷ [];
            } in
            let left = left_over o qty in
            if is_zero left.order.qty
            then emitted
            else record emitted { resting = insert order_id left s.resting }
      ]

  unfoldable pub fill_quantity : SimulationConfig → SimOrder → OrderBookL2 → Decimal
  fill_quantity config o book =
      dec_min o.order.qty (dec_max (available config o.order.side book) dec_zero)

  abbrev pub fill_found : Option SimOrder → String → OrderBookL2 → SimEngine → SimEngine
  fill_found none order_id book s = s
  fill_found (some o) order_id book s =
      fill_with order_id o book (fill_quantity s.config o book)
        (record s { resting = remove order_id s.resting })

  unfoldable pub fill_resting : String → OrderBookL2 → SimEngine → SimEngine
  fill_resting order_id book s = fill_found (get order_id s.resting) order_id book s

  unfoldable pub fill_all : List String → OrderBookL2 → SimEngine → SimEngine
  fill_all [] book s = s
  fill_all (order_id ∷ order_ids) book s = fill_all order_ids book (fill_resting order_id book s)

  abbrev pub check_fills : Option OrderBookL2 → String → Outcome → SimEngine → SimEngine
  check_fills none market outcome s = s
  check_fills (some book) market outcome s =
      fill_all (ids_of (keep (is_filled_by market outcome book) s.resting)) book s

  unfoldable pub check_resting_fills : String → Outcome → SimEngine → SimEngine
  check_resting_fills market outcome s =
      check_fills (get (market, outcome) s.books) market outcome s

  unfoldable pub update_book : String → Outcome → OrderBookL2 → SimEngine → SimEngine
  update_book market outcome book s = check_resting_fills market outcome (
      activate_delayed market outcome (
        expire_orders market outcome book.timestamp_ms
          (record s { books = insert (market, outcome) book s.books })))

  abbrev pub notional_of : SimOrder → Decimal
  notional_of o = mul o.order.qty o.order.price

  abbrev pub has_id : String → SimOrder → Bool
  has_id order_id o = o.order_id == order_id

  abbrev pub cancel_delayed : Option SimOrder → String → SimEngine → Option Decimal × SimEngine
  cancel_delayed none order_id s = (none, s)
  cancel_delayed (some o) order_id s =
      (some (notional_of o), record s { delayed = remove_first (has_id order_id) s.delayed })

  abbrev pub cancel_found : Option SimOrder → String → SimEngine → Option Decimal × SimEngine
  cancel_found (some o) order_id s =
      (some (notional_of o), record s { resting = remove order_id s.resting })
  cancel_found none order_id s = cancel_delayed (find (has_id order_id) s.delayed) order_id s

  unfoldable pub cancel : String → SimEngine → Option Decimal × SimEngine
  cancel order_id s = cancel_found (get order_id s.resting) order_id s

  abbrev pub open_order : SimOrder → SimOpenOrder
  open_order o = record {
    order_id = o.order_id;
    market = o.order.market;
    strategy = o.strategy;
    price = o.order.price;
    remaining_qty = o.order.qty;
  }

  unfoldable pub open_orders : SimEngine → List SimOpenOrder
  open_orders s =
      map (λ p. p.1)
        (sort_by_key
          (map (λ o. (o.order_id, open_order o)) (map (λ p. p.1) s.resting ++ s.delayed)))

  unfoldable pub cancel_all : SimEngine → Decimal × SimEngine
  unfolding open_orders
  cancel_all s = (
    sum (map (λ o. mul o.remaining_qty o.price) (open_orders s)),
    record s { resting = []; delayed = [] },
  )

  unfoldable pub resting_committed : SimEngine → Decimal
  resting_committed s = sum (map (λ p. notional_of p.1) s.resting)

  unfoldable pub resting_count : SimEngine → ℕ
  resting_count s = length s.resting

  unfoldable pub resting_order_ids : SimEngine → List String
  resting_order_ids s = map (λ p. p.0) (sort_by_key s.resting)

  unfoldable pub drain_fills : SimEngine → List MarketEvent × SimEngine
  drain_fills s = (s.pending_fills, record s { pending_fills = [] })
