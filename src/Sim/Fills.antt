-- ===== src/Sim/Fills.antt =====
-- What was filled of an order, and what is open of it (crates/pmkit-sim/src/lib.rs).
use pmkit.Sim.Events.{book_key}
use pmkit.Base.Dict.{get}
use pmkit.Math.Fill.{walk_book}
use pmkit.Sim.Engine.{take, is_buy, levels_of, submit_taker, take_from}
use pmkit.Math.Fees.{fee_order}
use pmkit.Sim.Events.{SimEngine, SimOrder}
use pmkit.Decimals.{Decimals, add_zero, dec_laws}
use pmkit.Book.{OrderBookL2}
use pmkit.Base.{
  ℤ, text_key, some, if◌then◌else◌, String, ◌==◌, false, refl, [], ◌≡◌, none, Option, ◌∷◌, List,
  ◌++◌, ◌∙◌,
}
use pmkit.Exec.{PlaceOrder}
use pmkit.Event.{
  best_bid_ask, last_trade, tick, book_update, MarketEvent, fill as market_fill,
  order_ack as order_status,
}

module _ ⦃D : Decimals⦄ where
  open D use {Decimal, dec_zero, add, sub}

  -- The size of a fill of the order.
  abbrev pub size_for : String → MarketEvent → Decimal
  size_for id (market_fill _ order_id _ _ _ size _ _ _ _) =
      if order_id == id then size else dec_zero
  size_for id (book_update _ _ _ _ _) = dec_zero
  size_for id (best_bid_ask _ _ _ _ _) = dec_zero
  size_for id (last_trade _ _ _ _ _ _) = dec_zero
  size_for id (order_status _ _ _) = dec_zero
  size_for id (tick _) = dec_zero

  abbrev pub filled : String → List MarketEvent → Decimal
  filled id [] = dec_zero
  filled id (event ∷ events) = add (size_for id event) (filled id events)

  pub filled-append :
      (id : String) (events : List MarketEvent) (event : MarketEvent)
      → filled id (events ++ event ∷ []) ≡ add (filled id events) (size_for id event)
  filled-append id [] event = omega dec_laws
  filled-append id (e ∷ events) event = omega (dec_laws, filled-append id events event)

  abbrev pub open_of : Option SimOrder → Decimal
  open_of none = dec_zero
  open_of (some o) = o.order.qty

  -- What an order that rests has open, and that with what was filled of it.
  abbrev pub open_qty : String → SimEngine → Decimal
  open_qty id s = open_of (get id s.resting)

  abbrev pub placed_qty : String → SimEngine → Decimal
  placed_qty id s = add (open_qty id s) (filled id s.pending_fills)

  -- `submit_taker` touches nothing but the pending fills, and those only for its own order.
  take-keeps :
      (found : Option (Decimal × Decimal)) (order_id : String) (order : PlaceOrder)
      (submitted_ms fill_ms : ℤ) (s : SimEngine)
      → let s' = (take found order_id order submitted_ms fill_ms s).1 in
        (s' ≡ record s { pending_fills = s'.pending_fills })
        × ((id : String)
            → (order_id == id) ≡ false
            → filled id s'.pending_fills ≡ filled id s.pending_fills)
  unfolding fee_order
  take-keeps none order_id order submitted_ms fill_ms s = (refl, λ id ne. refl)
  take-keeps (some (vwap, qty)) order_id order submitted_ms fill_ms s = (
    refl,
    λ id ne. filled-append id s.pending_fills _ ∙ rw ne (add_zero (filled id s.pending_fills)),
  )

  pub submit_taker-keeps :
      (order_id : String) (order : PlaceOrder) (submitted_ms fill_ms : ℤ) (s : SimEngine)
      → let s' = (submit_taker order_id order submitted_ms fill_ms s).1 in
        (s' ≡ record s { pending_fills = s'.pending_fills })
        × ((id : String)
            → (order_id == id) ≡ false
            → filled id s'.pending_fills ≡ filled id s.pending_fills)
  unfolding submit_taker
  submit_taker-keeps order_id order submitted_ms fill_ms s =
      from (get ⦃e = book_key⦄ (order.market, order.outcome) s.books)
    where
      from :
          (book : Option OrderBookL2)
          → let s' = (take_from book order_id order submitted_ms fill_ms s).1 in
            (s' ≡ record s { pending_fills = s'.pending_fills })
            × ((id : String)
                → (order_id == id) ≡ false
                → filled id s'.pending_fills ≡ filled id s.pending_fills)
      from none = (refl, λ id ne. refl)
      from (some book) =
          take-keeps
            (walk_book (levels_of order.side book) order.qty order.price (is_buy order.side))
            order_id order submitted_ms fill_ms s
