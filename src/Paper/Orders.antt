-- ===== src/Paper/Orders.antt =====
-- What the executor calls of `PaperLedger` (crates/pmkit-paper/src/ledger.rs): the life of an
-- order, settlements, the cash that is free, and the entries that wait for storage.
use pmkit.Decimals.{Decimals}
use pmkit.Base.Replies.{◌>>◌, ◌>>=◌, raise, modify, gets, pure}
use pmkit.Exec.{PlaceOrder}
use pmkit.Paper.Ledger.{order_id_text, event_id_text, LedgerAction, order_state_matches, append}
use pmkit.Base.Dict.{Dict, contains_key}
use pmkit.Domain.{outcome_key, side_key, buy, Outcome, Money}
use pmkit.Paper.Events.{
  from_order, fill, PaperLedgerEntry, order_ack, delayed, settlement, PaperLedger, order_rejected,
  invalid_record, TrackedOrder, order_cancelled, OrderState, order_placed,
}
use pmkit.Base.{
  leb_ℤ, text_key, ℤ, none, [], ◌&&◌, ◌==◌, map, ◌∷◌, keep, pos, false, some, Bool, if◌then◌else◌,
  true, Option, String, List,
}
use pmkit.Event
use pmkit.Event.{MarketEvent, book_update, best_bid_ask, last_trade, tick}

module _ ⦃D : Decimals⦄ where
  open D use {Decimal, dec_zero, add, sub, mul}

  -- The notional of the buy orders in `orders.values()`.
  abbrev pub notional : TrackedOrder → Decimal
  notional tracked = mul tracked.order.price tracked.order.qty

  abbrev pub held_by : TrackedOrder → Decimal
  held_by tracked = if tracked.order.side == buy then notional tracked else dec_zero

  unfoldable pub committed : Dict String TrackedOrder → Decimal
  committed [] = dec_zero
  committed ((_, tracked) ∷ orders) = add (held_by tracked) (committed orders)

  unfoldable pub available_cash : PaperLedger → Option Money
  unfolding committed
  available_cash l = if l.cash_funded then some (sub l.account.cash (committed l.orders)) else none

  unfoldable pub begin_order : PlaceOrder → Option String → ℤ → LedgerAction (String × String)
  begin_order order strategy timestamp_ms = do
    placement_id ← gets (λ l. event_id_text l.next_sequence)
    expected_order_id ← gets (λ l. order_id_text l.id_prefix l.next_order_id)
    append timestamp_ms (order_placed (from_order order strategy))
    pure (placement_id, expected_order_id)

  unfoldable pub acknowledge : String → String → OrderState → ℤ → ℤ → LedgerAction (Unit {0})
  acknowledge placement_id order_id state active_at_ms timestamp_ms =
      append timestamp_ms (order_ack placement_id order_id state active_at_ms)

  unfoldable pub reject : String → String → ℤ → LedgerAction (Unit {0})
  reject placement_id order_id timestamp_ms =
      append timestamp_ms (order_rejected placement_id order_id)

  unfoldable pub contains_order : String → PaperLedger → Bool
  contains_order order_id l = contains_key order_id l.orders

  abbrev cancel_if : Bool → String → ℤ → LedgerAction (Unit {0})
  cancel_if true order_id timestamp_ms = append timestamp_ms (order_cancelled order_id)
  cancel_if false order_id timestamp_ms = pure tt

  unfoldable pub cancel : String → ℤ → LedgerAction (Unit {0})
  cancel order_id timestamp_ms = do
    known ← gets (λ l. contains_key order_id l.orders)
    cancel_if known order_id timestamp_ms

  abbrev not_a_fill : LedgerAction (Unit {0})
  not_a_fill = raise (invalid_record "paper ledger received a non-fill event as a fill")

  unfoldable pub record_fill : MarketEvent → LedgerAction (Unit {0})
  record_fill (Event.fill _ order_id market outcome price size side fee _ timestamp_ms) =
      append timestamp_ms (fill order_id market outcome price size side fee)
  record_fill (book_update _ _ _ _ _) = not_a_fill
  record_fill (best_bid_ask _ _ _ _ _) = not_a_fill
  record_fill (last_trade _ _ _ _ _ _) = not_a_fill
  record_fill (Event.order_ack _ _ _) = not_a_fill
  record_fill (tick _) = not_a_fill

  unfoldable pub settle_position :
      String → Outcome → Decimal → Decimal → ℤ → LedgerAction (Unit {0})
  settle_position market outcome settled_size proceeds timestamp_ms =
      append timestamp_ms (settlement market outcome settled_size proceeds)

  abbrev is_maturing : String → Outcome → ℤ → String × TrackedOrder → Bool
  is_maturing market outcome timestamp_ms (_, tracked) =
      order_state_matches tracked.state delayed
      && tracked.order.market == market
      && tracked.order.outcome == outcome
      && leb_ℤ tracked.active_at_ms timestamp_ms

  unfoldable pub maturing_delayed : String → Outcome → ℤ → PaperLedger → List String
  maturing_delayed market outcome timestamp_ms l =
      map (λ p. p.0) (keep (is_maturing market outcome timestamp_ms) l.orders)

  unfoldable pub drain_pending : LedgerAction (List PaperLedgerEntry)
  drain_pending = do
    taken ← gets (λ l. l.pending)
    modify (λ l. record l { pending = [] })
    pure taken

  abbrev first : List PaperLedgerEntry → Option PaperLedgerEntry
  first [] = none
  first (entry ∷ _) = some entry

  unfoldable pub pending_entry : PaperLedger → Option PaperLedgerEntry
  pending_entry l = first l.pending

  abbrev acknowledged : String → List PaperLedgerEntry → Bool × List PaperLedgerEntry
  acknowledged event_id [] = (false, [])
  acknowledged event_id (entry ∷ rest) =
      if entry.event_id == event_id then (true, rest) else (false, entry ∷ rest)

  unfoldable pub acknowledge_pending : String → PaperLedger → Bool × PaperLedger
  acknowledge_pending event_id l =
      let (found, rest) = acknowledged event_id l.pending in (found, record l { pending = rest })

  unfoldable pub last_timestamp_ms : List PaperLedgerEntry → ℤ
  last_timestamp_ms [] = pos 0
  last_timestamp_ms (entry ∷ []) = entry.timestamp_ms
  last_timestamp_ms (_ ∷ entry ∷ entries) = last_timestamp_ms (entry ∷ entries)
