-- ===== src/Paper/Placing.antt =====
-- Placing an order in the paper ledger and answering the placement
-- (crates/pmkit-paper/src/ledger.rs, `begin_order`, `acknowledge` and `reject`).
use pmkit.Base.Dict.{get, insert, get-insert}
use pmkit.Paper.Lifecycle.{History-IsFresh}
use pmkit.Paper.History.{appended, History}
use pmkit.Exec.{PlaceOrder}
use pmkit.Decimals.{Decimals}
use pmkit.Paper.Orders.{acknowledge, begin_order}
use pmkit.Paper.Ledger.{
  event_id_text, apply, apply_placement, apply_event, recorded, order_id_text, next_entry,
  apply_ack, append,
}
use pmkit.Base.{text_key, ℤ, Option, refl, ◌+◌, ◌≡◌, arith, ==-refl, some, none, String}
use pmkit.Base.Replies.{ok}
use pmkit.Paper.Events.{
  ack, RecordedOrder, order_ack, PaperLedger, from_order, OrderState, TrackedOrder, Placement,
  order_placed,
}

module _ ⦃D : Decimals⦄ where
  open D use {Decimal}

  abbrev pub pending_placement : RecordedOrder → PaperLedger → Placement
  pending_placement order l = record {
    order = order;
    expected_order_id = order_id_text l.id_prefix l.next_order_id;
    terminal = none;
  }

  abbrev pub placed : RecordedOrder → ℤ → PaperLedger → PaperLedger
  placed order t l = recorded (next_entry t (order_placed order) l) (record l {
    placements = insert (event_id_text l.next_sequence) (pending_placement order l) l.placements;
    next_order_id = l.next_order_id + 1;
  })

  append-placed :
      (order : RecordedOrder) (t : ℤ) (l : PaperLedger)
      → get (event_id_text l.next_sequence) l.placements ≡ none
      → append t (order_placed order) l ≡ (ok tt, placed order t l)
  unfolding append apply apply_event apply_placement
  append-placed order t l h = rw h

  abbrev pub tracked_as : RecordedOrder → OrderState → ℤ → ℤ → TrackedOrder
  tracked_as order state t active = record {
    order = order;
    state = state;
    submitted_ms = t;
    active_at_ms = active;
  }

  abbrev pub answered : String → String → Placement → OrderState → ℤ → ℤ → PaperLedger → PaperLedger
  answered id oid p state active t l =
      recorded (next_entry t (order_ack id oid state active) l) (record l {
        orders = insert oid (tracked_as p.order state t active) l.orders;
        placements = insert id (record p { terminal = some (ack state) }) l.placements;
      })

  append-answered :
      (id : String) (p : Placement) (state : OrderState) (active t : ℤ) (l : PaperLedger)
      → get id l.placements ≡ some p
      → p.terminal ≡ none
      → append t (order_ack id p.expected_order_id state active) l
        ≡ (ok tt, answered id p.expected_order_id p state active t l)
  unfolding append apply apply_event apply_ack
  append-answered id p state active t l h k = rw (h, k, ==-refl p.expected_order_id)

  -- In every ledger that accepted appends have led to, an order can be placed, with the identities
  -- that the numbers of the ledger give; acknowledging the placement under these identities
  -- succeeds, tracks the order as it was placed in the acknowledged state, and the account is
  -- untouched. The result is again a such a ledger.
  pub begin_order-acknowledge :
      (order : PlaceOrder) (strategy : Option String) (t : ℤ) (state : OrderState) (active t2 : ℤ)
      {l : PaperLedger}
      → History l
      → (l1 : PaperLedger) × (l2 : PaperLedger) × (begin_order order strategy t l
          ≡ (ok (event_id_text l.next_sequence, order_id_text l.id_prefix l.next_order_id), l1))
        × (acknowledge
              (event_id_text l.next_sequence)
              (order_id_text l.id_prefix l.next_order_id)
              state
              active
              t2
              l1
            ≡ (ok tt, l2))
        × History l2
        × (get (order_id_text l.id_prefix l.next_order_id) l2.orders
            ≡ some (tracked_as (from_order order strategy) state t2 active))
        × (l2.account ≡ l.account)
        × (l2.next_order_id ≡ l.next_order_id + 1)
  unfolding begin_order acknowledge
  begin_order-acknowledge order strategy t state active t2 {l} h =
      let recorded_order = from_order order strategy in
      let id = event_id_text l.next_sequence in
      let p = pending_placement recorded_order l in
      let l1 = placed recorded_order t l in
      let first =
        append-placed recorded_order t l
          ((History-IsFresh h).placement_free l.next_sequence (omega arith)) in
      let found : get id l1.placements ≡ some p =
        rw (get-insert id id p l.placements, ==-refl id) refl in
      let second = append-answered id p state active t2 l1 found refl in
      let tracked = tracked_as recorded_order state t2 active in
      (
        l1,
        answered id p.expected_order_id p state active t2 l1,
        rw first refl,
        second,
        appended t2 (order_ack id p.expected_order_id state active) l1
            (appended t (order_placed recorded_order) l h refl first) refl second,
        rw
            (
              get-insert p.expected_order_id p.expected_order_id tracked l.orders,
              ==-refl p.expected_order_id,
            )
            refl,
        refl,
        refl,
      )
