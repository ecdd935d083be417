-- ===== src/Paper/Prefix.antt =====
-- `apply` of crates/pmkit-paper/src/ledger.rs and the prefix of the order identities.
use pmkit.Base.{ℤ, arith, ◌≡◌, String, refl}
use pmkit.Domain.{Side, Outcome}
use pmkit.Paper.Events.{
  order_cancelled, order_rejected, PaperLedger, PaperLedgerEvent, order_ack, settlement,
  order_placed, PaperLedgerEntry, RecordedOrder, cash_movement, OrderState, fill,
}
use pmkit.Paper.Ledger.{
  apply_cancel, apply_event, apply_settlement, apply_placement, apply_rejection, apply_ack,
  LedgerAction, apply, apply_fill,
}
use pmkit.Decimals.{Decimals}

module _ ⦃D : Decimals⦄ where
  open D use {Decimal}

  abbrev KeepsNames : LedgerAction (Unit {0}) → Type 0
  KeepsNames m = (l : PaperLedger) → (m l).1.id_prefix ≡ l.id_prefix

  placement-KeepsNames :
      (e : PaperLedgerEntry) (order : RecordedOrder) → KeepsNames (apply_placement e order)
  unfolding apply_placement
  placement-KeepsNames e order l = ground arith

  ack-KeepsNames :
      (e : PaperLedgerEntry) (p o : String) (s : OrderState) (t : ℤ)
      → KeepsNames (apply_ack e p o s t)
  unfolding apply_ack
  ack-KeepsNames e p o s t l = ground arith

  rejection-KeepsNames : (e : PaperLedgerEntry) (p o : String) → KeepsNames (apply_rejection e p o)
  unfolding apply_rejection
  rejection-KeepsNames e p o l = ground arith

  cancel-KeepsNames : (e : PaperLedgerEntry) (o : String) → KeepsNames (apply_cancel e o)
  unfolding apply_cancel
  cancel-KeepsNames e o l = ground arith

  fill-KeepsNames :
      (e : PaperLedgerEntry) (id market : String) (o : Outcome) (price size : Decimal) (s : Side)
      (fee : Decimal)
      → KeepsNames (apply_fill e id market o price size s fee)
  unfolding apply_fill
  fill-KeepsNames e id market o price size s fee l = ground arith

  settlement-KeepsNames :
      (e : PaperLedgerEntry) (market : String) (o : Outcome) (size proceeds : Decimal)
      → KeepsNames (apply_settlement e market o size proceeds)
  unfolding apply_settlement
  settlement-KeepsNames e market o size proceeds l = ground arith

  event-KeepsNames :
      (e : PaperLedgerEntry) (event : PaperLedgerEvent) → KeepsNames (apply_event e event)
  unfolding apply_event
  event-KeepsNames e (cash_movement amount) = λ l. refl
  event-KeepsNames e (order_placed order) = placement-KeepsNames e order
  event-KeepsNames e (order_ack p o s t) = ack-KeepsNames e p o s t
  event-KeepsNames e (order_rejected p o) = rejection-KeepsNames e p o
  event-KeepsNames e (order_cancelled o) = cancel-KeepsNames e o
  event-KeepsNames e (fill id market o price size s fee) =
      fill-KeepsNames e id market o price size s fee
  event-KeepsNames e (settlement market o size proceeds) =
      settlement-KeepsNames e market o size proceeds

  pub apply_names : (e : PaperLedgerEntry) (l : PaperLedger) → (apply e l).1.id_prefix ≡ l.id_prefix
  unfolding apply
  apply_names e = event-KeepsNames e e.event
