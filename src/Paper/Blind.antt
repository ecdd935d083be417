-- ===== src/Paper/Blind.antt =====
-- `apply` of crates/pmkit-paper/src/ledger.rs and the log: the list of entries, the list of pending
-- entries and the next sequence number.
use pmkit.Base.{refl, ap, ℤ, ℕ, String, List, arith, ◌≡◌}
use pmkit.Paper.Ledger.{
  apply_event, apply, apply_fill, apply_rejection, apply_ack, apply_settlement, LedgerAction,
  apply_placement, apply_cancel,
}
use pmkit.Paper.Events.{
  cash_movement, order_rejected, order_placed, fill, order_ack, settlement, PaperLedgerEvent,
  order_cancelled, OrderState, PaperLedgerEntry, PaperLedger, RecordedOrder,
}
use pmkit.Domain.{Side, Outcome}
use pmkit.Decimals.{Decimals}

module _ ⦃D : Decimals⦄ where
  open D use {Decimal, dec_zero, add, sub, mul, div, less, at_most, same, is_sign_negative}

  abbrev pub with_log :
      List PaperLedgerEntry → List PaperLedgerEntry → ℕ → PaperLedger → PaperLedger
  with_log entries pending n l = record l {
    entries = entries;
    pending = pending;
    next_sequence = n;
  }

  -- `m` does the same whatever the log holds, and leaves the log alone.
  abbrev pub IsBlind : LedgerAction (Unit {0}) → Type 0
  IsBlind m =
      (es ps : List PaperLedgerEntry) (n : ℕ) (l : PaperLedger)
      → m (with_log es ps n l) ≡ ((m l).0, with_log es ps n (m l).1)

  apply_placement-IsBlind :
      (e : PaperLedgerEntry) (order : RecordedOrder) → IsBlind (apply_placement e order)
  unfolding apply_placement
  apply_placement-IsBlind e order es ps n l = ground arith

  apply_ack-IsBlind :
      (e : PaperLedgerEntry) (p o : String) (s : OrderState) (t : ℤ) → IsBlind (apply_ack e p o s t)
  unfolding apply_ack
  apply_ack-IsBlind e p o s t es ps n l = ground arith

  apply_rejection-IsBlind : (e : PaperLedgerEntry) (p o : String) → IsBlind (apply_rejection e p o)
  unfolding apply_rejection
  apply_rejection-IsBlind e p o es ps n l = ground arith

  apply_cancel-IsBlind : (e : PaperLedgerEntry) (o : String) → IsBlind (apply_cancel e o)
  unfolding apply_cancel
  apply_cancel-IsBlind e o es ps n l = ground arith

  apply_fill-IsBlind :
      (e : PaperLedgerEntry) (id market : String) (o : Outcome) (price size : Decimal) (s : Side)
      (fee : Decimal)
      → IsBlind (apply_fill e id market o price size s fee)
  unfolding apply_fill
  apply_fill-IsBlind e id market o price size s fee es ps n l = ground arith

  apply_settlement-IsBlind :
      (e : PaperLedgerEntry) (market : String) (o : Outcome) (size proceeds : Decimal)
      → IsBlind (apply_settlement e market o size proceeds)
  unfolding apply_settlement
  apply_settlement-IsBlind e market o size proceeds es ps n l = ground arith

  apply_event-IsBlind :
      (e : PaperLedgerEntry) (event : PaperLedgerEvent) → IsBlind (apply_event e event)
  unfolding apply_event
  apply_event-IsBlind e (cash_movement amount) = λ es ps n l. refl
  apply_event-IsBlind e (order_placed order) = apply_placement-IsBlind e order
  apply_event-IsBlind e (order_ack p o s t) = apply_ack-IsBlind e p o s t
  apply_event-IsBlind e (order_rejected p o) = apply_rejection-IsBlind e p o
  apply_event-IsBlind e (order_cancelled o) = apply_cancel-IsBlind e o
  apply_event-IsBlind e (fill id market o price size s fee) =
      apply_fill-IsBlind e id market o price size s fee
  apply_event-IsBlind e (settlement market o size proceeds) =
      apply_settlement-IsBlind e market o size proceeds

  pub apply-IsBlind : (e : PaperLedgerEntry) → IsBlind (apply e)
  unfolding apply
  apply-IsBlind e = apply_event-IsBlind e e.event

  -- So an entry leaves the log and the prefix of the order identities as they were.
  pub apply_log :
      (e : PaperLedgerEntry) (l : PaperLedger)
      → ((apply e l).1.entries ≡ l.entries)
        × ((apply e l).1.pending ≡ l.pending)
        × ((apply e l).1.next_sequence ≡ l.next_sequence)
  apply_log e l =
      let same = apply-IsBlind e l.entries l.pending l.next_sequence l in
      (ap (λ r. r.1.entries) same, ap (λ r. r.1.pending) same, ap (λ r. r.1.next_sequence) same)
