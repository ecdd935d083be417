-- ===== src/Paper/Fresh.antt =====
-- The keys of the placements and of the orders in the paper ledger
-- (crates/pmkit-paper/src/ledger.rs), event by event.
use pmkit.Base.Distinct.{remove-IsDistinct, insert-IsDistinct, IsDistinct}
use pmkit.Domain.{Side, Outcome}
use pmkit.Paper.Ledger.{
  order_id_text, reduced, apply_fill, apply_rejection, LedgerAction, apply_placement, apply_ack,
  apply_settlement, apply_cancel, event_id_text,
}
use pmkit.Paper.Events.{rejected, ack, OrderState, RecordedOrder, PaperLedgerEntry, PaperLedger}
use pmkit.Base.Dict.{get, Dict, get-insert}
use pmkit.Decimals.{Decimals}
use pmkit.Base.{
  some, Option-cases, ℤ, ◌≢◌, ◌==◌, arith, ◌≡◌, ℕ, none, inr, Bool-cases, false, text_key, inl, ◌≤◌,
  String,
}

module _ ⦃D : Decimals⦄ where
  open D use {Decimal}

  pub record IsFresh (l : PaperLedger) : Type 0 where
    pub placement_free : (j : ℕ) → l.next_sequence ≤ j → get (event_id_text j) l.placements ≡ none
    pub distinct : IsDistinct l.orders

  abbrev pub KeepsDistinct : LedgerAction (Unit {0}) → Type 0
  KeepsDistinct m = (l : PaperLedger) → IsDistinct l.orders → IsDistinct (m l).1.orders

  pub ack-KeepsDistinct :
      (e : PaperLedgerEntry) (p o : String) (s : OrderState) (t : ℤ)
      → KeepsDistinct (apply_ack e p o s t)
  unfolding apply_ack
  ack-KeepsDistinct e p o s t l h = elim (Option-cases (get p l.placements)) [
    | inl eq ↦ rw eq h
    | inr (placement, eq) ↦ rw eq (
        ground (
          arith,
          h,
          insert-IsDistinct o
              (record {
                order = placement.order;
                state = s;
                submitted_ms = e.timestamp_ms;
                active_at_ms = t;
              })
              l.orders h,
        ))
  ]

  pub cancel-KeepsDistinct : (e : PaperLedgerEntry) (o : String) → KeepsDistinct (apply_cancel e o)
  unfolding apply_cancel
  cancel-KeepsDistinct e o l h = ground (arith, remove-IsDistinct o l.orders h, h)

  pub fill-KeepsDistinct :
      (e : PaperLedgerEntry) (id market : String) (o : Outcome) (price size : Decimal) (s : Side)
      (fee : Decimal)
      → KeepsDistinct (apply_fill e id market o price size s fee)
  unfolding apply_fill
  fill-KeepsDistinct e id market o price size s fee l h = elim (Option-cases (get id l.orders)) [
    | inl eq ↦ rw eq h
    | inr (tracked, eq) ↦ rw eq (
        ground (
          arith,
          h,
          remove-IsDistinct id l.orders h,
          insert-IsDistinct id (reduced size tracked) l.orders h,
        ))
  ]

  pub placement-KeepsDistinct :
      (e : PaperLedgerEntry) (order : RecordedOrder) → KeepsDistinct (apply_placement e order)
  unfolding apply_placement
  placement-KeepsDistinct e order l h = ground (arith, h)

  pub rejection-KeepsDistinct :
      (e : PaperLedgerEntry) (p o : String) → KeepsDistinct (apply_rejection e p o)
  unfolding apply_rejection
  rejection-KeepsDistinct e p o l h = ground (arith, h)

  pub settlement-KeepsDistinct :
      (e : PaperLedgerEntry) (market : String) (o : Outcome) (size proceeds : Decimal)
      → KeepsDistinct (apply_settlement e market o size proceeds)
  unfolding apply_settlement
  settlement-KeepsDistinct e market o size proceeds l h = ground (arith, h)

  -- A key of the placements that is free stays free, but for the entry's own.
  abbrev pub KeepsFree : PaperLedgerEntry → LedgerAction (Unit {0}) → Type 0
  KeepsFree e m =
      (k : String) (l : PaperLedger)
      → k ≢ e.event_id
      → get k l.placements ≡ none
      → get k (m l).1.placements ≡ none

  pub placement-KeepsFree :
      (e : PaperLedgerEntry) (order : RecordedOrder) → KeepsFree e (apply_placement e order)
  unfolding apply_placement
  placement-KeepsFree e order k l ne h = ground (
    arith,
    text_key.matches_iff e.event_id k,
    h,
    get-insert e.event_id k
        (record {
          order = order;
          expected_order_id = order_id_text l.id_prefix l.next_order_id;
          terminal = none;
        })
        l.placements,
  )

  other_key :
      {V : Type 0} (k p : String) (v : V) (d : Dict String V)
      → get k d ≡ none
      → get p d ≡ some v
      → (p == k) ≡ false
  other_key k p v d free taken = elim (Bool-cases (p == k)) [
    | inl e ↦ cc (free, taken, (text_key.matches_iff p k).0 e)
    | inr e ↦ e
  ]

  pub ack-KeepsFree :
      (e : PaperLedgerEntry) (p o : String) (s : OrderState) (t : ℤ)
      → KeepsFree e (apply_ack e p o s t)
  unfolding apply_ack
  ack-KeepsFree e p o s t k l ne h = elim (Option-cases (get p l.placements)) [
    | inl eq ↦ rw eq h
    | inr (placement, eq) ↦ rw eq (
        ground (
          arith,
          h,
          other_key k p placement l.placements h eq,
          get-insert p k (record placement { terminal = some (ack s) }) l.placements,
        ))
  ]

  pub rejection-KeepsFree :
      (e : PaperLedgerEntry) (p o : String) → KeepsFree e (apply_rejection e p o)
  unfolding apply_rejection
  rejection-KeepsFree e p o k l ne h = elim (Option-cases (get p l.placements)) [
    | inl eq ↦ rw eq h
    | inr (placement, eq) ↦ rw eq (
        ground (
          arith,
          h,
          other_key k p placement l.placements h eq,
          get-insert p k (record placement { terminal = some rejected }) l.placements,
        ))
  ]

  pub cancel-KeepsFree : (e : PaperLedgerEntry) (o : String) → KeepsFree e (apply_cancel e o)
  unfolding apply_cancel
  cancel-KeepsFree e o k l ne h = ground (arith, h)

  pub fill-KeepsFree :
      (e : PaperLedgerEntry) (id market : String) (o : Outcome) (price size : Decimal) (s : Side)
      (fee : Decimal)
      → KeepsFree e (apply_fill e id market o price size s fee)
  unfolding apply_fill
  fill-KeepsFree e id market o price size s fee k l ne h = ground (arith, h)

  pub settlement-KeepsFree :
      (e : PaperLedgerEntry) (market : String) (o : Outcome) (size proceeds : Decimal)
      → KeepsFree e (apply_settlement e market o size proceeds)
  unfolding apply_settlement
  settlement-KeepsFree e market o size proceeds k l ne h = ground (arith, h)
