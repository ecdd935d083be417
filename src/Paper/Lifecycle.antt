-- ===== src/Paper/Lifecycle.antt =====
-- The life of an order in the paper ledger (crates/pmkit-paper/src/ledger.rs): the facts on keys of
-- Paper/Fresh at every entry, and at the ledgers that accepted appends lead to.
use pmkit.Base.Dict.{get}
use pmkit.Paper.Replay.{event_id_text_injective}
use pmkit.Decimals.{Decimals}
use pmkit.Paper.Blind.{apply_log}
use pmkit.Base.Replies.{ok}
use pmkit.Paper.History.{drained, funded, append-eq-ok, History, appended}
use pmkit.Base.{ℤ, arith, ap, sym, ◌≡◌, refl, ◌∙◌}
use pmkit.Paper.Ledger.{new, empty, apply_event, append, next_entry, apply, recorded, event_id_text}
use pmkit.Paper.Events.{
  order_ack, fill, order_rejected, PaperLedgerEntry, PaperLedger, order_cancelled, cash_movement,
  order_placed, PaperLedgerEvent, settlement,
}
use pmkit.Paper.Fresh.{
  fill-KeepsFree, cancel-KeepsFree, IsFresh, KeepsDistinct, ack-KeepsDistinct, rejection-KeepsFree,
  cancel-KeepsDistinct, placement-KeepsDistinct, placement-KeepsFree, fill-KeepsDistinct, KeepsFree,
  rejection-KeepsDistinct, settlement-KeepsFree, settlement-KeepsDistinct, ack-KeepsFree,
}

module _ ⦃D : Decimals⦄ where
  open D use {Decimal}

  event-Keeps :
      (e : PaperLedgerEntry) (event : PaperLedgerEvent)
      → KeepsDistinct (apply_event e event) × KeepsFree e (apply_event e event)
  unfolding apply_event
  event-Keeps e (cash_movement amount) = (λ l h. h, λ k l ne h. h)
  event-Keeps e (order_placed order) =
      (placement-KeepsDistinct e order, placement-KeepsFree e order)
  event-Keeps e (order_ack p o s t) = (ack-KeepsDistinct e p o s t, ack-KeepsFree e p o s t)
  event-Keeps e (order_rejected p o) = (rejection-KeepsDistinct e p o, rejection-KeepsFree e p o)
  event-Keeps e (order_cancelled o) = (cancel-KeepsDistinct e o, cancel-KeepsFree e o)
  event-Keeps e (fill id market o price size s fee) = (
    fill-KeepsDistinct e id market o price size s fee,
    fill-KeepsFree e id market o price size s fee,
  )
  event-Keeps e (settlement market o size proceeds) = (
    settlement-KeepsDistinct e market o size proceeds,
    settlement-KeepsFree e market o size proceeds,
  )

  append-IsFresh :
      (t : ℤ) (event : PaperLedgerEvent) (l l' : PaperLedger)
      → IsFresh l
      → append t event l ≡ (ok tt, l')
      → IsFresh l'
  unfolding apply
  append-IsFresh t event l l' f h =
      let (m, applied, same) = append-eq-ok t event l l' h in rw same (recorded-IsFresh m applied)
    where
      recorded-IsFresh :
          (m : PaperLedger)
          → apply (next_entry t event l) l ≡ (ok tt, m)
          → IsFresh (recorded (next_entry t event l) m)
      recorded-IsFresh m applied =
          let e = next_entry t event l in
          let keeps = event-Keeps e event in
          let (_, _, number_kept) = apply_log e l in
          let number_same : m.next_sequence ≡ l.next_sequence =
            ap (λ r. r.1.next_sequence) (sym applied) ∙ number_kept in
          record {
            placement_free = λ j le. rw (ap (λ r. r.1.placements) (sym applied)) (
                keeps.1 (event_id_text j) l
                  (λ same. absurd (
                    omega (arith, number_same, le, event_id_text_injective j l.next_sequence same)))
                  (f.placement_free j (omega (arith, number_same, le))));
            distinct = rw (ap (λ r. r.1.orders) (sym applied)) (keeps.0 l f.distinct);
          }

  pub History-IsFresh : {l : PaperLedger} → History l → IsFresh l
  unfolding new empty
  History-IsFresh (funded cash id_prefix) = record {
    placement_free = λ j le. unfold get in refl;
    distinct = tt;
  }
  History-IsFresh (appended t event l {l'} h c r) =
      append-IsFresh t event l l' (History-IsFresh h) r
  History-IsFresh (drained rest l h) =
      let f = History-IsFresh h in
      record { placement_free = f.placement_free; distinct = f.distinct }
