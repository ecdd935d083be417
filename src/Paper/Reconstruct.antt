-- ===== src/Paper/Reconstruct.antt =====
-- `deduplicate` and `PaperLedger::reconstruct` of crates/pmkit-paper/src/ledger.rs.
use pmkit.Accounting.{sum, new_ledger}
use pmkit.Base.Dict.{get, Dict, insert}
use pmkit.Paper.Ledger.{is_some, empty, apply, order_state_matches, LedgerAction}
use pmkit.Paper.Events.{
  order_placed, PaperLedgerEvent, conflicting_duplicate, settlement, PaperLedger, order_ack,
  PaperLedgerError, Placement, order_cancelled, inconsistent, order_rejected, cash_movement,
  PaperLedgerEntry, fill, immediate, sequence_gap, TrackedOrder,
}
use pmkit.Paper.Equality.{entry_matches}
use pmkit.Base.{
  number_key, text_key, List, not, [], find, ◌+◌, Bool, ◌==◌, none, Option, ◌++◌, ◌∷◌, String,
  if◌then◌else◌, some,
}
use pmkit.Decimals.{Decimals}
use pmkit.Base.Replies.{◌>>◌, ◌>>=◌, pure, raise_if, modify, raise, gets, Reply, ok, err, panic}

module _ ⦃D : Decimals⦄ where
  open D use {Decimal, dec_zero, less}

  -- The loop of `deduplicate`: the first entry of an identity counts, an equal one is dropped, and
  -- a different one is a conflict.
  unfoldable pub deduplicate_from :
      Dict String PaperLedgerEntry
      → List PaperLedgerEntry
      → List PaperLedgerEntry
      → Reply PaperLedgerError (List PaperLedgerEntry)
  deduplicate_from seen unique [] = ok unique
  deduplicate_from seen unique (entry ∷ entries) = elim (get entry.event_id seen) [
    | some previous ↦
        if entry_matches previous entry
        then deduplicate_from seen unique entries
        else err (conflicting_duplicate entry.event_id)
    | none ↦ deduplicate_from (insert entry.event_id entry seen) (unique ++ entry ∷ []) entries
  ]

  unfoldable pub deduplicate :
      List PaperLedgerEntry → Reply PaperLedgerError (List PaperLedgerEntry)
  unfolding deduplicate_from
  deduplicate = deduplicate_from [] []

  -- The `filter_map` that picks the cash movements.
  abbrev pub cash_of : PaperLedgerEvent → List Decimal
  cash_of (cash_movement amount) = amount ∷ []
  cash_of (order_placed _) = []
  cash_of (order_ack _ _ _ _) = []
  cash_of (order_rejected _ _) = []
  cash_of (order_cancelled _) = []
  cash_of (fill _ _ _ _ _ _ _) = []
  cash_of (settlement _ _ _ _) = []

  unfoldable pub cash_movements : List PaperLedgerEntry → List Decimal
  cash_movements [] = []
  cash_movements (entry ∷ entries) = cash_of entry.event ++ cash_movements entries

  -- One round of the replaying loop, and the loop.
  unfoldable pub replay_entry : PaperLedgerEntry → LedgerAction (Unit {0})
  replay_entry entry = do
    expected ← gets (λ l. l.next_sequence)
    raise_if (not (entry.sequence == expected)) (sequence_gap expected entry.sequence)
    apply entry
    modify (λ l. record l { next_sequence = l.next_sequence + 1 })

  unfoldable pub replay : List PaperLedgerEntry → LedgerAction (Unit {0})
  replay [] = pure tt
  replay (entry ∷ entries) = do replay_entry entry; replay entries

  abbrev pub is_unanswered : String × Placement → Bool
  is_unanswered (_, placement) = not (is_some placement.terminal)

  abbrev pub is_immediate : String × TrackedOrder → Bool
  is_immediate (_, tracked) = order_state_matches tracked.state immediate

  abbrev pub refuse_placement : Option (String × Placement) → LedgerAction (Unit {0})
  refuse_placement none = pure tt
  refuse_placement (some (event_id, _)) =
      raise (inconsistent event_id "order placement has no acknowledgement or rejection")

  abbrev pub refuse_order : Option (String × TrackedOrder) → LedgerAction (Unit {0})
  refuse_order none = pure tt
  refuse_order (some (order_id, _)) =
      raise (inconsistent order_id "immediate order has no terminal fill")

  -- The two checks on the state that was rebuilt.
  unfoldable pub check_complete : LedgerAction (Unit {0})
  check_complete = do
    unanswered ← gets (λ l. find is_unanswered l.placements)
    refuse_placement unanswered
    open_immediate ← gets (λ l. find is_immediate l.orders)
    refuse_order open_immediate

  abbrev pub initial : List PaperLedgerEntry → String → PaperLedger
  initial unique id_prefix =
      let initial_cash = sum (cash_movements unique) in
      record (empty (new_ledger initial_cash) id_prefix) {
        cash_funded = less dec_zero initial_cash;
      }

  abbrev pub rebuild : List PaperLedgerEntry → LedgerAction (Unit {0})
  rebuild unique = do replay unique; check_complete; modify (λ l. record l { entries = unique })

  abbrev pub returned :
      Reply PaperLedgerError (Unit {0}) × PaperLedger → Reply PaperLedgerError PaperLedger
  returned (ok _, l) = ok l
  returned (err e, l) = err e
  returned (panic, l) = panic

  abbrev pub reconstruct_unique :
      String → Reply PaperLedgerError (List PaperLedgerEntry) → Reply PaperLedgerError PaperLedger
  reconstruct_unique id_prefix (ok unique) = returned (rebuild unique (initial unique id_prefix))
  reconstruct_unique id_prefix (err e) = err e
  reconstruct_unique id_prefix panic = panic

  unfoldable pub reconstruct : List PaperLedgerEntry → String → Reply PaperLedgerError PaperLedger
  reconstruct entries id_prefix = reconstruct_unique id_prefix (deduplicate entries)
