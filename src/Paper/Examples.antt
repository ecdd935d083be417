-- ===== src/Paper/Examples.antt =====
-- The theorems on the paper ledger at the run of the tests.
use pmkit.Paper.Redelivery.{reconstruct-redelivered}
use pmkit.Paper.Cash.{record_fill-available_cash, fill_event}
use pmkit.Paper.Placing.{tracked_as, begin_order-acknowledge, pending_placement}
use pmkit.Base.Dict.{get, insert}
use pmkit.Paper.Refusals.{append-refused}
use pmkit.Paper.History.{reconstruct-History, History}
use pmkit.Accounting.Positions.{IsValid}
use pmkit.Paper.Soundness.{History-IsValid}
use pmkit.Paper.Orders.{begin_order, available_cash, record_fill, acknowledge}
use pmkit.Base.Replies.{ok, err}
use pmkit.Paper.Events.{inconsistent, order_cancelled, from_order, PaperLedger, delayed}
use pmkit.Event.{maker}
use pmkit.Paper.Ledger.{
  new, order_id_text, empty, apply_cancel, apply_event, append, event_id_text, apply,
}
use pmkit.Paper.Tests.{
  bid, entry_2, funded_ledger, resting_history, entry_1, entry_0, bid_order, resting_stored,
  placed_stored, available, flushed, resting_ledger, rested, placed_ledger,
}
use pmkit.Paper.Reconstruct.{returned, check_complete, reconstruct, is_unanswered, is_immediate}
use pmkit.Paper.Storage.{reconstruct_complete, reconstruct-unanswered, stored_entries}
use pmkit.Base.{
  inr, inl, text_key, ◌*ℤ◌, refl, pos, find, arith, none, ◌+ℤ◌, join, some, show, ◌-ℤ◌, ◌∷◌, ◌≡◌,
  ◌++◌, [],
}
use pmkit.Decimals.Millionths.{millionths, whole_of, cents, times}

reconstruct-History_example :
    reconstruct resting_ledger.entries "run"
    ≡ returned (check_complete (record resting_ledger { pending = [] }))
unfolding new
reconstruct-History_example = reconstruct-History resting_history

stored_entries_example :
    (entry_0 ∷ entry_1 ∷ []) ++ (flushed [] placed_ledger).pending
    ≡ (flushed [] placed_ledger).entries
stored_entries_example = stored_entries placed_stored

all_answered : find is_unanswered resting_ledger.placements ≡ none
unfolding new empty insert event_id_text join show
all_answered = refl

none_immediate : find is_immediate resting_ledger.orders ≡ none
unfolding new empty insert
none_immediate = refl

reconstruct_complete_example :
    reconstruct (entry_0 ∷ entry_1 ∷ entry_2 ∷ []) "run" ≡ ok (flushed [] resting_ledger)
unfolding new
reconstruct_complete_example = reconstruct_complete resting_stored refl all_answered none_immediate

first_unanswered :
    find is_unanswered placed_ledger.placements
    ≡ some ("paper-ledger-1", pending_placement bid_order funded_ledger)
unfolding new empty insert event_id_text join show
first_unanswered = refl

reconstruct-unanswered_example :
    (reconstruct (entry_0 ∷ entry_1 ∷ []) "run"
      ≡ err (inconsistent "paper-ledger-1" "order placement has no acknowledgement or rejection"))
    × ((pending_placement bid_order funded_ledger).terminal ≡ none)
unfolding new
reconstruct-unanswered_example =
    reconstruct-unanswered "paper-ledger-1" (pending_placement bid_order funded_ledger)
      placed_stored refl first_unanswered

unknown_order :
    append (pos 3) (order_cancelled "run-9") resting_ledger
    ≡ (err (inconsistent "paper-ledger-3" "cancel references unknown order run-9"), resting_ledger)
unfolding append apply apply_event apply_cancel new empty insert get event_id_text join show
    order_id_text
unknown_order = refl

append-refused_example : resting_ledger ≡ record resting_ledger {
  account = record resting_ledger.account { fees = resting_ledger.account.fees };
}
append-refused_example =
    append-refused (pos 3) (order_cancelled "run-9")
      (inconsistent "paper-ledger-3" "cancel references unknown order run-9") resting_ledger
      resting_history unknown_order

History-IsValid_example : IsValid resting_ledger.account.positions
History-IsValid_example = History-IsValid resting_history

begin_order-acknowledge_example :
    (l1 : PaperLedger) × (l2 : PaperLedger) × (begin_order bid (some "maker") (pos 5) resting_ledger
      ≡ (ok (event_id_text 3, order_id_text "run" 1), l1))
    × (acknowledge (event_id_text 3) (order_id_text "run" 1) delayed (pos 8) (pos 6) l1
        ≡ (ok tt, l2))
    × History l2
    × (get (order_id_text "run" 1) l2.orders
        ≡ some (tracked_as (from_order bid (some "maker")) delayed (pos 6) (pos 8)))
    × (l2.account ≡ resting_ledger.account)
    × (l2.next_order_id ≡ 2)
unfolding new empty
begin_order-acknowledge_example =
    begin_order-acknowledge bid (some "maker") (pos 5) delayed (pos 8) (pos 6) resting_history

rests : get "run-0" resting_ledger.orders ≡ some rested
unfolding new empty insert get
rests = refl

record_fill-available_cash_example :
    let (r, l') =
      record_fill
        (fill_event none maker (pos 7) "run-0" rested (cents 30) (whole_of 6) (cents 1))
        resting_ledger in
    (r ≡ ok tt)
    × (available_cash l'
        ≡ some ((whole_of 96 +ℤ times (cents 40 -ℤ cents 30) (whole_of 6)) -ℤ cents 1))
unfolding ◌*ℤ◌
record_fill-available_cash_example =
    record_fill-available_cash none maker (pos 7) "run-0" rested (cents 30) (whole_of 6) (cents 1)
      (whole_of 96) resting_history rests refl refl (omega arith) (omega arith) (omega arith)
      (omega arith) refl refl refl available

reconstruct-redelivered_example :
    reconstruct (resting_ledger.entries ++ entry_2 ∷ entry_0 ∷ entry_2 ∷ []) "run"
    ≡ reconstruct resting_ledger.entries "run"
unfolding new empty
reconstruct-redelivered_example =
    reconstruct-redelivered (entry_2 ∷ entry_0 ∷ entry_2 ∷ []) resting_history
      (inr (inr (inl refl)), (inl refl, (inr (inr (inl refl)), tt)))
