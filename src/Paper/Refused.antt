-- ===== src/Paper/Refused.antt =====
-- A run of the paper ledger in which a fill is refused: a resting sell of ten shares that are not
-- held. Its fee stays charged in memory.
use pmkit.Paper.Charges.{recorded_fees}
use pmkit.Base.Dict.{get, insert}
use pmkit.Domain.{up, sell}
use pmkit.Paper.Reconstruct.{check_complete, returned, reconstruct}
use pmkit.Base.Replies.{ok, err}
use pmkit.Accounting.{new_ledger, insufficient_position, validate_non_negative, position, trade}
use pmkit.Accounting.Positions.{IsValid}
use pmkit.Paper.Events.{
  fill, order_ack, PaperLedgerError, RecordedOrder, PaperLedgerEvent, resting, order_placed,
  PaperLedger, accounting,
}
use pmkit.Base.{join, show, [], ◌+ℤ◌, ◌≡◌, pos, refl}
use pmkit.Paper.Ledger.{
  apply_fill, new, order_id_text, apply_event, event_id_text, apply, empty, append, apply_placement,
  apply_ack,
}
use pmkit.Decimals.Millionths.{millionths, whole_of, cents}
use pmkit.Accounting
use pmkit.Paper.Tests.{bid_order, funded_ledger}
use pmkit.Paper.Runs.{Run, reconstruct-Run, Run-IsValid, charged_with}
use pmkit.Paper.Placing.{pending_placement, placed, answered}

abbrev ask_order : RecordedOrder
ask_order = record bid_order { side = sell }

abbrev offered_ledger : PaperLedger
offered_ledger = placed ask_order (pos 1) funded_ledger

abbrev resting_ask : PaperLedger
resting_ask =
    answered "paper-ledger-1" "run-0" (pending_placement ask_order funded_ledger) resting (pos 2)
      (pos 2) offered_ledger

abbrev short_fill : PaperLedgerEvent
short_fill = fill "run-0" "btc-5m" up (cents 40) (whole_of 10) sell (cents 1)

abbrev overcharged : PaperLedger
overcharged = charged_with (cents 1) resting_ask

offered_run : append (pos 1) (order_placed ask_order) funded_ledger ≡ (ok tt, offered_ledger)
unfolding append apply apply_event apply_placement new empty new_ledger get
offered_run = refl

answered_run :
    append (pos 2) (order_ack "paper-ledger-1" "run-0" resting (pos 2)) offered_ledger
    ≡ (ok tt, resting_ask)
unfolding append apply apply_event apply_ack new empty new_ledger insert get order_id_text
    event_id_text join show
answered_run = refl

abbrev no_shares : PaperLedgerError
no_shares = accounting (insufficient_position "btc-5m" up (whole_of 10) (whole_of 0))

refused_fill : append (pos 3) short_fill resting_ask ≡ (err no_shares, overcharged)
unfolding append apply apply_event apply_fill Accounting.apply_fill trade position
    validate_non_negative new empty new_ledger insert get order_id_text event_id_text join show ◌+ℤ◌
refused_fill = refl

abbrev refused_run : Run overcharged
refused_run =
    Run.refused (pos 3) short_fill no_shares resting_ask
      (Run.appended (pos 2) (order_ack "paper-ledger-1" "run-0" resting (pos 2)) offered_ledger
        (Run.appended (pos 1) (order_placed ask_order) funded_ledger
          (Run.funded (whole_of 100) "run") refl offered_run)
        refl answered_run)
      refused_fill

-- In memory a cent is charged; the entries charge nothing.
reconstruct-Run_example :
    reconstruct overcharged.entries "run"
    ≡ returned (
        check_complete
          (charged_with (recorded_fees overcharged.entries) (record overcharged { pending = [] })))
unfolding new empty
reconstruct-Run_example = reconstruct-Run refused_run

fees_differ : (overcharged.account.fees ≡ cents 1) × (recorded_fees overcharged.entries ≡ pos 0)
unfolding new empty ◌+ℤ◌
fees_differ = (refl, refl)

Run-IsValid_example : IsValid overcharged.account.positions
Run-IsValid_example = Run-IsValid refused_run
