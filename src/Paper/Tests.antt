-- ===== src/Paper/Tests.antt =====
-- A run of the paper ledger over decimals of six digits, and what storage holds of it.
use pmkit.Paper.Storage.{Stored}
use pmkit.Accounting.{new_ledger}
use pmkit.Paper.Placing.{pending_placement, placed, tracked_as, answered}
use pmkit.Exec.{PlaceOrder, gtc}
use pmkit.Base.{
  ==-refl, show, ◌++◌, join, [], List, ◌∷◌, text_key, ◌+ℤ◌, ◌-ℤ◌, ◌*ℤ◌, refl, ◌≡◌, some, pos, true,
}
use pmkit.Domain.{up, buy}
use pmkit.Paper.Orders.{acknowledge_pending, pending_entry, committed, available_cash}
use pmkit.Base.Dict.{get, insert}
use pmkit.Paper.Events.{
  PaperLedgerEntry, order_placed, RecordedOrder, resting, TrackedOrder, order_ack, PaperLedger,
}
use pmkit.Paper.Ledger.{
  funding, next_entry, new, order_id_text, empty, apply, apply_ack, apply_event, apply_placement,
  append, event_id_text,
}
use pmkit.Paper.History.{appended, History, funded}
use pmkit.Base.Replies.{ok}
use pmkit.Decimals.Millionths.{millionths, whole_of, cents}

abbrev pub bid : PlaceOrder
bid = record {
  market = "btc-5m";
  outcome = up;
  side = buy;
  price = cents 40;
  qty = whole_of 10;
  post_only = true;
  tif = gtc;
}

abbrev pub bid_order : RecordedOrder
bid_order = record {
  market = "btc-5m";
  strategy = some "maker";
  outcome = up;
  side = buy;
  price = cents 40;
  qty = whole_of 10;
  post_only = true;
  tif = gtc;
}

abbrev pub funded_ledger : PaperLedger
funded_ledger = new (whole_of 100) "run"

-- The bid is placed, and then rests.
abbrev pub placed_ledger : PaperLedger
placed_ledger = placed bid_order (pos 1) funded_ledger

abbrev pub resting_ledger : PaperLedger
resting_ledger =
    answered "paper-ledger-1" "run-0" (pending_placement bid_order funded_ledger) resting (pos 2)
      (pos 2) placed_ledger

abbrev pub rested : TrackedOrder
rested = tracked_as bid_order resting (pos 2) (pos 2)

pub placed_run : append (pos 1) (order_placed bid_order) funded_ledger ≡ (ok tt, placed_ledger)
unfolding append apply apply_event apply_placement new empty new_ledger get
placed_run = refl

pub resting_run :
    append (pos 2) (order_ack "paper-ledger-1" "run-0" resting (pos 2)) placed_ledger
    ≡ (ok tt, resting_ledger)
unfolding append apply apply_event apply_ack new empty new_ledger insert get order_id_text
    event_id_text join show
resting_run = refl

abbrev pub placed_history : History placed_ledger
placed_history =
    appended (pos 1) (order_placed bid_order) funded_ledger (funded (whole_of 100) "run") refl
      placed_run

abbrev pub resting_history : History resting_ledger
resting_history =
    appended (pos 2) (order_ack "paper-ledger-1" "run-0" resting (pos 2)) placed_ledger
      placed_history refl resting_run

pub available : available_cash resting_ledger ≡ some (whole_of 96)
unfolding available_cash committed new empty new_ledger insert order_id_text event_id_text ◌-ℤ◌ ◌+ℤ◌
    ◌*ℤ◌
available = refl

-- What storage does with the three entries.
abbrev pub flushed : List PaperLedgerEntry → PaperLedger → PaperLedger
flushed rest l = record l { pending = rest }

abbrev pub entry_0 : PaperLedgerEntry
entry_0 = funding (whole_of 100)

abbrev pub entry_1 : PaperLedgerEntry
entry_1 = next_entry (pos 1) (order_placed bid_order) funded_ledger

abbrev pub entry_2 : PaperLedgerEntry
entry_2 = next_entry (pos 2) (order_ack "paper-ledger-1" "run-0" resting (pos 2)) placed_ledger

abbrev pub placed_storage : Stored [] placed_ledger
placed_storage =
    Stored.appended (pos 1) (order_placed bid_order) [] funded_ledger
      (Stored.funded (whole_of 100) "run") refl placed_run

abbrev pub resting_storage : Stored [] resting_ledger
resting_storage =
    Stored.appended (pos 2) (order_ack "paper-ledger-1" "run-0" resting (pos 2)) [] placed_ledger
      placed_storage refl resting_run

acknowledged_first :
    (l : PaperLedger) (entry : PaperLedgerEntry) (rest : List PaperLedgerEntry)
    → l.pending ≡ entry ∷ rest
    → (pending_entry l ≡ some entry)
      × (acknowledge_pending entry.event_id l ≡ (true, flushed rest l))
unfolding pending_entry acknowledge_pending
acknowledged_first l entry rest h = rw h (refl, rw (==-refl ⦃key = text_key⦄ entry.event_id) refl)

next_stored :
    {es : List PaperLedgerEntry} {l : PaperLedger} (entry : PaperLedgerEntry)
    (rest : List PaperLedgerEntry)
    → Stored es l
    → l.pending ≡ entry ∷ rest
    → Stored (es ++ entry ∷ []) (flushed rest l)
next_stored {es} {l} entry rest s h =
    let (first, taken) = acknowledged_first l entry rest h in
    Stored.acknowledged entry es l s first taken

pub placed_stored : Stored (entry_0 ∷ entry_1 ∷ []) (flushed [] placed_ledger)
unfolding new empty
placed_stored = next_stored entry_1 [] (next_stored entry_0 (entry_1 ∷ []) placed_storage refl) refl

pub resting_stored : Stored (entry_0 ∷ entry_1 ∷ entry_2 ∷ []) (flushed [] resting_ledger)
unfolding new empty
resting_stored =
    next_stored entry_2 []
      (next_stored entry_1 (entry_2 ∷ [])
        (next_stored entry_0 (entry_1 ∷ entry_2 ∷ []) resting_storage refl) refl)
      refl
