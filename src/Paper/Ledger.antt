-- ===== src/Paper/Ledger.antt =====
-- The methods of `PaperLedger` (crates/pmkit-paper/src/ledger.rs). `apply` gives an entry its
-- effect, `append` records and applies a new one, and `reconstruct` applies entries that were
-- stored.
use pmkit.Accounting.Positions.{held}
use pmkit.Accounting.{settle, new_ledger, PortfolioLedger, position, AccountingError}
use pmkit.Base.Dict.{get, insert, remove}
use pmkit.Paper.Events.{
  ack, inconsistent, order_ack, order_cancelled, settlement, OrderState, rejected, RecordedOrder,
  resting, order_placed, immediate, order_rejected, accounting, fill, conflicting_duplicate,
  TrackedOrder, PaperLedgerError, Placement, cash_movement, delayed, PaperLedger, PaperLedgerEntry,
  PaperLedgerEvent,
}
use pmkit.Base.{
  text_key, ℤ, pos, Bool, ◌==◌, join, some, show, ◌++◌, ℕ, if◌then◌else◌, false, ◌||◌, String, ◌+◌,
  [], ◌&&◌, not, none, ◌∷◌, Option, true,
}
use pmkit.Accounting
use pmkit.Decimals.{Decimals}
use pmkit.Domain.{side_key, outcome_key, Money, Side, Outcome}
use pmkit.Base.Replies.{gets, map_err, pure, or_raise, modify, raise_if, Method, ◌>>=◌, ◌>>◌}

abbrev pub is_some {ℓ} : {A : Type ℓ} → Option A → Bool
is_some none = false
is_some (some _) = true

abbrev pub order_state_matches : OrderState → OrderState → Bool
order_state_matches immediate immediate = true
order_state_matches resting resting = true
order_state_matches delayed delayed = true
order_state_matches _ _ = false

-- `format!("paper-ledger-{}", …)` and `format!("{}-{}", …)`
unfoldable pub event_id_text : ℕ → String
event_id_text n = join "paper-ledger-" (show n)

unfoldable pub order_id_text : String → ℕ → String
order_id_text prefix n = join prefix (join "-" (show n))

module _ ⦃D : Decimals⦄ where
  open D use {Decimal, dec_zero, add, sub, mul, div, less, at_most, same, is_sign_negative}

  abbrev pub LedgerAction : Type 0 → Type 0
  LedgerAction A = Method PaperLedger PaperLedgerError A

  -- `PaperLedger::empty`
  unfoldable pub empty : PortfolioLedger → String → PaperLedger
  empty account id_prefix = record {
    account = account;
    entries = [];
    pending = [];
    placements = [];
    orders = [];
    next_sequence = 0;
    next_order_id = 0;
    fill_count = 0;
    id_prefix = id_prefix;
    cash_funded = false;
  }

  abbrev pub funding : Money → PaperLedgerEntry
  funding initial_cash = record {
    event_id = event_id_text 0;
    sequence = 0;
    timestamp_ms = pos 0;
    event = cash_movement initial_cash;
  }

  unfoldable pub new : Money → String → PaperLedger
  unfolding empty new_ledger
  new initial_cash id_prefix = record (empty (new_ledger initial_cash) id_prefix) {
    cash_funded = less dec_zero initial_cash;
    next_sequence = 1;
    entries = funding initial_cash ∷ [];
    pending = funding initial_cash ∷ [];
  }

  unfoldable pub apply_placement : PaperLedgerEntry → RecordedOrder → LedgerAction (Unit {0})
  apply_placement entry order = do
    previous ← gets (λ l. get entry.event_id l.placements)
    modify (λ l. record l {
      placements =
          insert entry.event_id
            (record {
              order = order;
              expected_order_id = order_id_text l.id_prefix l.next_order_id;
              terminal = none;
            })
            l.placements;
    })
    raise_if (is_some previous) (conflicting_duplicate entry.event_id)
    modify (λ l. record l { next_order_id = l.next_order_id + 1 })

  abbrev pub is_settled_or_other : Placement → String → Bool
  is_settled_or_other placement order_id =
      is_some placement.terminal || not (placement.expected_order_id == order_id)

  unfoldable pub apply_ack :
      PaperLedgerEntry → String → String → OrderState → ℤ → LedgerAction (Unit {0})
  apply_ack entry placement_id order_id state active_at_ms = do
    found ← gets (λ l. get placement_id l.placements)
    placement ←
        or_raise found
          (inconsistent entry.event_id (join "ack references unknown placement " placement_id))
    raise_if (is_settled_or_other placement order_id)
        (inconsistent entry.event_id (join "ack does not match pending placement " placement_id))
    modify (λ l. record l {
      orders =
          insert order_id
            (record {
              order = placement.order;
              state = state;
              submitted_ms = entry.timestamp_ms;
              active_at_ms = active_at_ms;
            })
            l.orders;
      placements =
          insert placement_id (record placement { terminal = some (ack state) }) l.placements;
    })

  unfoldable pub apply_rejection : PaperLedgerEntry → String → String → LedgerAction (Unit {0})
  apply_rejection entry placement_id order_id = do
    found ← gets (λ l. get placement_id l.placements)
    placement ←
        or_raise found (
          inconsistent entry.event_id (join "rejection references unknown placement " placement_id))
    raise_if (is_settled_or_other placement order_id) (
        inconsistent entry.event_id
          (join "rejection does not match pending placement " placement_id))
    modify (λ l. record l {
      placements = insert placement_id (record placement { terminal = some rejected }) l.placements;
    })

  unfoldable pub apply_cancel : PaperLedgerEntry → String → LedgerAction (Unit {0})
  apply_cancel entry order_id = do
    found ← gets (λ l. get order_id l.orders)
    tracked ←
        or_raise found
          (inconsistent entry.event_id (join "cancel references unknown order " order_id))
    modify (λ l. record l { orders = remove order_id l.orders })

  -- A call of a method of the account; its errors become `Accounting`.
  abbrev pub on_account : {A : Type 0} → Method PortfolioLedger AccountingError A → LedgerAction A
  on_account m l =
      let (r, account) = m l.account in (map_err accounting r, record l { account = account })

  -- What is left of an order that rests, after a fill of part of it; any other fill ends the order.
  abbrev pub reduced : Decimal → TrackedOrder → TrackedOrder
  reduced fill_size tracked = record tracked {
    order = record tracked.order { qty = sub tracked.order.qty fill_size };
  }

  abbrev pub is_partial : Decimal → TrackedOrder → Bool
  is_partial fill_size tracked =
      order_state_matches tracked.state resting && less fill_size tracked.order.qty

  unfoldable pub apply_fill :
      PaperLedgerEntry
      → String
      → String
      → Outcome
      → Decimal
      → Decimal
      → Side
      → Decimal
      → LedgerAction (Unit {0})
  apply_fill entry order_id market outcome price fill_size direction fee = do
    found ← gets (λ l. get order_id l.orders)
    tracked ←
        or_raise found
          (inconsistent entry.event_id (join "fill references unknown order " order_id))
    raise_if
        (not (tracked.order.market == market)
          || not (tracked.order.outcome == outcome)
          || not (tracked.order.side == direction)
          || less tracked.order.qty fill_size)
        (inconsistent entry.event_id (join "fill does not match order " order_id))
    on_account (
        Accounting.apply_fill (record {
          market = market;
          outcome = outcome;
          side = direction;
          price = price;
          quantity = fill_size;
          fee = fee;
        }))
    modify (λ l. record l {
      orders =
          if is_partial fill_size tracked
          then insert order_id (reduced fill_size tracked) l.orders
          else remove order_id l.orders;
    })
    modify (λ l. record l { fill_count = l.fill_count + 1 })

  unfoldable pub apply_settlement :
      PaperLedgerEntry → String → Outcome → Decimal → Decimal → LedgerAction (Unit {0})
  apply_settlement entry market outcome settled_size proceeds = do
    quantity ← gets (λ l. held market outcome l.account.positions)
    raise_if
        (at_most settled_size dec_zero
          || is_sign_negative proceeds
          || not (same quantity settled_size))
        (inconsistent entry.event_id "settlement does not exactly consume the held position")
    on_account (
        Accounting.settle (record {
          market = market;
          outcome = outcome;
          payout_per_share = div proceeds settled_size;
        }))

  unfoldable pub apply_event : PaperLedgerEntry → PaperLedgerEvent → LedgerAction (Unit {0})
  apply_event entry (cash_movement amount) = pure tt
  apply_event entry (order_placed order) = apply_placement entry order
  apply_event entry (order_ack placement_id order_id state active_at_ms) =
      apply_ack entry placement_id order_id state active_at_ms
  apply_event entry (order_rejected placement_id order_id) =
      apply_rejection entry placement_id order_id
  apply_event entry (order_cancelled order_id) = apply_cancel entry order_id
  apply_event entry (fill order_id market outcome price size side fee) =
      apply_fill entry order_id market outcome price size side fee
  apply_event entry (settlement market outcome settled_size proceeds) =
      apply_settlement entry market outcome settled_size proceeds

  unfoldable pub apply : PaperLedgerEntry → LedgerAction (Unit {0})
  unfolding apply_event
  apply entry = apply_event entry entry.event

  abbrev pub next_entry : ℤ → PaperLedgerEvent → PaperLedger → PaperLedgerEntry
  next_entry timestamp_ms event l = record {
    event_id = event_id_text l.next_sequence;
    sequence = l.next_sequence;
    timestamp_ms = timestamp_ms;
    event = event;
  }

  abbrev pub recorded : PaperLedgerEntry → PaperLedger → PaperLedger
  recorded entry l = record l {
    next_sequence = l.next_sequence + 1;
    entries = l.entries ++ entry ∷ [];
    pending = l.pending ++ entry ∷ [];
  }

  unfoldable pub append : ℤ → PaperLedgerEvent → LedgerAction (Unit {0})
  append timestamp_ms event = do
    entry ← gets (next_entry timestamp_ms event)
    apply entry
    modify (recorded entry)
