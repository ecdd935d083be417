-- ===== src/Paper/Events.antt =====
-- The entries of the paper ledger and the orders that it tracks.
use pmkit.Accounting.{PortfolioLedger, AccountingError}
use pmkit.Exec.{PlaceOrder, TimeInForce}
use pmkit.Base.Dict.{Dict}
use pmkit.Base.{ℤ, Bool, Option, ℕ, List, String}
use pmkit.Decimals.{Decimals}
use pmkit.Domain.{Side, Outcome}

pub data OrderState : Type 0 where
  immediate resting delayed : OrderState

pub data PlacementOutcome : Type 0 where
  ack : OrderState → PlacementOutcome
  rejected : PlacementOutcome

module _ ⦃D : Decimals⦄ where
  open D use {Decimal}

  pub record RecordedOrder : Type 0 where
    pub market : String
    pub strategy : Option String
    pub outcome : Outcome
    pub side : Side
    pub price : Decimal
    pub qty : Decimal
    pub post_only : Bool
    pub tif : TimeInForce

  unfoldable pub from_order : PlaceOrder → Option String → RecordedOrder
  from_order order strategy = record {
    market = order.market;
    strategy = strategy;
    outcome = order.outcome;
    side = order.side;
    price = order.price;
    qty = order.qty;
    post_only = order.post_only;
    tif = order.tif;
  }

  unfoldable pub to_order : RecordedOrder → PlaceOrder
  to_order order = record {
    market = order.market;
    outcome = order.outcome;
    side = order.side;
    price = order.price;
    qty = order.qty;
    post_only = order.post_only;
    tif = order.tif;
  }

  pub data PaperLedgerEvent : Type 0 where
    cash_movement : Decimal → PaperLedgerEvent
    order_placed : RecordedOrder → PaperLedgerEvent
    -- the placement, the order, its state and the time from which it is active
    order_ack : String → String → OrderState → ℤ → PaperLedgerEvent
    order_rejected : String → String → PaperLedgerEvent
    order_cancelled : String → PaperLedgerEvent
    -- the order, its market and outcome, price, size, side and fee
    fill : String → String → Outcome → Decimal → Decimal → Side → Decimal → PaperLedgerEvent
    -- the market, the outcome, the settled size and the proceeds
    settlement : String → Outcome → Decimal → Decimal → PaperLedgerEvent

  pub record PaperLedgerEntry : Type 0 where
    pub event_id : String
    pub sequence : ℕ
    pub timestamp_ms : ℤ
    pub event : PaperLedgerEvent

  pub record Placement : Type 0 where
    pub order : RecordedOrder
    pub expected_order_id : String
    pub terminal : Option PlacementOutcome

  pub record TrackedOrder : Type 0 where
    pub order : RecordedOrder
    pub state : OrderState
    pub submitted_ms : ℤ
    pub active_at_ms : ℤ

  pub data PaperLedgerError : Type 0 where
    invalid_record : String → PaperLedgerError
    unsupported_version : ℕ → PaperLedgerError
    sequence_gap : ℕ → ℕ → PaperLedgerError
    conflicting_duplicate : String → PaperLedgerError
    inconsistent : String → String → PaperLedgerError
    accounting : AccountingError → PaperLedgerError

  pub record PaperLedger : Type 0 where
    pub account : PortfolioLedger
    pub entries : List PaperLedgerEntry
    pub pending : List PaperLedgerEntry
    pub placements : Dict String Placement
    pub orders : Dict String TrackedOrder
    pub next_sequence : ℕ
    pub next_order_id : ℕ
    pub fill_count : ℕ
    pub id_prefix : String
    pub cash_funded : Bool
