-- ===== src/Risk/State.antt =====
-- `LiveRiskState` and its methods (crates/pmkit/src/live_risk.rs).

use pmkit.Live.Admission.{RiskLimits}
use pmkit.Accounting.{unrealized_pnl}
use pmkit.Event.Account.{SettlementIdentity, FillIdentity}
use pmkit.Domain.{Outcome}
use pmkit.Decimals.{is_zero, Decimals}
use pmkit.Base.Dict.{get, Dict, insert, remove}
use pmkit.Base.{
  text_key, false, List, ◌||◌, some, if◌then◌else◌, [], Option, none, Bool, ℕ, ◌∷◌, String,
}
use pmkit.Book.{OrderBookL2, Position, mid_price}
use pmkit.Sim.Events.{book_key}

pub data RiskStateError : Type 0 where
  corrupt : String → RiskStateError

module _ ⦃D : Decimals⦄ where
  open D use {Decimal, dec_zero, add, sub, mul, neg, abs, less, at_most}

  abbrev pub Marks : Type 0
  Marks = Dict (String × Outcome) Decimal

  pub record LiveRiskState : Type 0 where
    pub positions_by_market : Dict String (List Position)
    pub marks : Marks
    pub applied_fills : List FillIdentity
    pub filled_qty_by_order : Dict String Decimal
    pub fees_by_order : Dict String Decimal
    pub applied_settlements : List SettlementIdentity
    pub realized_pnl : Decimal
    pub fees : Decimal
    pub fill_count : ℕ
    pub loss_breached : Bool

  pub record LiveSettlement : Type 0 where
    pub identity : SettlementIdentity
    pub market : String
    pub outcome : Outcome
    pub settled_size : Decimal
    pub proceeds : Decimal

  -- `LiveRiskState::default`
  abbrev pub default_risk : LiveRiskState
  default_risk = record {
    positions_by_market = [];
    marks = [];
    applied_fills = [];
    filled_qty_by_order = [];
    fees_by_order = [];
    applied_settlements = [];
    realized_pnl = dec_zero;
    fees = dec_zero;
    fill_count = 0;
    loss_breached = false;
  }

  -- One position of `mark_positions`, with the total after it.
  abbrev pub marked : Option Decimal → Position → Decimal → Option (Position × Decimal)
  marked none p so_far = none
  marked (some mark) p so_far =
      let pnl = mul p.qty (sub mark p.avg_entry) in
      some (record p { unrealized_pnl = pnl }, add so_far pnl)

  abbrev pub mark_position : Marks → String → Position → Decimal → Option (Position × Decimal)
  mark_position marks market p so_far =
      if is_zero p.qty
      then some (record p { unrealized_pnl = dec_zero }, so_far)
      else marked (get ⦃e = book_key⦄ (market, p.outcome) marks) p so_far

  -- The inner loop. It returns early at a position without a mark, and leaves the rest alone.
  unfoldable pub mark_list :
      Marks → String → List Position → Decimal → List Position × Option Decimal
  mark_list marks market [] so_far = ([], some so_far)
  mark_list marks market (p ∷ positions) so_far = elim (mark_position marks market p so_far) [
    | none ↦ (p ∷ positions, none)
    | some (q, so_far') ↦
        let (rest, found) = mark_list marks market positions so_far' in (q ∷ rest, found)
  ]

  -- The outer loop, in the order in which the map is iterated.
  unfoldable pub mark_markets :
      Marks → Dict String (List Position) → Decimal → Dict String (List Position) × Option Decimal
  unfolding mark_list
  mark_markets marks [] so_far = ([], some so_far)
  mark_markets marks ((market, positions) ∷ d) so_far =
      let (here, found) = mark_list marks market positions so_far in
      elim found [
        | none ↦ ((market, here) ∷ d, none)
        | some so_far' ↦
            let (rest, found_all) = mark_markets marks d so_far' in
            ((market, here) ∷ rest, found_all)
      ]

  unfoldable pub mark_positions :
      Dict String (List Position) → Marks → Dict String (List Position) × Option Decimal
  unfolding mark_markets
  mark_positions positions_by_market marks = mark_markets marks positions_by_market dec_zero

  -- `is_some_and` of the loss test.
  abbrev pub is_breach : Option Decimal → RiskLimits → Bool
  is_breach none limits = false
  is_breach (some pnl) limits = at_most pnl (neg limits.max_loss)

  abbrev pub net_pnl : LiveRiskState → Option Decimal → Option Decimal
  net_pnl s none = none
  net_pnl s (some unrealized_pnl) = some (add (sub s.realized_pnl s.fees) unrealized_pnl)

  unfoldable pub refresh_marks : RiskLimits → LiveRiskState → Option Decimal × LiveRiskState
  unfolding mark_positions
  refresh_marks limits s =
      let (positions, unrealized_pnl) = mark_positions s.positions_by_market s.marks in
      let net = net_pnl s unrealized_pnl in
      (
        net,
        record s {
          positions_by_market = positions;
          loss_breached = is_breach net limits || s.loss_breached;
        },
      )

  abbrev pub mark_book : Option Decimal → String → Outcome → Marks → Marks
  mark_book (some mark) market outcome marks = insert ⦃e = book_key⦄ (market, outcome) mark marks
  mark_book none market outcome marks = remove ⦃e = book_key⦄ (market, outcome) marks

  unfoldable pub update_risk_book :
      String → Outcome → OrderBookL2 → RiskLimits → LiveRiskState → Option Decimal × LiveRiskState
  unfolding refresh_marks
  update_risk_book market outcome book limits s =
      refresh_marks limits (record s { marks = mark_book (mid_price book) market outcome s.marks })

  abbrev pub positions_at : Option (List Position) → List Position
  positions_at none = []
  positions_at (some positions) = positions

  -- `positions`
  unfoldable pub positions_of : String → LiveRiskState → List Position
  positions_of market s = positions_at (get market s.positions_by_market)
