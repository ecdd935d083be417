-- ===== src/Risk/Updates.antt =====
-- The methods of `LiveRiskState` that apply account facts, and its sums
-- (crates/pmkit/src/live_risk.rs).
use pmkit.Live.Admission.{RiskLimits}
use pmkit.Decimals.{is_zero, Decimals}
use pmkit.Domain.{side_key, buy, sell, Outcome, Side}
use pmkit.Decimals.MinMax.{dec_min}
use pmkit.Accounting.Exposure.{or_zero, PositionExposure, bump}
use pmkit.Base.{
  text_key, Key, String, update_first, if◌then◌else◌, find, map, Option, true, ◌==◌, List, Bool,
  none, ◌||◌, ◌&&◌, not, false, keep, ◌+◌, [], ◌∷◌, some,
}
use pmkit.Event.Account.{
  account_settlement, account_ack, PmAccountEvent, FillIdentity, account_status, account_rejected,
  account_fill, account_cancelled,
}
use pmkit.Accounting.{sum}
use pmkit.Book.{Position}
use pmkit.Base.Dict.{get, Dict, insert, contains_key}
use pmkit.Risk.State.{
  refresh_marks, Marks, LiveRiskState, positions_of, LiveSettlement, RiskStateError, net_pnl,
  corrupt,
}
use pmkit.Event.{book_update, last_trade, MarketEvent, best_bid_ask, tick, fill as market_fill}
use pmkit.Base.Replies.{Method, ok, err, map_ok}
use pmkit.Event.{order_ack as order_status}
use pmkit.Book.Levels.{is_outcome, apply_fill as apply_to_positions}
use pmkit.Sim.Events.{book_key}
use pmkit.Event.Account.{fill_identity_key, settlement_identity_key}

-- `contains` of a hash set
abbrev pub is_member {ℓ} : {A : Type ℓ} ⦃key : Key A⦄ → A → List A → Bool
is_member a [] = false
is_member a (b ∷ bs) = b == a || is_member a bs

module _ ⦃D : Decimals⦄ where
  open D use {Decimal, dec_zero, add, sub, mul, neg, abs, less, at_most}

  abbrev pub closing_size : Side → Decimal → Position → Decimal
  closing_size side size p =
      if (less dec_zero p.qty && side == sell) || (less p.qty dec_zero && side == buy)
      then dec_min (abs p.qty) size
      else dec_zero

  abbrev pub realized_by : Option Position → Side → Decimal → Decimal → Decimal
  realized_by none side price size = dec_zero
  realized_by (some p) side price size =
      if less dec_zero p.qty
      then mul (sub price p.avg_entry) (closing_size side size p)
      else mul (sub p.avg_entry price) (closing_size side size p)

  -- What a fill that is new adds, before the marks are refreshed.
  abbrev pub with_fill :
      FillIdentity
      → String
      → String
      → Outcome
      → Decimal
      → Decimal
      → Side
      → Decimal
      → LiveRiskState
      → LiveRiskState
  with_fill identity order_id market outcome price size side fee s =
      let positions = positions_of market s in
      record s {
        applied_fills = identity ∷ s.applied_fills;
        filled_qty_by_order = bump order_id size s.filled_qty_by_order;
        fees_by_order = bump order_id fee s.fees_by_order;
        realized_pnl =
            add s.realized_pnl (realized_by (find (is_outcome outcome) positions) side price size);
        positions_by_market =
            insert market (apply_to_positions outcome side price size positions)
              s.positions_by_market;
        fees = add s.fees fee;
        fill_count = s.fill_count + 1;
      }

  unfoldable pub apply_risk_fill :
      MarketEvent → FillIdentity → RiskLimits → LiveRiskState → Bool × LiveRiskState
  apply_risk_fill (market_fill _ order_id market outcome price size side fee _ _) identity limits
        s =
      if is_member identity s.applied_fills then (false, s) else (
        true,
        (refresh_marks limits (with_fill identity order_id market outcome price size side fee s)).1,
      )
  apply_risk_fill (book_update _ _ _ _ _) identity limits s = (false, s)
  apply_risk_fill (best_bid_ask _ _ _ _ _) identity limits s = (false, s)
  apply_risk_fill (last_trade _ _ _ _ _ _) identity limits s = (false, s)
  apply_risk_fill (order_status _ _ _) identity limits s = (false, s)
  apply_risk_fill (tick _) identity limits s = (false, s)

  abbrev pub RiskAction : Type 0 → Type 0
  RiskAction A = Method LiveRiskState RiskStateError A

  abbrev pub with_settlement : LiveSettlement → Position → LiveRiskState → LiveRiskState
  with_settlement closed p s = record s {
    applied_settlements = closed.identity ∷ s.applied_settlements;
    realized_pnl = add s.realized_pnl (sub closed.proceeds (mul p.avg_entry closed.settled_size));
    positions_by_market =
        insert closed.market
          (keep (λ q. not (is_zero q.qty))
            (update_first (is_outcome closed.outcome)
              (λ q. record q { qty = sub q.qty closed.settled_size })
              (positions_of closed.market s)))
          s.positions_by_market;
  }

  abbrev pub settle_found : Option Position → LiveSettlement → RiskLimits → RiskAction (Unit {0})
  settle_found none closed limits s = (err (corrupt "settlement has no matching position"), s)
  settle_found (some p) closed limits s =
      if less p.qty closed.settled_size
      then (err (corrupt "settlement exceeds the matching position"), s)
      else (ok tt, (refresh_marks limits (with_settlement closed p s)).1)

  unfoldable pub apply_risk_settlement : LiveSettlement → RiskLimits → RiskAction (Unit {0})
  apply_risk_settlement closed limits s =
      if is_member closed.identity s.applied_settlements
      then (ok tt, s)
      else if at_most closed.settled_size dec_zero || less closed.proceeds dec_zero
      then (err (corrupt "settlement size or proceeds is outside its valid range"), s)
      else settle_found (find (is_outcome closed.outcome) (positions_of closed.market s)) closed
          limits s

  unfoldable pub apply_account_event : PmAccountEvent → RiskLimits → RiskAction Bool
  apply_account_event
        (account_fill identity strategy order_id market outcome price size side fee liquidity ts)
        limits s =
      let (is_new, s') =
        apply_risk_fill
          (market_fill strategy order_id market outcome price size side fee liquidity ts) identity
          limits s in
      (ok is_new, s')
  apply_account_event (account_settlement identity market outcome settled_size proceeds ts) limits
        s =
      let (reply, s') =
        apply_risk_settlement
          (record {
            identity = identity;
            market = market;
            outcome = outcome;
            settled_size = settled_size;
            proceeds = proceeds;
          })
          limits s in
      (map_ok (λ u. false) reply, s')
  apply_account_event (account_ack _ _ _) limits s = (ok false, s)
  apply_account_event (account_cancelled _ _ _) limits s = (ok false, s)
  apply_account_event (account_rejected _ _ _ _) limits s = (ok false, s)
  apply_account_event (account_status _ _ _ _) limits s = (ok false, s)

  unfoldable pub filled_qty : String → LiveRiskState → Decimal
  filled_qty order_id s = or_zero (get order_id s.filled_qty_by_order)

  -- The loops of `daily_pnl`, which stop at a position without a mark.
  unfoldable pub pnl_of_list : Marks → String → List Position → Decimal → Option Decimal
  pnl_of_list marks market [] so_far = some so_far
  pnl_of_list marks market (p ∷ positions) so_far =
      let skipped = pnl_of_list marks market positions so_far in
      let added = pnl_of_list marks market positions (add so_far p.unrealized_pnl) in
      if is_zero p.qty
      then skipped
      else if contains_key ⦃e = book_key⦄ (market, p.outcome) marks
      then added
      else none

  unfoldable pub pnl_of_markets : Marks → Dict String (List Position) → Decimal → Option Decimal
  unfolding pnl_of_list
  pnl_of_markets marks [] so_far = some so_far
  pnl_of_markets marks ((market, positions) ∷ d) so_far =
      elim (pnl_of_list marks market positions so_far) [
        | none ↦ none
        | some so_far' ↦ pnl_of_markets marks d so_far'
      ]

  unfoldable pub daily_pnl : LiveRiskState → Option Decimal
  unfolding pnl_of_markets
  daily_pnl s = net_pnl s (pnl_of_markets s.marks s.positions_by_market dec_zero)

  abbrev pub at_mark : Option Decimal → Position → Decimal
  at_mark none p = dec_zero
  at_mark (some mark) p = mul (abs p.qty) mark

  unfoldable pub marked_notional : String → List Position → LiveRiskState → Decimal
  marked_notional market positions s =
      sum (map (λ p. at_mark (get ⦃e = book_key⦄ (market, p.outcome) s.marks) p) positions)

  abbrev pub exposure_of : LiveRiskState → String × List Position → PositionExposure
  exposure_of s (market, positions) = record {
    market = market;
    notional = marked_notional market positions s;
  }

  unfoldable pub position_exposures : LiveRiskState → List PositionExposure
  unfolding marked_notional
  position_exposures s = map (exposure_of s) s.positions_by_market

  unfoldable pub portfolio_notional : LiveRiskState → Decimal
  unfolding marked_notional
  portfolio_notional s =
      sum (map (λ (market, positions). marked_notional market positions s) s.positions_by_market)

  -- `map_or` on the positions of the market.
  abbrev pub notional_at : Option (List Position) → String → LiveRiskState → Decimal
  notional_at none market s = dec_zero
  notional_at (some positions) market s = marked_notional market positions s

  unfoldable pub market_notional : String → LiveRiskState → Decimal
  unfolding marked_notional
  market_notional market s = notional_at (get market s.positions_by_market) market s
