-- ===== src/Risk/Tests.antt =====
-- The theorems on the risk history at a fill that comes twice and a settlement.
use pmkit.Accounting.{sum}
use pmkit.Decimals.{Leq}
use pmkit.Risk.Pnl.{refresh_marks-daily_pnl}
use pmkit.Risk.Repeats.{apply_account_event-again}
use pmkit.Live.Admission.{RiskLimits}
use pmkit.Base.Dict.{get, insert}
use pmkit.Domain.{up, buy}
use pmkit.Event.{taker}
use pmkit.Base.Replies.{ok, panic, err}
use pmkit.Base.{
  ℤ, true, ◌∷◌, ◌≢◌, some, false, Bool, List, ◌+ℤ◌, ◌⊎◌, String, [], ◌*ℤ◌, ◌≡◌, ◌-ℤ◌, ◌↔◌, ◌+◌, pos,
  refl, none,
}
use pmkit.Risk.History.{apply_all, new_fills, apply_all-filled_qty, size_of_order}
use pmkit.Risk.State.{refresh_marks, default_risk, RiskStateError, mark_positions, positions_of}
use pmkit.Accounting.Exposure.{bump}
use pmkit.Event.Account.{
  PmAccountEvent, venue_settlement, account_fill, venue_fill, account_settlement,
}
use pmkit.Risk.Updates.{
  apply_account_event, apply_risk_fill, filled_qty, apply_risk_settlement, daily_pnl,
}
use pmkit.Decimals.Millionths.{millionths, whole_of, cents}
use pmkit.Book.Levels.{held_qty, apply_fill}

abbrev pub limits : RiskLimits
limits = record {
  max_order_notional = whole_of 100;
  max_position_notional = whole_of 100;
  max_portfolio_notional = whole_of 100;
  max_market_notional = whole_of 100;
  max_strategy_notional = whole_of 100;
  max_open_orders = 4;
  max_loss = whole_of 20;
  max_daily_loss = whole_of 20;
}

abbrev bought : PmAccountEvent
bought =
    account_fill (venue_fill "fill-1") none "venue-1" "btc-5m" up (cents 40) (whole_of 10) buy
      (cents 10) taker (pos 1000)

abbrev settled_half : PmAccountEvent
settled_half =
    account_settlement (venue_settlement "s-1") "btc-5m" up (whole_of 5) (whole_of 5) (pos 2000)

abbrev history : List PmAccountEvent
history = bought ∷ bought ∷ settled_half ∷ settled_half ∷ []

-- Ten are bought at 0.40 for a fee of 0.10, and half of them settle at one.
settled_run :
    let s = apply_all history limits default_risk in
    (s.realized_pnl ≡ whole_of 3)
    × (s.fees ≡ cents 10)
    × (s.fill_count ≡ 1)
    × (held_qty (positions_of "btc-5m" s) up ≡ whole_of 5)
unfolding apply_account_event apply_risk_fill apply_risk_settlement refresh_marks mark_positions
    positions_of held_qty get insert apply_fill bump sum ◌+ℤ◌ ◌-ℤ◌ ◌*ℤ◌
settled_run = (refl, refl, refl, refl)

apply_all-filled_qty_example :
    let s = apply_all history limits default_risk in
    ((order_id : String)
      → filled_qty order_id s
        ≡ filled_qty order_id default_risk +ℤ size_of_order order_id [] history)
    × (s.fill_count ≡ 0 + new_fills [] history)
    × (default_risk.loss_breached ≡ true → s.loss_breached ≡ true)
apply_all-filled_qty_example = apply_all-filled_qty history limits default_risk

apply_account_event-again_example :
    let (reply, s') = apply_account_event bought limits default_risk in
    ((error : RiskStateError) → reply ≡ err error → s' ≡ default_risk)
    × ((is_new : Bool) → reply ≡ ok is_new → apply_account_event bought limits s' ≡ (ok false, s'))
    × (reply ≢ panic)
apply_account_event-again_example = apply_account_event-again bought limits default_risk

refresh_marks-daily_pnl_example :
    let (given, s') = refresh_marks limits (apply_all history limits default_risk) in
    (daily_pnl s' ≡ given)
    × ((s'.loss_breached ≡ true) ↔ (
        ((apply_all history limits default_risk).loss_breached ≡ true)
        ⊎ ((pnl : ℤ) × (given ≡ some pnl) × Leq pnl (pos 0 -ℤ whole_of 20))))
refresh_marks-daily_pnl_example =
    refresh_marks-daily_pnl limits (apply_all history limits default_risk)
