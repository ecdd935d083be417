-- ===== src/Accounting/Tests.antt =====
-- Runs of the accounting ledger over decimals of six digits, and its theorems at concrete inputs.
use pmkit.Accounting.Exposure.{
  market_total, aggregate_exposure, totals, aggregate_exposure_lem, ExposureReservation, total,
  strategy_total, PositionExposure, bump, or_zero,
}
use pmkit.Base.Dict.{get, sort_by_key, insert}
use mathlib.Core.Path.{subst}
use pmkit.Accounting.Quantities.{IsExactAt, moved}
use pmkit.Accounting.Marks.{AreExactMarks, equity-split}
use pmkit.Decimals.{IsUnrounded, Leq, Less}
use pmkit.Accounting.Settling.{settle-closes}
use pmkit.Accounting.Balance.{IsExact, book_value, book_value-apply_fill, book_value-settle}
use pmkit.Accounting.Effects.{apply_fill-sell, apply_fill-buy, IsExactRemoval}
use pmkit.Base.Replies.{ok}
use pmkit.Accounting.Fills.{settle-IsValid, IsChecked, KeepsValid, apply_fill-IsValid}
use pmkit.Accounting.Positions.{held, basis, IsValid}
use pmkit.Domain.{Outcome, buy, up, down, sell, Side}
use pmkit.Accounting.{
  equity, Settlement, settle, Mark, unrealized_pnl, validate_non_negative, grow, apply_fill,
  add_position, remove_position, opened, position, trade, shrink, PortfolioLedger, LedgerFill,
}
use pmkit.Decimals.Millionths.{millionths, whole_of, cents, times}
use pmkit.Base.{text_key, List, String, arith, refl, ◌*ℤ◌, ◌-ℤ◌, ◌∷◌, ◌≡◌, [], ◌+ℤ◌, ℤ}

abbrev opened_ledger : PortfolioLedger
opened_ledger = record {
  cash = whole_of 60;
  fees = whole_of 1;
  realized_pnl = whole_of 0;
  positions =
      opened "btc-5m" up (whole_of 10) (cents 40)
      ∷ opened "eth-5m" down (whole_of 3) (cents 20)
      ∷ [];
}

abbrev valid : IsValid opened_ledger.positions
valid = (omega arith, omega arith, refl, (omega arith, omega arith, refl, tt))

abbrev fill_of : Side → ℤ → ℤ → LedgerFill
fill_of side price quantity = record {
  market = "btc-5m";
  outcome = up;
  side = side;
  price = price;
  quantity = quantity;
  fee = whole_of 1;
}

abbrev sale : LedgerFill
sale = fill_of sell (cents 60) (whole_of 10)

abbrev payout : Settlement
payout = record { market = "btc-5m"; outcome = up; payout_per_share = whole_of 1 }

abbrev fits : Leq (whole_of 10) (held "btc-5m" up opened_ledger.positions)
unfolding held
fits = omega arith

abbrev over : Less (held "btc-5m" up opened_ledger.positions) (whole_of 11)
unfolding held
over = omega arith

exact : IsExact (fill_of buy (cents 80) (whole_of 10)) opened_ledger
unfolding ◌*ℤ◌ ◌+ℤ◌
exact p e =
    let same : opened "btc-5m" up (whole_of 10) (cents 40) ≡ p = cc in
    subst (λ x. IsExactAt (whole_of 10) (cents 80) x) same refl

-- Closing a position removes it.
sell_all : apply_fill sale opened_ledger ≡ (
  ok tt,
  record {
    cash = whole_of 65;
    fees = whole_of 2;
    realized_pnl = whole_of 2;
    positions = opened "eth-5m" down (whole_of 3) (cents 20) ∷ [];
  },
)
unfolding apply_fill trade remove_position validate_non_negative position shrink ◌+ℤ◌ ◌-ℤ◌ ◌*ℤ◌
sell_all = refl

averaged :
    (apply_fill (fill_of buy (cents 80) (whole_of 10)) opened_ledger).1.positions
    ≡ opened "btc-5m" up (whole_of 20) (cents 60)
      ∷ opened "eth-5m" down (whole_of 3) (cents 20)
      ∷ []
unfolding apply_fill trade add_position validate_non_negative grow ◌+ℤ◌ ◌-ℤ◌ ◌*ℤ◌
averaged = refl

apply_fill-IsValid_example : KeepsValid (apply_fill sale opened_ledger)
apply_fill-IsValid_example = apply_fill-IsValid sale opened_ledger valid

settle-IsValid_example : KeepsValid (settle payout opened_ledger)
settle-IsValid_example = settle-IsValid payout opened_ledger valid

checked : IsChecked sale
checked = omega arith

apply_fill-sell_example :
    let (r, l) = apply_fill sale opened_ledger in
    (r ≡ ok tt)
    × (l.cash ≡ whole_of 60 +ℤ (times (cents 60) (whole_of 10) -ℤ whole_of 1))
    × (l.fees ≡ whole_of 1 +ℤ whole_of 1)
    × ((m : String) (o : Outcome)
        → held m o l.positions
          ≡ moved (λ h. h -ℤ whole_of 10) "btc-5m" up m o (held m o opened_ledger.positions))
apply_fill-sell_example = apply_fill-sell sale opened_ledger refl checked valid fits

abbrev purchase : LedgerFill
purchase = fill_of buy (cents 80) (whole_of 10)

apply_fill-buy_example :
    let (r, l) = apply_fill purchase opened_ledger in
    (r ≡ ok tt)
    × (l.cash ≡ whole_of 60 -ℤ (times (cents 80) (whole_of 10) +ℤ whole_of 1))
    × (l.fees ≡ whole_of 1 +ℤ whole_of 1)
    × (l.realized_pnl ≡ whole_of 0)
    × ((m : String) (o : Outcome)
        → held m o l.positions
          ≡ moved (λ h. h +ℤ whole_of 10) "btc-5m" up m o (held m o opened_ledger.positions))
apply_fill-buy_example =
    apply_fill-buy purchase opened_ledger refl (omega arith) (omega arith) valid

settle-closes_example :
    let (r, l) = settle payout opened_ledger in
    (r ≡ ok tt)
    × (l.cash ≡ whole_of 60 +ℤ times (whole_of 1) (held "btc-5m" up opened_ledger.positions))
    × (l.fees ≡ whole_of 1)
    × ((m : String) (o : Outcome)
        → held m o l.positions
          ≡ moved (λ _. whole_of 0) "btc-5m" up m o (held m o opened_ledger.positions))
settle-closes_example = settle-closes payout opened_ledger (omega arith) valid

abbrev oversale : LedgerFill
oversale = fill_of sell (cents 60) (whole_of 11)

book_value-apply_fill_example :
    book_value (apply_fill purchase opened_ledger).1 ≡ book_value opened_ledger
book_value-apply_fill_example =
    book_value-apply_fill purchase opened_ledger (omega arith) valid (omega arith) exact

exact_close :
    IsExactRemoval "btc-5m" up
      (position "btc-5m" up opened_ledger).quantity
      (whole_of 1)
      opened_ledger
unfolding ◌*ℤ◌ position
exact_close p e =
    let same : opened "btc-5m" up (whole_of 10) (cents 40) ≡ p = cc in
    subst
      (λ x.
        IsUnrounded x.average_entry x.quantity
        × IsUnrounded x.average_entry (whole_of 10)
        × IsUnrounded (whole_of 1) (whole_of 10))
      same (refl, refl, refl)

book_value-settle_example : book_value (settle payout opened_ledger).1 ≡ book_value opened_ledger
book_value-settle_example = book_value-settle payout opened_ledger (omega arith) valid exact_close

abbrev marks : List Mark
marks =
    record { market = "eth-5m"; outcome = down; price = cents 50 }
    ∷ record { market = "btc-5m"; outcome = up; price = cents 70 }
    ∷ []

abbrev exposures : List PositionExposure
exposures =
    record { market = "eth-5m"; notional = whole_of 6 }
    ∷ record { market = "btc-5m"; notional = whole_of 70 }
    ∷ []

abbrev reservations : List ExposureReservation
reservations = record { market = "eth-5m"; strategy = "maker"; notional = whole_of 4 } ∷ []

-- The entries come sorted by name.
grouped :
    (aggregate_exposure exposures reservations).market_notionals
    ≡ ("btc-5m", whole_of 70) ∷ ("eth-5m", whole_of 10) ∷ []
unfolding aggregate_exposure totals bump sort_by_key insert get ◌+ℤ◌
grouped = refl

exact_marks : AreExactMarks marks opened_ledger.positions
unfolding ◌*ℤ◌
exact_marks = ((refl, refl), ((refl, refl), tt))

equity-split_example :
    (equity marks opened_ledger
      ≡ whole_of 60 +ℤ basis opened_ledger.positions +ℤ unrealized_pnl marks opened_ledger)
    × (equity marks opened_ledger
        ≡ book_value opened_ledger
          -ℤ whole_of 1
          +ℤ (whole_of 0 +ℤ unrealized_pnl marks opened_ledger))
equity-split_example = equity-split marks opened_ledger ((cc), ((cc), tt)) exact_marks

aggregate_exposure_lem_example :
    let view = aggregate_exposure exposures reservations in
    (view.portfolio_notional ≡ total view.market_notionals)
    × ((m : String) → or_zero (get m view.market_notionals) ≡ market_total m exposures reservations)
    × ((s : String) → or_zero (get s view.strategy_notionals) ≡ strategy_total s reservations)
aggregate_exposure_lem_example = aggregate_exposure_lem exposures reservations
