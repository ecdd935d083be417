-- ===== src/Paper/Cash.antt =====
-- Fills of resting bids and the cash that is free (crates/pmkit-paper/src/ledger.rs,
-- `available_cash` and `record_fill`).
use pmkit.Base.Distinct.{IsDistinct}
use pmkit.Paper.History.{History}
use pmkit.Paper.Soundness.{History-IsValid}
use pmkit.Accounting.Buying.{buy-accepted}
use pmkit.Paper.Lifecycle.{History-IsFresh}
use pmkit.Base.Replies.{Reply, ok}
use pmkit.Domain.{buy}
use pmkit.Paper.Committed.{committed-remove, committed-insert}
use pmkit.Paper.Events.{fill, PaperLedgerEntry, PaperLedger, TrackedOrder, resting}
use pmkit.Base.Dict.{get, Dict, insert, remove}
use pmkit.Decimals.{
  IsUnrounded, NonNeg, sub-mul, Less, Leq, mul-sub, dec_laws, Decimals, le→not_less,
}
use pmkit.Accounting.{trade, AccountingError, PortfolioLedger, LedgerFill}
use pmkit.Paper.Orders.{available_cash, record_fill, held_by, committed}
use pmkit.Base.{
  ℤ, none, Option, ◌⊎◌, true, text_key, ==-refl, inl, String, if◌then◌else◌, inr, refl, Bool-cases,
  ap, ◌+◌, false, some, ◌≡◌,
}
use pmkit.Accounting
use pmkit.Event.{Liquidity, MarketEvent, fill as market_fill}
use pmkit.Paper.Ledger.{next_entry, apply, append, apply_event, is_partial, reduced, apply_fill}

module _ ⦃D : Decimals⦄ where
  open D use {Decimal, dec_zero, add, sub, mul, less}

  abbrev trade_of : TrackedOrder → Decimal → Decimal → Decimal → LedgerFill
  trade_of tracked price size fee = record {
    market = tracked.order.market;
    outcome = tracked.order.outcome;
    side = tracked.order.side;
    price = price;
    quantity = size;
    fee = fee;
  }

  abbrev orders_after : String → TrackedOrder → Decimal → PaperLedger → Dict String TrackedOrder
  orders_after id tracked size l =
      if is_partial size tracked
      then insert id (reduced size tracked) l.orders
      else remove id l.orders

  abbrev filled : String → TrackedOrder → Decimal → PortfolioLedger → PaperLedger → PaperLedger
  filled id tracked size account l = record l {
    account = account;
    orders = orders_after id tracked size l;
    fill_count = l.fill_count + 1;
  }

  -- A fill that fits its order and that the account accepts.
  pub apply_fill-accepted :
      (e : PaperLedgerEntry) (id : String) (tracked : TrackedOrder) (price size fee : Decimal)
      (l : PaperLedger) (account : PortfolioLedger)
      → get id l.orders ≡ some tracked
      → Leq size tracked.order.qty
      → Accounting.apply_fill (trade_of tracked price size fee) l.account ≡ (ok tt, account)
      → apply_fill e id tracked.order.market tracked.order.outcome price size tracked.order.side fee
          l
        ≡ (ok tt, filled id tracked size account l)
  unfolding apply_fill
  apply_fill-accepted e id tracked price size fee l account found fits accepted =
      rw
        (
          found,
          ==-refl tracked.order.market,
          ==-refl tracked.order.outcome,
          ==-refl tracked.order.side,
          le→not_less tracked.order.qty size fits,
          accepted,
        )
        refl

  -- What a fill frees of the notional of a resting bid: the filled part.
  committed-orders_after :
      (id : String) (tracked : TrackedOrder) (size : Decimal) (l : PaperLedger)
      → get id l.orders ≡ some tracked
      → IsDistinct l.orders
      → tracked.order.side ≡ buy
      → tracked.state ≡ resting
      → Leq size tracked.order.qty
      → IsUnrounded tracked.order.price tracked.order.qty
      → IsUnrounded tracked.order.price size
      → add (committed (orders_after id tracked size l)) (mul tracked.order.price size)
        ≡ committed l.orders
  committed-orders_after id tracked size l found u bid rests fits all_exact part_exact =
      elim (Bool-cases (less size tracked.order.qty)) [
        | inl part ↦
            let kind : is_partial size tracked ≡ true = rw (rests, part) refl in
            rw kind (
              omega (
                dec_laws,
                mul-sub tracked.order.price tracked.order.qty size all_exact part_exact,
                is_bid tracked bid,
                is_bid (reduced size tracked) bid,
                committed-insert id (reduced size tracked) tracked l.orders found,
              ))
        | inr rest ↦
            let kind : is_partial size tracked ≡ false = rw (rests, rest) refl in
            rw kind (
              omega (
                dec_laws,
                is_bid tracked bid,
                ap (mul tracked.order.price) (all size tracked.order.qty fits rest),
                committed-remove id tracked l.orders u found,
              ))
      ]
    where
      is_bid : (o : TrackedOrder) → o.order.side ≡ buy → held_by o ≡ mul o.order.price o.order.qty
      is_bid o b = rw b refl

      all : (a b : Decimal) → Leq a b → less a b ≡ false → a ≡ b
      all a b le nl = omega dec_laws

  abbrev pub fill_event :
      Option String
      → Liquidity
      → ℤ
      → String
      → TrackedOrder
      → Decimal
      → Decimal
      → Decimal
      → MarketEvent
  fill_event strategy liquidity t id tracked price size fee =
      market_fill strategy id tracked.order.market tracked.order.outcome price size
        tracked.order.side fee liquidity t

  -- In a ledger with funds that accepted appends have led to, recording a fill of a resting buy
  -- order that is no larger than what is left of the order succeeds, for a price and a fee that are
  -- not negative and a positive size. Where the products of the order price with the quantity and
  -- with the size, and of the fill price with the size, need no rounding, the cash that is free
  -- changes by what the fill price is better than the price of the order, less the fee: a fill at
  -- the price of the order without a fee leaves it as it is.
  pub record_fill-available_cash :
      (strategy : Option String) (liquidity : Liquidity) (t : ℤ) (id : String)
      (tracked : TrackedOrder) (price size fee free : Decimal) {l : PaperLedger}
      → History l
      → get id l.orders ≡ some tracked
      → tracked.order.side ≡ buy
      → tracked.state ≡ resting
      → NonNeg price
      → NonNeg fee
      → Less dec_zero size
      → Leq size tracked.order.qty
      → IsUnrounded tracked.order.price tracked.order.qty
      → IsUnrounded tracked.order.price size
      → IsUnrounded price size
      → available_cash l ≡ some free
      → let (r, l') = record_fill (fill_event strategy liquidity t id tracked price size fee) l in
        (r ≡ ok tt)
        × (available_cash l' ≡ some (sub (add free (mul (sub tracked.order.price price) size)) fee))
  unfolding record_fill append apply apply_event available_cash
  record_fill-available_cash strategy liquidity t id tracked price size fee free {l} h found bid
        rests cp cf positive fits all_exact part_exact paid_exact before =
      let trade = trade_of tracked price size fee in
      let event =
        fill id tracked.order.market tracked.order.outcome price size tracked.order.side fee in
      let (paid, cash) =
        buy-accepted trade l.account bid (cp, omega (dec_laws, positive), cf) positive
          (History-IsValid h) in
      let account = (Accounting.apply_fill trade l.account).1 in
      let done =
        apply_fill-accepted (next_entry t event l) id tracked price size fee l account found fits
          (ap (λ (r : Reply AccountingError (Unit {0})). (r, account)) paid) in
      rw done (refl, free_after (Bool-cases l.cash_funded) account cash)
    where
      free_after :
          (l.cash_funded ≡ true) ⊎ (l.cash_funded ≡ false)
          → (account : PortfolioLedger)
          → account.cash ≡ sub l.account.cash (add (mul price size) fee)
          → (if l.cash_funded
              then some (sub account.cash (committed (orders_after id tracked size l)))
              else none)
            ≡ some (sub (add free (mul (sub tracked.order.price price) size)) fee)
      free_after (inr e) account cash = cc (rw e at before)
      free_after (inl e) account cash =
          let known : sub l.account.cash (committed l.orders) ≡ free = cc (rw e at before) in
          rw e (
            ap some (
              omega (
                dec_laws,
                known,
                cash,
                sub-mul tracked.order.price price size part_exact paid_exact,
                committed-orders_after id tracked size l found (History-IsFresh h).distinct bid
                    rests fits all_exact part_exact,
              )))
