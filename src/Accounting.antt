-- ===== src/Accounting.antt =====
-- The portfolio ledger of crates/pmkit-accounting/src/lib.rs: fills and settlements against cash,
-- fees, realized profit and average-entry positions. `PortfolioLedger`'s methods are `Method`s on
-- the record; each proof stands in a child module.
pub mod Positions
pub mod Validity
pub mod Fills
pub mod Quantities
pub mod Effects
pub mod Settling
pub mod Balance
pub mod Refusals
pub mod Fees
pub mod Buying
pub mod Marks
pub mod Exposure
mod Tests
use pmkit.Base.{
  String, Bool, ◌&&◌, not, Option, none, some, List, [], ◌∷◌, ◌++◌, map, ◌==◌, text_key,
  if◌then◌else◌, find, keep, update_first,
}
use pmkit.Base.Replies.{Reply, ok, err, panic, Method, lift, gets, ◌>>=◌, ◌>>◌, raise_if, modify}
use pmkit.Decimals.{Decimals, is_zero}
use pmkit.Domain.{Side, buy, sell, Outcome, outcome_key, Money}

module _ ⦃D : Decimals⦄ where
  open D use {Decimal, dec_zero, add, sub, mul, div, less, is_sign_negative}

  pub record LedgerFill : Type 0 where
    pub market : String
    pub outcome : Outcome
    pub side : Side
    pub price : Decimal
    pub quantity : Decimal
    pub fee : Decimal

  pub record Settlement : Type 0 where
    pub market : String
    pub outcome : Outcome
    pub payout_per_share : Decimal

  pub record Mark : Type 0 where
    pub market : String
    pub outcome : Outcome
    pub price : Decimal

  pub record LedgerPosition : Type 0 where
    pub market : String
    pub outcome : Outcome
    pub quantity : Decimal
    pub average_entry : Decimal

  pub data AccountingError : Type 0 where
    insufficient_position : String → Outcome → Decimal → Decimal → AccountingError
    negative_value : String → Decimal → AccountingError

  pub record PortfolioLedger : Type 0 where
    pub cash : Money
    pub fees : Money
    pub realized_pnl : Money
    pub positions : List LedgerPosition

  abbrev pub Action : Type 0 → Type 0
  Action A = Method PortfolioLedger AccountingError A

  unfoldable pub new_ledger : Money → PortfolioLedger
  new_ledger initial_cash = record {
    cash = initial_cash;
    fees = dec_zero;
    realized_pnl = dec_zero;
    positions = [];
  }

  -- `|position| position.market == market && position.outcome == outcome`
  abbrev pub is_at : String → Outcome → LedgerPosition → Bool
  is_at market outcome p = p.market == market && p.outcome == outcome

  unfoldable pub validate_non_negative : Decimal → String → Reply AccountingError (Unit {0})
  validate_non_negative value field =
      if is_sign_negative value then err (negative_value field value) else ok tt

  abbrev pub no_position : String → Outcome → LedgerPosition
  no_position market outcome = record {
    market = market;
    outcome = outcome;
    quantity = dec_zero;
    average_entry = dec_zero;
  }

  abbrev pub or_empty : String → Outcome → Option LedgerPosition → LedgerPosition
  or_empty market outcome none = no_position market outcome
  or_empty market outcome (some p) = p

  -- `fn position`
  unfoldable pub position : String → Outcome → PortfolioLedger → LedgerPosition
  position market outcome l = or_empty market outcome (find (is_at market outcome) l.positions)

  -- The writes through the reference that `find` returns. A total of zero is a division by zero.
  unfoldable pub grow : Decimal → Decimal → LedgerPosition → LedgerPosition
  grow quantity price p =
      let total = add p.quantity quantity in
      record p {
        average_entry = div (add (mul p.average_entry p.quantity) (mul price quantity)) total;
        quantity = total;
      }

  unfoldable pub shrink : Decimal → LedgerPosition → LedgerPosition
  shrink quantity p = record p { quantity = sub p.quantity quantity }

  abbrev pub opened : String → Outcome → Decimal → Decimal → LedgerPosition
  opened market outcome quantity price = record {
    market = market;
    outcome = outcome;
    quantity = quantity;
    average_entry = price;
  }

  unfoldable pub add_to :
      String → Outcome → Decimal → Decimal → Option LedgerPosition → Action (Unit {0})
  add_to market outcome quantity price (some p) l =
      if is_zero (add p.quantity quantity) then (panic, l) else (
        ok tt,
        record l {
          positions = update_first (is_at market outcome) (grow quantity price) l.positions;
        },
      )
  add_to market outcome quantity price none l =
      (ok tt, record l { positions = l.positions ++ opened market outcome quantity price ∷ [] })

  unfoldable pub add_position : String → Outcome → Decimal → Decimal → Action (Unit {0})
  unfolding add_to
  add_position market outcome quantity price l =
      add_to market outcome quantity price (find (is_at market outcome) l.positions) l

  abbrev pub is_open : LedgerPosition → Bool
  is_open p = not (is_zero p.quantity)

  unfoldable pub remove_position : String → Outcome → Decimal → Action (Unit {0})
  remove_position market outcome quantity = modify (λ l. record l {
    positions = keep is_open (update_first (is_at market outcome) (shrink quantity) l.positions);
  })

  unfoldable pub trade : Side → LedgerFill → Action (Unit {0})
  trade buy fill = do
    modify (λ l. record l { cash = sub l.cash (add (mul fill.price fill.quantity) fill.fee) })
    add_position fill.market fill.outcome fill.quantity fill.price
  trade sell fill = do
    held ← gets (position fill.market fill.outcome)
    raise_if (less held.quantity fill.quantity)
        (insufficient_position fill.market fill.outcome fill.quantity held.quantity)
    modify (λ l. record l {
      realized_pnl = add l.realized_pnl (mul (sub fill.price held.average_entry) fill.quantity);
      cash = add l.cash (sub (mul fill.price fill.quantity) fill.fee);
    })
    remove_position fill.market fill.outcome fill.quantity

  unfoldable pub apply_fill : LedgerFill → Action (Unit {0})
  apply_fill fill = do
    lift (validate_non_negative fill.price "price")
    lift (validate_non_negative fill.quantity "quantity")
    lift (validate_non_negative fill.fee "fee")
    modify (λ l. record l { fees = add l.fees fill.fee })
    trade fill.side fill

  unfoldable pub settle : Settlement → Action (Unit {0})
  settle s = do
    lift (validate_non_negative s.payout_per_share "payout_per_share")
    held ← gets (position s.market s.outcome)
    modify (λ l. record l {
      realized_pnl =
          add l.realized_pnl (mul (sub s.payout_per_share held.average_entry) held.quantity);
      cash = add l.cash (mul s.payout_per_share held.quantity);
    })
    remove_position s.market s.outcome held.quantity

  abbrev pub is_mark_of : LedgerPosition → Mark → Bool
  is_mark_of p mark = mark.market == p.market && mark.outcome == p.outcome

  abbrev pub unrealized_at : LedgerPosition → Option Mark → Decimal
  unrealized_at p none = dec_zero
  unrealized_at p (some mark) = mul (sub mark.price p.average_entry) p.quantity

  abbrev pub value_at : LedgerPosition → Option Mark → Decimal
  value_at p none = dec_zero
  value_at p (some mark) = mul mark.price p.quantity

  -- `iter().sum()`
  unfoldable pub sum_from : Decimal → List Decimal → Decimal
  sum_from total [] = total
  sum_from total (x ∷ xs) = sum_from (add total x) xs

  unfoldable pub sum : List Decimal → Decimal
  unfolding sum_from
  sum = sum_from dec_zero

  unfoldable pub unrealized_pnl : List Mark → PortfolioLedger → Money
  unrealized_pnl marks l = sum (map (λ p. unrealized_at p (find (is_mark_of p) marks)) l.positions)

  unfoldable pub equity : List Mark → PortfolioLedger → Money
  equity marks l = add l.cash (sum (map (λ p. value_at p (find (is_mark_of p) marks)) l.positions))
