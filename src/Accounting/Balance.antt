-- ===== src/Accounting/Balance.antt =====
-- The book value of the ledger of crates/pmkit-accounting/src/lib.rs under fills and settlements.
use pmkit.Accounting.Validity.{found_nonneg}
use pmkit.Accounting.Fills.{IsChecked}
use pmkit.Accounting.Positions.{IsValid, held, basis-append, basis}
use pmkit.Accounting.Effects.{charged, trade-sold, removed_cost, IsExactRemoval, apply_fill-checked}
use pmkit.Decimals.{Leq, Less, Decimals, is_zero, dec_laws, NonNeg, positive→not_zero}
use pmkit.Accounting.{
  apply_fill, LedgerFill, trade, settle, PortfolioLedger, add_position, LedgerPosition, Settlement,
  is_at, opened, position,
}
use pmkit.Accounting.Settling.{settle-settled, settled_nonneg, settled_fits}
use pmkit.Domain.{Side, sell, buy}
use pmkit.Accounting.Quantities.{basis-grow, IsExactAt}
use pmkit.Base.{refl, false, find, ◌∙◌, inr, ◌≡◌, some, Option-cases, inl}

module _ ⦃D : Decimals⦄ where
  open D use {Decimal, dec_zero, add, sub, mul, div}

  -- Cash, fees paid and the cost of the open positions, less the profit that was realized: what
  -- was put into the account.
  unfoldable pub book_value : PortfolioLedger → Decimal
  book_value l = sub (add (add l.cash l.fees) (basis l.positions)) l.realized_pnl

  -- At a buy: if the position is open already, its new average is exact.
  abbrev pub IsExact : LedgerFill → PortfolioLedger → Type 0
  IsExact fill l =
      (p : LedgerPosition)
      → find (is_at fill.market fill.outcome) l.positions ≡ some p
      → IsExactAt fill.quantity fill.price p

  book_value-buy :
      (fill : LedgerFill) (l : PortfolioLedger)
      → fill.side ≡ buy
      → IsChecked fill
      → Less dec_zero fill.quantity
      → IsValid l.positions
      → IsExact fill l
      → book_value (apply_fill fill l).1 ≡ book_value l
  unfolding trade add_position book_value
  book_value-buy fill l s h positive v exact =
      elim (Option-cases (find (is_at fill.market fill.outcome) l.positions)) [
        | inl e ↦
            rw (apply_fill-checked buy fill l s h, e)
              (omega (
                dec_laws,
                basis-append l.positions (opened fill.market fill.outcome fill.quantity fill.price),
              ))
        | inr (p, e) ↦
            let z : is_zero (add p.quantity fill.quantity) ≡ false =
              positive→not_zero _
                (omega (dec_laws, found_nonneg fill.market fill.outcome l.positions p v e)) in
            rw (apply_fill-checked buy fill l s h, e, z)
              (omega (
                dec_laws,
                basis-grow fill.market fill.outcome fill.quantity fill.price l.positions p e
                    (exact p e),
              ))
      ]

  book_value-sell :
      (fill : LedgerFill) (l : PortfolioLedger)
      → fill.side ≡ sell
      → IsChecked fill
      → Leq fill.quantity (held fill.market fill.outcome l.positions)
      → IsValid l.positions
      → IsExactRemoval fill.market fill.outcome fill.quantity fill.price l
      → book_value (apply_fill fill l).1 ≡ book_value l
  unfolding book_value
  book_value-sell fill l s h fits v exact =
      rw (apply_fill-checked sell fill l s h ∙ trade-sold fill (charged fill l) fits) (
        omega (
          dec_laws,
          removed_cost fill.market fill.outcome fill.quantity fill.price (charged fill l) h.1 fits v
              exact,
        ))

  -- What a fill needs to go through: a positive quantity to buy, or the quantity to sell.
  abbrev pub IsCovered : Side → LedgerFill → PortfolioLedger → Type 0
  IsCovered buy fill l = Less dec_zero fill.quantity
  IsCovered sell fill l = Leq fill.quantity (held fill.market fill.outcome l.positions)

  -- The products and the average that the fill makes leave no rounding.
  abbrev pub IsExactFill : Side → LedgerFill → PortfolioLedger → Type 0
  IsExactFill buy fill l = IsExact fill l
  IsExactFill sell fill l = IsExactRemoval fill.market fill.outcome fill.quantity fill.price l

  -- A fill that goes through, a buy of a positive quantity or a sell of no more than is held, and
  -- that leaves no rounding in its products and in the new average, keeps the book value: cash,
  -- fees and the cost of the positions, less the realized profit, add up to what they did before.
  pub book_value-apply_fill :
      (fill : LedgerFill) (l : PortfolioLedger)
      → IsChecked fill
      → IsValid l.positions
      → IsCovered fill.side fill l
      → IsExactFill fill.side fill l
      → book_value (apply_fill fill l).1 ≡ book_value l
  book_value-apply_fill fill l h v = by_side fill.side refl
    where
      by_side :
          (side : Side)
          → fill.side ≡ side
          → IsCovered side fill l
          → IsExactFill side fill l
          → book_value (apply_fill fill l).1 ≡ book_value l
      by_side buy s covered exact = book_value-buy fill l s h covered v exact
      by_side sell s covered exact = book_value-sell fill l s h covered v exact

  -- A settlement with a payout that is not negative keeps the book value, where the products of the
  -- settled position with its average and with the payout need no rounding.
  pub book_value-settle :
      (s : Settlement) (l : PortfolioLedger)
      → NonNeg s.payout_per_share
      → IsValid l.positions
      → IsExactRemoval s.market s.outcome
          (position s.market s.outcome l).quantity
          s.payout_per_share
          l
      → book_value (settle s l).1 ≡ book_value l
  unfolding book_value
  book_value-settle s l h v exact = rw (settle-settled s l h) (
      omega (
        dec_laws,
        removed_cost s.market s.outcome (position s.market s.outcome l).quantity s.payout_per_share
            l (settled_nonneg s l v) (settled_fits s l) v exact,
      ))
