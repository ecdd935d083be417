-- ===== src/Accounting/Effects.antt =====
-- What `apply_fill` and `settle` of crates/pmkit-accounting/src/lib.rs do to the whole ledger.
use pmkit.Decimals.Millionths.{over}
use pmkit.Accounting.Validity.{found_nonneg, update_first-IsValid}
use pmkit.Accounting.Quantities.{held-grow, held-append, held-shrink, basis-shrink, moved}
use pmkit.Base.Replies.{err, ok}
use pmkit.Domain.{buy, Side, Outcome, sell}
use pmkit.Accounting.Fills.{shrink_nonneg, IsChecked, held-position}
use pmkit.Accounting.Positions.{
  Positions, shrink-KeepsKey, IsValid, basis-keep, held-keep, held, basis,
}
use pmkit.Accounting.{
  add_position, remove_position, LedgerPosition, is_at, is_open, shrink, validate_non_negative,
  trade, position, negative_value, LedgerFill, apply_fill, PortfolioLedger, insufficient_position,
}
use pmkit.Base.{
  update_first-none, false, inl, ◌∙◌, Option-cases, some, refl, ap, inr, update_first, find, keep,
  if◌then◌else◌, String, ◌≡◌, arith,
}
use pmkit.Decimals.{
  IsUnrounded, positive→not_zero, mul_zero, is_zero, Leq, sub-mul, le→not_less, dec_laws, NonNeg,
  Less, nonneg→not_negative, lt→less, Decimals,
}

module _ ⦃D : Decimals⦄ where
  open D use {Decimal, dec_zero, add, sub, mul, div, less, is_sign_negative}

  pub validated : (d : Decimal) (field : String) → NonNeg d → validate_non_negative d field ≡ ok tt
  unfolding validate_non_negative
  validated d field h = rw (nonneg→not_negative d h)

  abbrev pub charged : LedgerFill → PortfolioLedger → PortfolioLedger
  charged fill l = record l { fees = add l.fees fill.fee }

  -- A fill that passes the three checks is charged its fee and traded.
  pub apply_fill-checked :
      (side : Side) (fill : LedgerFill) (l : PortfolioLedger)
      → fill.side ≡ side
      → IsChecked fill
      → apply_fill fill l ≡ trade side fill (charged fill l)
  unfolding apply_fill
  apply_fill-checked side fill l e (c, q, f) =
      rw
        (
          validated fill.price "price" c,
          validated fill.quantity "quantity" q,
          validated fill.fee "fee" f,
        )
        (ap (λ s. trade s fill (charged fill l)) e)

  -- The first check that fails decides the error, and nothing is changed.
  pub apply_fill-negative :
      (fill : LedgerFill) (l : PortfolioLedger)
      → apply_fill fill l ≡ (
          if is_sign_negative fill.price
          then (err (negative_value "price" fill.price), l)
          else if is_sign_negative fill.quantity
          then (err (negative_value "quantity" fill.quantity), l)
          else if is_sign_negative fill.fee
          then (err (negative_value "fee" fill.fee), l)
          else trade fill.side fill (charged fill l))
  unfolding apply_fill validate_non_negative
  apply_fill-negative fill l = ground arith

  trade-oversold :
      (fill : LedgerFill) (l : PortfolioLedger)
      → Less (held fill.market fill.outcome l.positions) fill.quantity
      → trade sell fill l ≡ (
        err (
            insufficient_position fill.market fill.outcome fill.quantity
              (held fill.market fill.outcome l.positions)),
        l,
      )
  unfolding trade
  trade-oversold fill l over = rw (held-position fill.market fill.outcome l, lt→less _ _ over)

  -- A sell of more than is held is refused, and its fee has been charged all the same: the rest of
  -- the ledger is as it was.
  pub apply_fill-oversold :
      (fill : LedgerFill) (l : PortfolioLedger)
      → fill.side ≡ sell
      → IsChecked fill
      → Less (held fill.market fill.outcome l.positions) fill.quantity
      → apply_fill fill l ≡ (
        err (
            insufficient_position fill.market fill.outcome fill.quantity
              (held fill.market fill.outcome l.positions)),
        record l { fees = add l.fees fill.fee },
      )
  apply_fill-oversold fill l s h over =
      apply_fill-checked sell fill l s h ∙ trade-oversold fill (charged fill l) over

  -- The ledger after a sell that goes through.
  abbrev pub sold : LedgerFill → PortfolioLedger → PortfolioLedger
  sold fill l = record l {
    realized_pnl =
        add l.realized_pnl
          (mul (sub fill.price (position fill.market fill.outcome l).average_entry) fill.quantity);
    cash = add l.cash (sub (mul fill.price fill.quantity) fill.fee);
    positions =
        keep is_open
          (update_first (is_at fill.market fill.outcome) (shrink fill.quantity) l.positions);
  }

  pub trade-sold :
      (fill : LedgerFill) (l : PortfolioLedger)
      → Leq fill.quantity (held fill.market fill.outcome l.positions)
      → trade sell fill l ≡ (ok tt, sold fill l)
  unfolding trade remove_position
  trade-sold fill l fits = rw (
      le→not_less (position fill.market fill.outcome l).quantity fill.quantity
        (rw (held-position fill.market fill.outcome l) fits))

  -- The products of the average of a position with what is held and with what is sold, and of the
  -- price with what is sold, need no rounding.
  abbrev pub IsExactRemoval : String → Outcome → Decimal → Decimal → PortfolioLedger → Type 0
  IsExactRemoval m o quantity price l =
      (p : LedgerPosition)
      → find (is_at m o) l.positions ≡ some p
      → IsUnrounded p.average_entry p.quantity
        × IsUnrounded p.average_entry quantity
        × IsUnrounded price quantity

  -- Profit realized on a sale, with what the sold shares cost, is what they were sold for.
  pub removed_cost :
      (m : String) (o : Outcome) (quantity price : Decimal) (l : PortfolioLedger)
      → NonNeg quantity
      → Leq quantity (held m o l.positions)
      → IsValid l.positions
      → IsExactRemoval m o quantity price l
      → sub
          (basis (keep is_open (update_first (is_at m o) (shrink quantity) l.positions)))
          (mul (sub price (position m o l).average_entry) quantity)
        ≡ sub (basis l.positions) (mul price quantity)
  unfolding position held
  removed_cost m o quantity price l q fits v exact =
      elim (Option-cases (find (is_at m o) l.positions)) [
        | inl e ↦
            let z : quantity ≡ dec_zero = omega (dec_laws, (rw e at fits)) in
            rw
              (
                basis-keep (update_first (is_at m o) (shrink quantity) l.positions),
                update_first-none (is_at m o) (shrink quantity) l.positions e,
                e,
                z,
              )
              (omega (dec_laws, mul_zero (sub price dec_zero), mul_zero price))
        | inr (p, e) ↦
            let (all, part, gain) = exact p e in
            rw (basis-keep (update_first (is_at m o) (shrink quantity) l.positions), e)
              (omega (
                dec_laws,
                basis-shrink m o quantity l.positions p e all part,
                sub-mul price p.average_entry quantity gain part,
              ))
      ]

  pub held-removed :
      (m : String) (o : Outcome) (quantity : Decimal) (ps : Positions)
      → NonNeg quantity
      → Leq quantity (held m o ps)
      → IsValid ps
      → (m' : String) (o' : Outcome)
      → held m' o' (keep is_open (update_first (is_at m o) (shrink quantity) ps))
        ≡ moved (λ h. sub h quantity) m o m' o' (held m' o' ps)
  held-removed m o quantity ps q fits v m' o' =
      held-keep m' o' _ (
        update_first-IsValid m o (shrink quantity) ps (shrink-KeepsKey quantity)
          (shrink_nonneg m o quantity ps fits v) v)
      ∙ held-shrink m m' o o' quantity ps q fits

  -- A sell of no more than is held goes through: the cash grows by the proceeds less the fee, the
  -- quantity held falls by the quantity sold, and no other quantity changes.
  pub apply_fill-sell :
      (fill : LedgerFill) (l : PortfolioLedger)
      → fill.side ≡ sell
      → IsChecked fill
      → IsValid l.positions
      → Leq fill.quantity (held fill.market fill.outcome l.positions)
      → let (r, l') = apply_fill fill l in
        (r ≡ ok tt)
        × (l'.cash ≡ add l.cash (sub (mul fill.price fill.quantity) fill.fee))
        × (l'.fees ≡ add l.fees fill.fee)
        × ((m : String) (o : Outcome)
            → held m o l'.positions
              ≡ moved
                  (λ h. sub h fill.quantity)
                  fill.market
                  fill.outcome
                  m
                  o
                  (held m o l.positions))
  apply_fill-sell fill l s h v fits =
      rw (apply_fill-checked sell fill l s h ∙ trade-sold fill (charged fill l) fits) (
        refl,
        refl,
        refl,
        held-removed fill.market fill.outcome fill.quantity l.positions h.1 fits v,
      )

  -- A buy of a positive quantity goes through: the cash falls by the price and the fee, the
  -- quantity held grows by the quantity bought, no other quantity changes and no profit is
  -- realized.
  pub apply_fill-buy :
      (fill : LedgerFill) (l : PortfolioLedger)
      → fill.side ≡ buy
      → IsChecked fill
      → Less dec_zero fill.quantity
      → IsValid l.positions
      → let (r, l') = apply_fill fill l in
        (r ≡ ok tt)
        × (l'.cash ≡ sub l.cash (add (mul fill.price fill.quantity) fill.fee))
        × (l'.fees ≡ add l.fees fill.fee)
        × (l'.realized_pnl ≡ l.realized_pnl)
        × ((m : String) (o : Outcome)
            → held m o l'.positions
              ≡ moved
                  (λ h. add h fill.quantity)
                  fill.market
                  fill.outcome
                  m
                  o
                  (held m o l.positions))
  unfolding trade add_position
  apply_fill-buy fill l s h positive v =
      elim (Option-cases (find (is_at fill.market fill.outcome) l.positions)) [
        | inl e ↦
            rw (apply_fill-checked buy fill l s h, e)
              (
                refl,
                refl,
                refl,
                refl,
                (λ m o.
                    held-append fill.market m fill.outcome o fill.quantity fill.price l.positions
                      e),
              )
        | inr (p, e) ↦
            let z : is_zero (add p.quantity fill.quantity) ≡ false =
              positive→not_zero _
                (omega (dec_laws, found_nonneg fill.market fill.outcome l.positions p v e)) in
            rw (apply_fill-checked buy fill l s h, e, z)
              (
                refl,
                refl,
                refl,
                refl,
                (λ m o.
                    held-grow fill.market m fill.outcome o fill.quantity fill.price l.positions p
                      e),
              )
      ]
