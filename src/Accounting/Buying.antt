-- ===== src/Accounting/Buying.antt =====
-- When `PortfolioLedger::apply_fill` accepts a buy (crates/pmkit-accounting/src/lib.rs).
use pmkit.Accounting.Effects.{apply_fill-checked}
use pmkit.Accounting.Fills.{IsChecked}
use pmkit.Domain.{buy}
use pmkit.Accounting.Validity.{found_nonneg}
use pmkit.Base.Replies.{ok}
use pmkit.Base.{inr, inl, ◌≡◌, false, Option-cases, refl, find}
use pmkit.Decimals.{dec_laws, Less, Decimals, positive→not_zero, is_zero}
use pmkit.Accounting.Positions.{IsValid}
use pmkit.Accounting.{add_to, trade, PortfolioLedger, is_at, add_position, LedgerFill, apply_fill}

module _ ⦃D : Decimals⦄ where
  open D use {dec_zero, add, sub, mul}

  pub buy-accepted :
      (fill : LedgerFill) (l : PortfolioLedger)
      → fill.side ≡ buy
      → IsChecked fill
      → Less dec_zero fill.quantity
      → IsValid l.positions
      → ((apply_fill fill l).0 ≡ ok tt)
        × ((apply_fill fill l).1.cash ≡ sub l.cash (add (mul fill.price fill.quantity) fill.fee))
  unfolding trade add_position add_to
  buy-accepted fill l s h positive v =
      elim (Option-cases (find (is_at fill.market fill.outcome) l.positions)) [
        | inl e ↦ rw (apply_fill-checked buy fill l s h, e) (refl, refl)
        | inr (p, e) ↦
            let z : is_zero (add p.quantity fill.quantity) ≡ false =
              positive→not_zero _
                (omega (dec_laws, found_nonneg fill.market fill.outcome l.positions p v e)) in
            rw (apply_fill-checked buy fill l s h, e, z) (refl, refl)
      ]
