-- ===== src/Accounting/Refusals.antt =====
-- What a refused fill or settlement leaves behind in the account
-- (crates/pmkit-accounting/src/lib.rs).
use pmkit.Accounting.Positions.{held}
use pmkit.Decimals.Millionths.{over}
use pmkit.Accounting.Fills.{IsChecked, held-position}
use pmkit.Decimals.{Less, less→lt, not_negative→nonneg, Decimals, is_zero}
use pmkit.Domain.{buy, sell, Side}
use pmkit.Base.Replies.{err}
use pmkit.Base.{◌⊎◌, true, Bool-cases, sym, refl, ◌≡◌, ap, inl, inr, find, Option-cases, arith}
use pmkit.Accounting.{
  AccountingError, position, PortfolioLedger, trade, is_at, Settlement, validate_non_negative,
  add_to, LedgerFill, remove_position, add_position, settle, apply_fill,
}

module _ ⦃D : Decimals⦄ where
  open D use {Decimal}

  abbrev pub with_fees : Decimal → PortfolioLedger → PortfolioLedger
  with_fees fees a = record a { fees = fees }

  trade-refused :
      (side : Side) (f : LedgerFill) (a a' : PortfolioLedger) (e : AccountingError)
      → trade side f a ≡ (err e, a')
      → (side ≡ sell)
        × (D.less (position f.market f.outcome a).quantity f.quantity ≡ true)
        × (a' ≡ a)
  unfolding trade add_position add_to remove_position
  trade-refused buy f a a' e h = elim (Option-cases (find (is_at f.market f.outcome) a.positions)) [
    | inl eq ↦ cc (rw eq at h)
    | inr (p, eq) ↦ elim (Bool-cases (is_zero (D.add p.quantity f.quantity))) [
      | inl z ↦ cc (rw (eq, z) at h)
      | inr z ↦ cc (rw (eq, z) at h)
    ]
  ]
  trade-refused sell f a a' e h =
      elim (Bool-cases (D.less (position f.market f.outcome a).quantity f.quantity)) [
        | inl s ↦ (refl, s, ap (λ r. r.1) (sym (rw s at h)))
        | inr s ↦ cc (rw s at h)
      ]

  pub apply_fill-refused :
      (f : LedgerFill) (a a' : PortfolioLedger) (e : AccountingError)
      → apply_fill f a ≡ (err e, a')
      → (a' ≡ a)
        ⊎ (IsChecked f
            × (f.side ≡ sell)
            × Less (held f.market f.outcome a.positions) f.quantity
            × (a' ≡ with_fees (D.add a.fees f.fee) a))
  unfolding apply_fill validate_non_negative position
  apply_fill-refused f a a' e h = elim (Bool-cases (D.is_sign_negative f.price)) [
    | inl p ↦ inl (ap (λ r. r.1) (sym (rw p at h)))
    | inr p ↦ elim (Bool-cases (D.is_sign_negative f.quantity)) [
      | inl q ↦ inl (ap (λ r. r.1) (sym (rw (p, q) at h)))
      | inr q ↦ elim (Bool-cases (D.is_sign_negative f.fee)) [
        | inl r ↦ inl (ap (λ r. r.1) (sym (rw (p, q, r) at h)))
        | inr r ↦
            let (sells, over, same) =
              trade-refused f.side f (with_fees (D.add a.fees f.fee) a) a' e (rw (p, q, r) at h) in
            inr (
              (
                not_negative→nonneg f.price p,
                not_negative→nonneg f.quantity q,
                not_negative→nonneg f.fee r,
              ),
              sells,
              rw (← held-position f.market f.outcome a) (less→lt _ _ over),
              same,
            )
      ]
    ]
  ]

  pub account_fill-refused :
      (f : LedgerFill) (a a' : PortfolioLedger) (e : AccountingError)
      → apply_fill f a ≡ (err e, a')
      → a' ≡ with_fees a'.fees a
  account_fill-refused f a a' e h = elim (apply_fill-refused f a a' e h) [
    | inl same ↦ rw same refl
    | inr (_, _, _, same) ↦ rw same refl
  ]

  pub account_settle-refused :
      (s : Settlement) (a a' : PortfolioLedger) (e : AccountingError)
      → settle s a ≡ (err e, a')
      → a' ≡ a
  unfolding settle validate_non_negative remove_position
  account_settle-refused s a a' e h = ground arith
