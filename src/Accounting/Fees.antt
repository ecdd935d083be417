-- ===== src/Accounting/Fees.antt =====
-- The account (crates/pmkit-accounting/src/lib.rs) does not read the fees it has charged.
use pmkit.Base.Replies.{ok}
use pmkit.Base.{Option-cases, inl, find, arith, ◌≡◌, inr, refl, Bool-cases}
use pmkit.Decimals.{is_zero, Decimals}
use pmkit.Accounting.Refusals.{with_fees}
use pmkit.Accounting.{
  validate_non_negative, is_at, remove_position, Settlement, position, add_position, add_to,
  PortfolioLedger, LedgerFill, Action, apply_fill, settle, trade,
}
use pmkit.Domain.{Side, buy, sell}

module _ ⦃D : Decimals⦄ where
  open D use {Decimal}

  -- `m` does the same whatever fees were charged before, but for the fees themselves.
  abbrev pub IsBlindToFees : Action (Unit {0}) → Type 0
  IsBlindToFees m =
      (fees : Decimal) (a : PortfolioLedger)
      → (after : Decimal) × (m (with_fees fees a) ≡ ((m a).0, with_fees after (m a).1))

  trade_fees :
      (side : Side) (f : LedgerFill) (fees : Decimal) (a : PortfolioLedger)
      → trade side f (with_fees fees a) ≡ ((trade side f a).0, with_fees fees (trade side f a).1)
  unfolding trade add_position add_to remove_position position
  trade_fees buy f fees a = elim (Option-cases (find (is_at f.market f.outcome) a.positions)) [
    | inl e ↦ rw e refl
    | inr (p, e) ↦ elim (Bool-cases (is_zero (D.add p.quantity f.quantity))) [
      | inl z ↦ rw (e, z) refl
      | inr z ↦ rw (e, z) refl
    ]
  ]
  trade_fees sell f fees a = ground arith

  pub apply_fill-IsBlindToFees : (f : LedgerFill) → IsBlindToFees (apply_fill f)
  unfolding apply_fill validate_non_negative
  apply_fill-IsBlindToFees f fees a = elim (Bool-cases (D.is_sign_negative f.price)) [
    | inl p ↦ (fees, rw p refl)
    | inr p ↦ elim (Bool-cases (D.is_sign_negative f.quantity)) [
      | inl q ↦ (fees, rw (p, q) refl)
      | inr q ↦ elim (Bool-cases (D.is_sign_negative f.fee)) [
        | inl r ↦ (fees, rw (p, q, r) refl)
        | inr r ↦ (
          D.add fees f.fee,
          rw (p, q, r) (trade_fees f.side f (D.add fees f.fee) (with_fees (D.add a.fees f.fee) a)),
        )
      ]
    ]
  ]

  pub settle-IsBlindToFees : (s : Settlement) → IsBlindToFees (settle s)
  unfolding settle validate_non_negative remove_position position
  settle-IsBlindToFees s fees a = (fees, ground arith)

  trade_kept :
      (side : Side) (f : LedgerFill) (a : PortfolioLedger) → (trade side f a).1.fees ≡ a.fees
  unfolding trade add_position add_to remove_position position
  trade_kept buy f a = elim (Option-cases (find (is_at f.market f.outcome) a.positions)) [
    | inl e ↦ rw e refl
    | inr (p, e) ↦ elim (Bool-cases (is_zero (D.add p.quantity f.quantity))) [
      | inl z ↦ rw (e, z) refl
      | inr z ↦ rw (e, z) refl
    ]
  ]
  trade_kept sell f a = ground arith

  -- A fill that succeeds charges its fee.
  pub apply_fill_fees :
      (f : LedgerFill) (a : PortfolioLedger)
      → (apply_fill f a).0 ≡ ok tt
      → (apply_fill f a).1.fees ≡ D.add a.fees f.fee
  unfolding apply_fill validate_non_negative
  apply_fill_fees f a h = elim (Bool-cases (D.is_sign_negative f.price)) [
    | inl p ↦ cc (rw p at h)
    | inr p ↦ elim (Bool-cases (D.is_sign_negative f.quantity)) [
      | inl q ↦ cc (rw (p, q) at h)
      | inr q ↦ elim (Bool-cases (D.is_sign_negative f.fee)) [
        | inl r ↦ cc (rw (p, q, r) at h)
        | inr r ↦ rw (p, q, r) (trade_kept f.side f (with_fees (D.add a.fees f.fee) a))
      ]
    ]
  ]

  pub settle_fees : (s : Settlement) (a : PortfolioLedger) → (settle s a).1.fees ≡ a.fees
  unfolding settle validate_non_negative remove_position position
  settle_fees s a = ground arith
