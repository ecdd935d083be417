-- ===== src/Accounting/Settling.antt =====
-- What `settle` of crates/pmkit-accounting/src/lib.rs does to the whole ledger.
use pmkit.Base.Replies.{ok}
use pmkit.Accounting.Quantities.{moved}
use pmkit.Accounting.Fills.{held-position}
use pmkit.Accounting.Validity.{held_nonneg}
use pmkit.Accounting.Positions.{same_key_sound, IsValid, same_key, held}
use pmkit.Domain.{Outcome}
use pmkit.Accounting.Effects.{held-removed, validated}
use pmkit.Base.{inl, ◌∙◌, String, refl, inr, Bool-cases, keep, update_first, ◌≡◌, arith}
use pmkit.Accounting.{
  PortfolioLedger, Settlement, is_at, is_open, position, remove_position, settle, shrink,
}
use pmkit.Decimals.{Leq, NonNeg, dec_laws, Decimals}

module _ ⦃D : Decimals⦄ where
  open D use {Decimal, dec_zero, add, sub, mul}

  abbrev pub settled : Settlement → PortfolioLedger → PortfolioLedger
  settled s l = record l {
    realized_pnl = add l.realized_pnl (
        mul (sub s.payout_per_share (position s.market s.outcome l).average_entry)
          (position s.market s.outcome l).quantity);
    cash = add l.cash (mul s.payout_per_share (position s.market s.outcome l).quantity);
    positions = keep is_open (
        update_first (is_at s.market s.outcome) (shrink (position s.market s.outcome l).quantity)
          l.positions);
  }

  pub settle-settled :
      (s : Settlement) (l : PortfolioLedger)
      → NonNeg s.payout_per_share
      → settle s l ≡ (ok tt, settled s l)
  unfolding settle remove_position
  settle-settled s l h = rw (validated s.payout_per_share "payout_per_share" h)

  pub settled_nonneg :
      (s : Settlement) (l : PortfolioLedger)
      → IsValid l.positions
      → NonNeg (position s.market s.outcome l).quantity
  settled_nonneg s l v =
      rw (held-position s.market s.outcome l) (held_nonneg s.market s.outcome l.positions v)

  pub settled_fits :
      (s : Settlement) (l : PortfolioLedger)
      → Leq (position s.market s.outcome l).quantity (held s.market s.outcome l.positions)
  settled_fits s l = rw (held-position s.market s.outcome l) (omega arith)

  -- A settlement with a payout that is not negative goes through: each share that is held of the
  -- settled outcome pays, the position is closed, no other quantity changes and no fee is charged.
  pub settle-closes :
      (s : Settlement) (l : PortfolioLedger)
      → NonNeg s.payout_per_share
      → IsValid l.positions
      → let (r, l') = settle s l in
        (r ≡ ok tt)
        × (l'.cash ≡ add l.cash (mul s.payout_per_share (held s.market s.outcome l.positions)))
        × (l'.fees ≡ l.fees)
        × ((m : String) (o : Outcome)
            → held m o l'.positions
              ≡ moved (λ _. dec_zero) s.market s.outcome m o (held m o l.positions))
  settle-closes s l h v =
      rw (settle-settled s l h) (refl, rw (held-position s.market s.outcome l), refl, quantities)
    where
      quantities :
          (m : String) (o : Outcome)
          → held m o (settled s l).positions
            ≡ moved (λ _. dec_zero) s.market s.outcome m o (held m o l.positions)
      quantities m o =
          held-removed s.market s.outcome (position s.market s.outcome l).quantity l.positions
            (settled_nonneg s l v) (settled_fits s l) v m o
          ∙ (elim (Bool-cases (same_key s.market s.outcome m o)) [
            | inl k ↦
                let (em, eo) = same_key_sound s.market m s.outcome o k in
                rw (k, held-position s.market s.outcome l, em, eo) (omega dec_laws)
            | inr k ↦ rw k
          ])
