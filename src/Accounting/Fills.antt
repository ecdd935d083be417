-- ===== src/Accounting/Fills.antt =====
-- What the methods of `PortfolioLedger` (crates/pmkit-accounting/src/lib.rs) do to the positions:
-- the invariant, the quantities held, the refusals and the panic.
use pmkit.Base.Replies.{panic}
use pmkit.Accounting.Validity.{update_first-IsValid, keep-IsValid, append-IsValid, found_nonneg}
use pmkit.Base.{
  update_first, inr, some, inl, Bool-cases, find, Option-cases, arith, false, ◌≡◌, String,
}
use pmkit.Decimals.{
  not_less→le, positive_of_nonneg, div_NonNeg, dec_laws, not_negative→nonneg, Leq, Decimals, NonNeg,
  mul_NonNeg,
}
use pmkit.Domain.{Outcome, Side, buy, sell}
use pmkit.Accounting.{
  is_open, opened, shrink, ◌>>=◌, lift, is_at, Action, err, is_zero, ok, AccountingError, grow,
  Reply, LedgerPosition, PortfolioLedger, LedgerFill, Settlement, apply_fill, settle, trade,
  position, validate_non_negative, add_position, remove_position,
}
use pmkit.Accounting.Positions.{Positions, shrink-KeepsKey, grow-KeepsKey, IsValid, held}

module _ ⦃D : Decimals⦄ where
  open D use {Decimal, dec_zero, add, sub, mul, div, less, is_sign_negative}

  -- A fill whose price, quantity and fee are not negative.
  abbrev pub IsChecked : LedgerFill → Type 0
  IsChecked fill = NonNeg fill.price × NonNeg fill.quantity × NonNeg fill.fee

  -- A method that returns keeps the positions valid, whether it returns `Ok` or `Err`.
  abbrev pub KeepsValid {ℓ} : {A : Type ℓ} → Reply AccountingError A × PortfolioLedger → Type 0
  KeepsValid (ok a, l) = IsValid l.positions
  KeepsValid (err e, l) = IsValid l.positions
  KeepsValid (panic, l) = Unit

  pub held-position :
      (m : String) (o : Outcome) (l : PortfolioLedger)
      → (position m o l).quantity ≡ held m o l.positions
  unfolding position held
  held-position m o l = elim (Option-cases (find (is_at m o) l.positions)) [
    | inl e ↦ rw e
    | inr (p, e) ↦ rw e
  ]

  validate_sound : (d : Decimal) (field : String) → validate_non_negative d field ≡ ok tt → NonNeg d
  unfolding validate_non_negative
  validate_sound d field h = not_negative→nonneg d (ground arith)

  -- An average of non-negative prices is not negative.
  grow_nonneg :
      (quantity price : Decimal) (p : LedgerPosition)
      → NonNeg quantity
      → NonNeg price
      → NonNeg p.quantity
      → NonNeg p.average_entry
      → is_zero (add p.quantity quantity) ≡ false
      → NonNeg (grow quantity price p).quantity × NonNeg (grow quantity price p).average_entry
  unfolding grow
  grow_nonneg quantity price p q c pq pa z = (
    omega dec_laws,
    div_NonNeg _ (add p.quantity quantity)
        (omega
          (dec_laws, mul_NonNeg p.average_entry p.quantity pa pq, mul_NonNeg price quantity c q))
        (positive_of_nonneg _ (omega dec_laws) z),
  )

  add_position-IsValid :
      (m : String) (o : Outcome) (quantity price : Decimal) (l : PortfolioLedger)
      → NonNeg quantity
      → NonNeg price
      → IsValid l.positions
      → KeepsValid (add_position m o quantity price l)
  unfolding add_position
  add_position-IsValid m o quantity price l q c v =
      elim (Option-cases (find (is_at m o) l.positions)) [
        | inl e ↦ rw e (append-IsValid (opened m o quantity price) l.positions q c e v)
        | inr (p, e) ↦ elim (Bool-cases (is_zero (add p.quantity quantity))) [
          | inl z ↦ rw (e, z) tt
          | inr z ↦
              rw (e, z)
                (update_first-IsValid m o (grow quantity price) l.positions
                  (grow-KeepsKey quantity price) (grown p e z) v)
        ]
      ]
    where
      grown :
          (p : LedgerPosition)
          → find (is_at m o) l.positions ≡ some p
          → is_zero (add p.quantity quantity) ≡ false
          → (x : LedgerPosition) → find (is_at m o) l.positions ≡ some x
          → NonNeg (grow quantity price x).quantity × NonNeg (grow quantity price x).average_entry
      grown p e z x e' =
          let same : p ≡ x = cc in
          let (pq, pa) = found_nonneg m o l.positions x v e' in
          grow_nonneg quantity price x q c pq pa (rw same at z)

  -- No more is taken from a position than it has.
  pub shrink_nonneg :
      (m : String) (o : Outcome) (quantity : Decimal) (ps : Positions)
      → Leq quantity (held m o ps)
      → IsValid ps
      → (p : LedgerPosition) → find (is_at m o) ps ≡ some p
      → NonNeg (shrink quantity p).quantity × NonNeg (shrink quantity p).average_entry
  unfolding shrink held
  shrink_nonneg m o quantity ps fits v p e =
      (omega (dec_laws, (rw e at fits)), (found_nonneg m o ps p v e).1)

  remove_position-IsValid :
      (m : String) (o : Outcome) (quantity : Decimal) (l : PortfolioLedger)
      → Leq quantity (held m o l.positions)
      → IsValid l.positions
      → KeepsValid (remove_position m o quantity l)
  unfolding remove_position
  remove_position-IsValid m o quantity l fits v =
      keep-IsValid is_open (update_first (is_at m o) (shrink quantity) l.positions) (
        update_first-IsValid m o (shrink quantity) l.positions (shrink-KeepsKey quantity)
          (shrink_nonneg m o quantity l.positions fits v) v)

  -- What follows a check may use that the check passed.
  after_check :
      (d : Decimal) (field : String) (k : Action (Unit {0})) (l : PortfolioLedger)
      → IsValid l.positions
      → (NonNeg d → KeepsValid (k l))
      → KeepsValid ((lift (validate_non_negative d field) >>= λ _. k) l)
  unfolding validate_non_negative
  after_check d field k l v h = elim (Bool-cases (is_sign_negative d)) [
    | inl e ↦ rw e v
    | inr e ↦ rw e (h (not_negative→nonneg d e))
  ]

  trade-IsValid :
      (side : Side) (fill : LedgerFill) (l : PortfolioLedger)
      → NonNeg fill.price
      → NonNeg fill.quantity
      → IsValid l.positions
      → KeepsValid (trade side fill l)
  unfolding trade
  trade-IsValid buy fill l c q v =
      add_position-IsValid fill.market fill.outcome fill.quantity fill.price _ q c v
  trade-IsValid sell fill l c q v =
      elim (Bool-cases (less (position fill.market fill.outcome l).quantity fill.quantity)) [
        | inl e ↦ rw e v
        | inr e ↦ rw e (
            remove_position-IsValid fill.market fill.outcome fill.quantity _
              (rw (← held-position fill.market fill.outcome l) (not_less→le _ _ e)) v)
      ]

  -- Every fill, accepted or refused, keeps the positions valid: one position for each market and
  -- outcome, with no negative quantity and no negative average entry.
  pub apply_fill-IsValid :
      (fill : LedgerFill) (l : PortfolioLedger)
      → IsValid l.positions
      → KeepsValid (apply_fill fill l)
  unfolding apply_fill
  apply_fill-IsValid fill l v = after_check fill.price "price" _ l v λ c.
      after_check fill.quantity "quantity" _ l v
        λ q. after_check fill.fee "fee" _ l v λ _. trade-IsValid fill.side fill _ c q v

  -- A settlement keeps them valid too.
  pub settle-IsValid :
      (s : Settlement) (l : PortfolioLedger) → IsValid l.positions → KeepsValid (settle s l)
  unfolding settle
  settle-IsValid s l v = after_check s.payout_per_share "payout_per_share" _ l v λ _.
      remove_position-IsValid s.market s.outcome _ _
        (rw (held-position s.market s.outcome l) (omega arith)) v
