-- ===== src/Accounting/Validity.antt =====
-- The well-formedness of the positions of crates/pmkit-accounting under each way they are written.
use pmkit.Base.{
  refl, ◌∙◌, find-append_none, text_key, false, find-update_first-none, inr, arith, ◌++◌,
  find-keep-none, Bool-cases, inl, ◌≡◌, Option-cases, String,
}
use pmkit.Decimals.{dec_laws, NonNeg, Decimals}
use pmkit.Domain.{Outcome}
use pmkit.Accounting.{
  outcome_key, [], update_first, none, some, ◌∷◌, keep, is_at, Bool, find, LedgerPosition,
}
use pmkit.Accounting.Positions.{Positions, IsValid, KeepsKey, is_at-keeps, held}

module _ ⦃D : Decimals⦄ where
  open D use {Decimal, dec_zero, add, sub, mul, div}

  pub update_first-IsValid :
      (m : String) (o : Outcome) (f : LedgerPosition → LedgerPosition) (ps : Positions)
      → KeepsKey f
      → ((p : LedgerPosition)
          → find (is_at m o) ps ≡ some p
          → NonNeg (f p).quantity × NonNeg (f p).average_entry)
      → IsValid ps
      → IsValid (update_first (is_at m o) f ps)
  update_first-IsValid m o f [] k n v = tt
  update_first-IsValid m o f (p ∷ ps) k n (q, a, fresh, v) = elim (Bool-cases (is_at m o p)) [
    | inl e ↦ let (em, eo) = k p in let (nq, na) = n p (rw e) in rw e (nq, na, rw (em, eo) fresh, v)
    | inr e ↦ rw e (
      q,
      a,
      find-update_first-none (is_at m o) (is_at p.market p.outcome) f ps
          (is_at-keeps p.market p.outcome f k) fresh,
      update_first-IsValid m o f ps k (λ x found. n x (rw e found)) v,
    )
  ]

  pub keep-IsValid : (t : LedgerPosition → Bool) (ps : Positions) → IsValid ps → IsValid (keep t ps)
  keep-IsValid t [] v = tt
  keep-IsValid t (p ∷ ps) (q, a, fresh, v) = elim (Bool-cases (t p)) [
    | inl e ↦ rw e (q, a, find-keep-none t (is_at p.market p.outcome) ps fresh, keep-IsValid t ps v)
    | inr e ↦ rw e (keep-IsValid t ps v)
  ]

  pub append-IsValid :
      (p : LedgerPosition) (ps : Positions)
      → NonNeg p.quantity
      → NonNeg p.average_entry
      → find (is_at p.market p.outcome) ps ≡ none
      → IsValid ps
      → IsValid (ps ++ p ∷ [])
  append-IsValid p [] q a fresh v = (q, a, refl, tt)
  append-IsValid p (x ∷ ps) q a fresh (xq, xa, xfresh, v) =
      elim (Bool-cases (is_at p.market p.outcome x)) [
        | inl e ↦ cc (rw e at fresh)
        | inr e ↦ (
          xq,
          xa,
          find-append_none (is_at x.market x.outcome) ps (p ∷ []) xfresh ∙ rw (not_at x p e),
          append-IsValid p ps q a (rw e at fresh) v,
        )
      ]
    where
      not_at :
          (x p : LedgerPosition)
          → is_at p.market p.outcome x ≡ false
          → is_at x.market x.outcome p ≡ false
      not_at x p e = ground (
        arith,
        text_key.matches_iff x.market p.market,
        text_key.matches_iff p.market x.market,
        outcome_key.matches_iff x.outcome p.outcome,
        outcome_key.matches_iff p.outcome x.outcome,
      )

  -- A held position has a quantity and an average entry of zero or more.
  pub found_nonneg :
      (m : String) (o : Outcome) (ps : Positions) (p : LedgerPosition)
      → IsValid ps
      → find (is_at m o) ps ≡ some p
      → NonNeg p.quantity × NonNeg p.average_entry
  found_nonneg m o [] p v h = cc
  found_nonneg m o (x ∷ ps) p (q, a, fresh, v) h = elim (Bool-cases (is_at m o x)) [
    | inl e ↦ let same : x ≡ p = ground (arith, e) in rw (← same) (q, a)
    | inr e ↦ found_nonneg m o ps p v (rw e at h)
  ]

  pub held_nonneg : (m : String) (o : Outcome) (ps : Positions) → IsValid ps → NonNeg (held m o ps)
  unfolding held
  held_nonneg m o ps v = elim (Option-cases (find (is_at m o) ps)) [
    | inl e ↦ rw e (omega dec_laws)
    | inr (p, e) ↦ rw e (found_nonneg m o ps p v e).0
  ]
