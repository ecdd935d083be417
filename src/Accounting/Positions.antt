-- ===== src/Accounting/Positions.antt =====
-- The list of positions of crates/pmkit-accounting: what `find`, the write through the found
-- reference, `push` and `retain` do to the position of a market and outcome, and to the total cost.
use pmkit.Base.{
  sym, ap, ◌∙◌, inr, inl, ◌++◌, Bool-cases, false, String, ◌≡◌, refl, Bool, true, ◌&&◌, Option,
  none, some, List, [], ◌∷◌, ◌==◌, text_key, if◌then◌else◌, find, update_first, map_found,
  find-update_first_self, find-update_first_other, arith,
}
use pmkit.Decimals.{mul_zero, is_zero→eq, dec_laws, Decimals, NonNeg}
use pmkit.Domain.{Outcome, outcome_key}
use pmkit.Accounting.{is_zero, is_open, keep, LedgerPosition, is_at, grow, shrink}

module _ ⦃D : Decimals⦄ where
  open D use {Decimal, dec_zero, add, sub, mul, div}

  abbrev pub Positions : Type 0
  Positions = List LedgerPosition

  -- No market and outcome is listed twice, and no quantity or average entry is negative.
  abbrev pub IsValid : Positions → Type 0
  IsValid [] = Unit
  IsValid (p ∷ ps) =
      NonNeg p.quantity
      × NonNeg p.average_entry
      × (find (is_at p.market p.outcome) ps ≡ none)
      × IsValid ps

  abbrev pub same_key : String → Outcome → String → Outcome → Bool
  same_key market outcome m o = market == m && outcome == o

  -- The quantity that is held of a market's outcome.
  abbrev pub quantity_of : Option LedgerPosition → Decimal
  quantity_of none = dec_zero
  quantity_of (some p) = p.quantity

  unfoldable pub held : String → Outcome → Positions → Decimal
  held market outcome ps = quantity_of (find (is_at market outcome) ps)

  abbrev pub cost : LedgerPosition → Decimal
  cost p = mul p.average_entry p.quantity

  -- What the open positions cost.
  unfoldable pub basis : Positions → Decimal
  basis [] = dec_zero
  basis (p ∷ ps) = add (cost p) (basis ps)

  pub is_at_sound :
      (m : String) (o : Outcome) (p : LedgerPosition)
      → is_at m o p ≡ true
      → (p.market ≡ m) × (p.outcome ≡ o)
  is_at_sound m o p h =
      ground (arith, text_key.matches_iff p.market m, outcome_key.matches_iff p.outcome o)

  pub same_key_sound :
      (m m' : String) (o o' : Outcome) → same_key m o m' o' ≡ true → (m ≡ m') × (o ≡ o')
  same_key_sound m m' o o' h =
      ground (arith, text_key.matches_iff m m', outcome_key.matches_iff o o')

  -- A position has one key only.
  pub is_at_other :
      (m m' : String) (o o' : Outcome) (p : LedgerPosition)
      → same_key m o m' o' ≡ false
      → is_at m o p ≡ true
      → is_at m' o' p ≡ false
  is_at_other m m' o o' p d h = let (em, eo) = is_at_sound m o p h in rw (em, eo) d

  pub is_at_self : (p : LedgerPosition) → is_at p.market p.outcome p ≡ true
  is_at_self p =
      ground
        (arith, text_key.matches_iff p.market p.market, outcome_key.matches_iff p.outcome p.outcome)

  -- A write that leaves the market and the outcome alone.
  abbrev pub KeepsKey : (LedgerPosition → LedgerPosition) → Type 0
  KeepsKey f = (p : LedgerPosition) → ((f p).market ≡ p.market) × ((f p).outcome ≡ p.outcome)

  pub grow-KeepsKey : (quantity price : Decimal) → KeepsKey (grow quantity price)
  unfolding grow
  grow-KeepsKey quantity price p = (refl, refl)

  pub shrink-KeepsKey : (quantity : Decimal) → KeepsKey (shrink quantity)
  unfolding shrink
  shrink-KeepsKey quantity p = (refl, refl)

  pub is_at-keeps :
      (m : String) (o : Outcome) (f : LedgerPosition → LedgerPosition)
      → KeepsKey f
      → (p : LedgerPosition) → is_at m o (f p) ≡ is_at m o p
  is_at-keeps m o f k p = let (em, eo) = k p in rw (em, eo)

  -- The position of the key, changed by `f`; every other key has the position that it had.
  pub find-update_first :
      (m m' : String) (o o' : Outcome) (f : LedgerPosition → LedgerPosition) (ps : Positions)
      → KeepsKey f
      → find (is_at m' o') (update_first (is_at m o) f ps) ≡ (
          if same_key m o m' o' then map_found f (find (is_at m' o') ps) else find (is_at m' o') ps)
  find-update_first m m' o o' f ps k = elim (Bool-cases (same_key m o m' o')) [
    | inl e ↦
        let (em, eo) = same_key_sound m m' o o' e in
        rw (e, em, eo) (find-update_first_self (is_at m' o') f ps (is_at-keeps m' o' f k))
    | inr e ↦ rw e (
        find-update_first_other (is_at m o) (is_at m' o') f ps (is_at-keeps m' o' f k)
          (λ p. is_at_other m m' o o' p e))
  ]

  -- Dropping the positions of quantity zero changes no held quantity.
  pub held-keep :
      (m : String) (o : Outcome) (ps : Positions)
      → IsValid ps
      → held m o (keep is_open ps) ≡ held m o ps
  unfolding held
  held-keep m o [] v = refl
  held-keep m o (p ∷ ps) v = elim (Bool-cases (is_zero p.quantity)) [
    | inl z ↦ elim (Bool-cases (is_at m o p)) [
      | inl e ↦ rw (z, e) (held-keep m o ps v.3 ∙ none_behind e ∙ sym (is_zero→eq p.quantity z))
      | inr e ↦ rw (z, e) (held-keep m o ps v.3)
    ]
    | inr z ↦ elim (Bool-cases (is_at m o p)) [
      | inl e ↦ rw (z, e)
      | inr e ↦ rw (z, e) (held-keep m o ps v.3)
    ]
  ]
    where
      none_behind : is_at m o p ≡ true → held m o ps ≡ dec_zero
      none_behind e = let (em, eo) = is_at_sound m o p e in rw (← em, ← eo, v.2)

  pub basis-append :
      (ps : Positions) (p : LedgerPosition) → basis (ps ++ p ∷ []) ≡ add (basis ps) (cost p)
  unfolding basis
  basis-append [] p = omega dec_laws
  basis-append (q ∷ ps) p = omega (dec_laws, basis-append ps p)

  pub basis-keep : (ps : Positions) → basis (keep is_open ps) ≡ basis ps
  unfolding basis
  basis-keep [] = refl
  basis-keep (p ∷ ps) = elim (Bool-cases (is_zero p.quantity)) [
    | inl e ↦ rw e (
        omega (
          dec_laws,
          basis-keep ps,
          ap (mul p.average_entry) (is_zero→eq p.quantity e),
          mul_zero p.average_entry,
        ))
    | inr e ↦ rw e (ap (add (cost p)) (basis-keep ps))
  ]

  -- A write moves the total cost by what it changes in the one position.
  pub basis-update_first :
      (m : String) (o : Outcome) (f : LedgerPosition → LedgerPosition) (ps : Positions)
      (p : LedgerPosition)
      → find (is_at m o) ps ≡ some p
      → add (basis (update_first (is_at m o) f ps)) (cost p) ≡ add (basis ps) (cost (f p))
  unfolding basis
  basis-update_first m o f [] p h = cc
  basis-update_first m o f (q ∷ ps) p h = elim (Bool-cases (is_at m o q)) [
    | inl e ↦ let same : q ≡ p = ground (arith, e) in rw (e, same) (omega dec_laws)
    | inr e ↦ rw e (omega (dec_laws, basis-update_first m o f ps p (rw e at h)))
  ]
