-- ===== src/Accounting/Quantities.antt =====
-- The quantity held of each market and outcome, and the cost of the open positions, under the
-- writes of `add_position` and `remove_position` (crates/pmkit-accounting/src/lib.rs).
use pmkit.Domain.{Outcome}
use pmkit.Accounting.{LedgerPosition, shrink, is_at, grow, opened}
use pmkit.Base.{
  inl, ◌++◌, refl, Bool-cases, sym, find-append_none, none, find, if◌then◌else◌, Option-cases,
  String, [], ◌≡◌, find-append_some, update_first, some, ◌∷◌, inr,
}
use pmkit.Accounting.Positions.{
  held, same_key_sound, Positions, grow-KeepsKey, basis, same_key, shrink-KeepsKey, cost,
  basis-update_first, find-update_first,
}
use pmkit.Decimals.{IsUnrounded, Leq, dec_laws, mul-sub, NonNeg, zero_add, Decimals}

module _ ⦃D : Decimals⦄ where
  open D use {Decimal, dec_zero, add, sub, mul, div, less, is_sign_negative}

  -- One entry of the map from market and outcome to quantity moves, every other entry stays.
  abbrev pub moved : (Decimal → Decimal) → String → Outcome → String → Outcome → Decimal → Decimal
  moved f m o m' o' q = if same_key m o m' o' then f q else q

  pub held-append :
      (m m' : String) (o o' : Outcome) (quantity price : Decimal) (ps : Positions)
      → find (is_at m o) ps ≡ none
      → held m' o' (ps ++ opened m o quantity price ∷ [])
        ≡ moved (λ h. add h quantity) m o m' o' (held m' o' ps)
  unfolding held
  held-append m m' o o' quantity price ps e = elim (Bool-cases (same_key m o m' o')) [
    | inl k ↦
        let (em, eo) = same_key_sound m m' o o' k in
        let fresh : find (is_at m' o') ps ≡ none = rw (← em, ← eo) e in
        rw (k, find-append_none (is_at m' o') ps (opened m o quantity price ∷ []) fresh, fresh, k)
          (sym (zero_add quantity))
    | inr k ↦ elim (Option-cases (find (is_at m' o') ps)) [
      | inl none' ↦
          rw (k, find-append_none (is_at m' o') ps (opened m o quantity price ∷ []) none', none', k)
      | inr (p, found) ↦
          rw (k, find-append_some (is_at m' o') ps (opened m o quantity price ∷ []) p found, found)
    ]
  ]

  pub held-grow :
      (m m' : String) (o o' : Outcome) (quantity price : Decimal) (ps : Positions)
      (p : LedgerPosition)
      → find (is_at m o) ps ≡ some p
      → held m' o' (update_first (is_at m o) (grow quantity price) ps)
        ≡ moved (λ h. add h quantity) m o m' o' (held m' o' ps)
  unfolding held
  held-grow m m' o o' quantity price ps p e =
      rw (find-update_first m m' o o' (grow quantity price) ps (grow-KeepsKey quantity price))
        (elim (Bool-cases (same_key m o m' o')) [
          | inl k ↦
              let (em, eo) = same_key_sound m m' o o' k in
              let found : find (is_at m' o') ps ≡ some p = rw (← em, ← eo) e in
              rw (k, found) (unfold grow in refl)
          | inr k ↦ rw k
        ])

  pub held-shrink :
      (m m' : String) (o o' : Outcome) (quantity : Decimal) (ps : Positions)
      → NonNeg quantity
      → Leq quantity (held m o ps)
      → held m' o' (update_first (is_at m o) (shrink quantity) ps)
        ≡ moved (λ h. sub h quantity) m o m' o' (held m' o' ps)
  unfolding held
  held-shrink m m' o o' quantity ps q fits =
      rw (find-update_first m m' o o' (shrink quantity) ps (shrink-KeepsKey quantity))
        (elim (Bool-cases (same_key m o m' o')) [
          | inl k ↦
              let (em, eo) = same_key_sound m m' o o' k in
              elim (Option-cases (find (is_at m' o') ps)) [
                | inl fresh ↦ rw (k, fresh) (omega (dec_laws, rw (em, eo, fresh) at fits))
                | inr (p, found) ↦ rw (k, found) (unfold shrink in refl)
              ]
          | inr k ↦ rw k
        ])

  abbrev cost_after : Decimal → Decimal → LedgerPosition → Decimal
  cost_after quantity price p = add (mul p.average_entry p.quantity) (mul price quantity)

  -- The new average, times the new quantity, is the cost so far with the cost of the fill: no
  -- rounding is left in the average.
  abbrev pub IsExactAt : Decimal → Decimal → LedgerPosition → Type 0
  IsExactAt quantity price p =
      mul (div (cost_after quantity price p) (add p.quantity quantity)) (add p.quantity quantity)
      ≡ cost_after quantity price p

  pub basis-grow :
      (m : String) (o : Outcome) (quantity price : Decimal) (ps : Positions) (p : LedgerPosition)
      → find (is_at m o) ps ≡ some p
      → IsExactAt quantity price p
      → basis (update_first (is_at m o) (grow quantity price) ps)
        ≡ add (basis ps) (mul price quantity)
  basis-grow m o quantity price ps p e exact =
      omega (dec_laws, basis-update_first m o (grow quantity price) ps p e, exact, grow-cost)
    where
      grow-cost :
          cost (grow quantity price p)
          ≡ mul
              (div (cost_after quantity price p) (add p.quantity quantity))
              (add p.quantity quantity)
      grow-cost = unfold grow in refl

  pub basis-shrink :
      (m : String) (o : Outcome) (quantity : Decimal) (ps : Positions) (p : LedgerPosition)
      → find (is_at m o) ps ≡ some p
      → IsUnrounded p.average_entry p.quantity
      → IsUnrounded p.average_entry quantity
      → basis (update_first (is_at m o) (shrink quantity) ps)
        ≡ sub (basis ps) (mul p.average_entry quantity)
  basis-shrink m o quantity ps p e all part = omega (
    dec_laws,
    basis-update_first m o (shrink quantity) ps p e,
    shrink-cost,
    mul-sub p.average_entry p.quantity quantity all part,
  )
    where
      shrink-cost : cost (shrink quantity p) ≡ mul p.average_entry (sub p.quantity quantity)
      shrink-cost = unfold shrink in refl
