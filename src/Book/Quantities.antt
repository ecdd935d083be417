-- ===== src/Book/Quantities.antt =====
-- What a fill does to the held quantities (crates/pmkit-book/src/book.rs).
use pmkit.Accounting.Positions.{held}
use pmkit.Accounting.Marks.{sum-cons, sum-nil}
use pmkit.Book.{Position}
use pmkit.Decimals.{dec_laws, Decimals}
use pmkit.Base.{
  ==-refl, update_first, ◌++◌, Option-cases, inl, ap, false, ◌⊎◌, true, find, some, Bool-cases,
  refl, inr, if◌then◌else◌, [], List, ◌==◌, ◌≡◌, ◌∷◌,
}
use pmkit.Domain.{opposite, outcome_beq_iff, outcome_key, up, down, Side, Outcome}
use pmkit.Book.Levels.{
  position_quantities, opened_position, is_outcome, fill_position, signed, held_qty,
  position_quantities_from, apply_fill,
}

module _ ⦃D : Decimals⦄ where
  open D use {Decimal, dec_zero, add, neg}

  abbrev part : Outcome → Outcome → Decimal → Decimal
  part held outcome qty = if held == outcome then qty else dec_zero

  held_qty-cons :
      (p : Position) (positions : List Position) (outcome : Outcome)
      → held_qty (p ∷ positions) outcome
        ≡ add (part p.outcome outcome p.qty) (held_qty positions outcome)
  unfolding held_qty
  held_qty-cons p positions outcome = elim (Bool-cases (p.outcome == outcome)) [
    | inl e ↦ rw e (sum-cons p.qty _)
    | inr e ↦ rw e (omega dec_laws)
  ]

  held_qty-nil : (outcome : Outcome) → held_qty [] outcome ≡ dec_zero
  unfolding held_qty
  held_qty-nil outcome = sum-nil

  part-add :
      (held outcome : Outcome) (a b : Decimal)
      → part held outcome (add a b) ≡ add (part held outcome a) (part held outcome b)
  part-add held outcome a b = elim (Bool-cases (held == outcome)) [
    | inl e ↦ rw e refl
    | inr e ↦ rw e (omega dec_laws)
  ]

  held_qty-append :
      (positions : List Position) (p : Position) (outcome : Outcome)
      → held_qty (positions ++ p ∷ []) outcome
        ≡ add (held_qty positions outcome) (part p.outcome outcome p.qty)
  held_qty-append [] p outcome = omega (dec_laws, held_qty-cons p [] outcome, held_qty-nil outcome)
  held_qty-append (q ∷ positions) p outcome = omega (
    dec_laws,
    held_qty-cons q (positions ++ p ∷ []) outcome,
    held_qty-cons q positions outcome,
    held_qty-append positions p outcome,
  )

  held_qty-update :
      (outcome of_outcome : Outcome) (side : Side) (price quantity : Decimal)
      (positions : List Position) (q : Position)
      → find (is_outcome outcome) positions ≡ some q
      → held_qty
          (update_first (is_outcome outcome) (fill_position side price quantity) positions)
          of_outcome
        ≡ add (held_qty positions of_outcome) (part outcome of_outcome (signed side quantity))
  unfolding fill_position
  held_qty-update outcome of_outcome side price quantity [] q h = cc h
  held_qty-update outcome of_outcome side price quantity (p ∷ positions) q h =
      let filled = fill_position side price quantity p in
      elim (Bool-cases (p.outcome == outcome)) [
        | inl e ↦
            let same : part p.outcome of_outcome (signed side quantity)
                ≡ part outcome of_outcome (signed side quantity) =
              ap (λ held. part held of_outcome (signed side quantity))
                ((outcome_beq_iff p.outcome outcome).0 e) in
            rw e (
              omega (
                dec_laws,
                held_qty-cons filled positions of_outcome,
                held_qty-cons p positions of_outcome,
                part-add p.outcome of_outcome p.qty (signed side quantity),
                same,
              ))
        | inr e ↦ rw e (
            omega (
              dec_laws,
              held_qty-cons p
                  (update_first (is_outcome outcome) (fill_position side price quantity) positions)
                  of_outcome,
              held_qty-cons p positions of_outcome,
              held_qty-update outcome of_outcome side price quantity positions q (rw e at h),
            ))
      ]

  held_qty-fill :
      (outcome of_outcome : Outcome) (side : Side) (price quantity : Decimal)
      (positions : List Position)
      → held_qty (apply_fill outcome side price quantity positions) of_outcome
        ≡ add (held_qty positions of_outcome) (part outcome of_outcome (signed side quantity))
  unfolding apply_fill
  held_qty-fill outcome of_outcome side price quantity positions =
      elim (Option-cases (find (is_outcome outcome) positions)) [
        | inl none_held ↦
            rw none_held
              (held_qty-append positions (opened_position outcome side price quantity) of_outcome)
        | inr (q, found) ↦
            rw found (held_qty-update outcome of_outcome side price quantity positions q found)
      ]

  outcome_cases :
      (o : Outcome)
      → (((o == up) ≡ true) × ((o == down) ≡ false)) ⊎ (((o == up) ≡ false) × ((o == down) ≡ true))
  outcome_cases up = inl (refl, refl)
  outcome_cases down = inr (refl, refl)

  position_quantities_from-add :
      (u d : Decimal) (positions : List Position)
      → let (u', d') = position_quantities_from (u, d) positions in
        (u' ≡ add u (held_qty positions up)) × (d' ≡ add d (held_qty positions down))
  unfolding position_quantities_from
  position_quantities_from-add u d [] =
      (omega (dec_laws, held_qty-nil up), omega (dec_laws, held_qty-nil down))
  position_quantities_from-add u d (p ∷ positions) = elim (outcome_cases p.outcome) [
    | inl (yes_up, not_down) ↦
        let (us, ds) = position_quantities_from-add (add u p.qty) d positions in
        rw yes_up (
          omega (dec_laws, us, rw yes_up at (held_qty-cons p positions up)),
          omega (dec_laws, ds, rw not_down at (held_qty-cons p positions down)),
        )
    | inr (not_up, yes_down) ↦
        let (us, ds) = position_quantities_from-add u (add d p.qty) positions in
        rw not_up (
          omega (dec_laws, us, rw not_up at (held_qty-cons p positions up)),
          omega (dec_laws, ds, rw yes_down at (held_qty-cons p positions down)),
        )
  ]

  -- A fill changes what is held of its outcome by the signed quantity, whatever positions there
  -- are, and nothing of the other outcome; the two totals are what is held of each outcome.
  pub apply_fill-held_qty :
      (outcome : Outcome) (side : Side) (price quantity : Decimal) (positions : List Position)
      → let positions' = apply_fill outcome side price quantity positions in
        (held_qty positions' outcome ≡ add (held_qty positions outcome) (signed side quantity))
        × (held_qty positions' (opposite outcome) ≡ held_qty positions (opposite outcome))
        × ((position_quantities positions').0 ≡ held_qty positions' up)
        × ((position_quantities positions').1 ≡ held_qty positions' down)
  unfolding position_quantities
  apply_fill-held_qty outcome side price quantity positions =
      let (ups, downs) =
        position_quantities_from-add dec_zero dec_zero
          (apply_fill outcome side price quantity positions) in
      let here = held_qty-fill outcome outcome side price quantity positions in
      let there = held_qty-fill outcome (opposite outcome) side price quantity positions in
      (
        rw (==-refl outcome) at here,
        omega (dec_laws, rw (not_opposite outcome) at there),
        omega (dec_laws, ups),
        omega (dec_laws, downs),
      )
    where
      not_opposite : (o : Outcome) → (o == opposite o) ≡ false
      not_opposite up = refl
      not_opposite down = refl
