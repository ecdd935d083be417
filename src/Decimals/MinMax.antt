-- ===== src/Decimals/MinMax.antt =====
-- `Ord::min` and `Ord::max` of decimals, and the order under products.
use pmkit.Base.{◌*ℤ◌, *ℤ_mono}
use pmkit.Base.{◌≤ℤ◌, Bool-cases, inr, arith, refl, ◌⊎◌, ◌≡◌, inl, if◌then◌else◌, ◌∙◌}
use pmkit.Decimals.{
  IsUnrounded, Leq, NonNeg, Decimals, dec_laws, at_most→le, mul_zero, not_at_most→lt, Less,
}

module _ ⦃D : Decimals⦄ where
  open D use {Decimal, dec_zero, add, sub, mul, at_most}

  abbrev pub dec_min : Decimal → Decimal → Decimal
  dec_min a b = if at_most a b then a else b

  abbrev pub dec_max : Decimal → Decimal → Decimal
  dec_max a b = if at_most a b then b else a

  -- The smaller one, with the test that decides.
  pub dec_min-cases :
      (a b : Decimal) → (Leq a b × (dec_min a b ≡ a)) ⊎ (Less b a × (dec_min a b ≡ b))
  dec_min-cases a b = elim (Bool-cases (at_most a b)) [
    | inl e ↦ rw e (inl (at_most→le a b e, refl))
    | inr e ↦ rw e (inr (not_at_most→lt a b e, refl))
  ]

  pub dec_max-cases :
      (a b : Decimal) → (Leq a b × (dec_max a b ≡ b)) ⊎ (Less b a × (dec_max a b ≡ a))
  dec_max-cases a b = elim (Bool-cases (at_most a b)) [
    | inl e ↦ rw e (inl (at_most→le a b e, refl))
    | inr e ↦ rw e (inr (not_at_most→lt a b e, refl))
  ]

  pub mul_mono : (a b c : Decimal) → NonNeg a → Leq b c → Leq (mul a b) (mul a c)
  mul_mono a b c h le = omega (arith, D.mul_mono_units a b c (omega arith) (omega arith))

  pub zero-mul : (a : Decimal) → mul dec_zero a ≡ dec_zero
  zero-mul a = D.mul_comm dec_zero a ∙ mul_zero a

  scaled_le :
      (a b : Decimal) → Leq a b → D.units a *ℤ D.units D.dec_one ≤ℤ D.units b *ℤ D.units D.dec_one
  scaled_le a b le =
      *ℤ_mono (D.units a) (D.units b) (D.units D.dec_one) (omega (arith, D.units-one)) (omega arith)

  -- A quotient that is bounded by an exact product is bounded by the factor.
  pub div-le :
      (a b q : Decimal)
      → IsUnrounded b q
      → NonNeg a
      → Less dec_zero q
      → Leq a (mul b q)
      → Leq (D.div a q) b
  div-le a b q exact h k l = omega (
    arith,
    D.div_le a b q (omega arith) (omega (dec_laws, k)) (rw (← exact) (scaled_le a (mul b q) l)),
  )

  pub div-ge :
      (a b q : Decimal)
      → IsUnrounded b q
      → NonNeg a
      → Less dec_zero q
      → Leq (mul b q) a
      → Leq b (D.div a q)
  div-ge a b q exact h k l = omega (
    arith,
    D.div_ge a b q (omega arith) (omega (dec_laws, k)) (rw (← exact) (scaled_le (mul b q) a l)),
  )
