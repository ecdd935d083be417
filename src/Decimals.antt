-- ===== src/Decimals.antt =====
-- The interface of the crate `rust_decimal`, which the workspace only calls (Cargo.toml): a type of
-- decimal numbers with its operations and comparisons, and the laws that the code relies on.
-- `units d` is the number that `d` stands for, in multiples of the smallest step that is kept, so
-- one is some positive number of steps: 10^28 of them at the crate's full scale, a million in
-- Decimals/Millionths, a single one in Decimals/Whole. Sums are exact. A product or a quotient may
-- fall between two steps and is rounded then, so products do not distribute over sums in general;
-- `IsUnrounded a b` says that the product of `a` and `b` needs no rounding, and the theorems that
-- depend on it assume it of the products they are about.
-- Decimals that compare equal are one value here: trailing zeros and the sign of a zero, which only
-- printing and `is_sign_negative` can see, are not told apart, and results that exceed the crate's
-- 96-bit coefficient, where it panics or keeps fewer digits, are outside the laws. Division by zero
-- panics, and the functions that divide test for it before they use `div`.
pub mod Whole
pub mod Millionths
pub mod MinMax
use mathlib.Core.Bool.{false≢true}
use pmkit.Base.{
  ℕ, ◌+◌, ◌≤◌, ◌<◌, ◌≡◌, ◌↔◌, ◌≢◌, ◌⊎◌, inl, inr, refl, ap, sym, ◌∙◌, Bool, true, false, Key, ℤ,
  pos, ◌+ℤ◌, ◌-ℤ◌, ◌<ℤ◌, ◌≤ℤ◌, arith, pos_part, neg_part, +ℤ_parts, -ℤ_parts, eq_of_parts,
  Bool-cases, ◌*ℤ◌, *ℤ_comm, *ℤ_add, *ℤ_sub, add_*ℤ, sub_*ℤ, *ℤ_zero,
}

pub record Decimals : Type 1 where
  pub Decimal : Type 0
  pub units : Decimal → ℤ
  pub dec_zero : Decimal
  pub dec_one : Decimal
  pub add : Decimal → Decimal → Decimal
  pub sub : Decimal → Decimal → Decimal
  pub mul : Decimal → Decimal → Decimal
  pub div : Decimal → Decimal → Decimal
  pub rem : Decimal → Decimal → Decimal
  pub neg : Decimal → Decimal
  pub abs : Decimal → Decimal
  -- `==`, `<` and `<=`
  pub same : Decimal → Decimal → Bool
  pub less : Decimal → Decimal → Bool
  pub at_most : Decimal → Decimal → Bool
  pub is_sign_negative : Decimal → Bool
  -- `Decimal::from` of an integer, and `round_dp`
  pub of_int : ℤ → Decimal
  pub round_dp : ℕ → Decimal → Decimal
  -- the comparisons are those of the numbers
  pub units-injective : (a b : Decimal) → units a ≡ units b → a ≡ b
  pub same_iff : (a b : Decimal) → (same a b ≡ true) ↔ (a ≡ b)
  pub less_iff : (a b : Decimal) → (less a b ≡ true) ↔ (units a <ℤ units b)
  pub at_most_iff : (a b : Decimal) → (at_most a b ≡ true) ↔ (units a ≤ℤ units b)
  pub is_sign_negative_iff : (a : Decimal) → (is_sign_negative a ≡ true) ↔ (units a <ℤ pos 0)
  -- sums are exact
  pub units-zero : units dec_zero ≡ pos 0
  pub units-one : pos 0 <ℤ units dec_one
  pub units-add : (a b : Decimal) → units (add a b) ≡ units a +ℤ units b
  pub units-sub : (a b : Decimal) → units (sub a b) ≡ units a -ℤ units b
  pub units-neg : (a : Decimal) → units (neg a) ≡ pos 0 -ℤ units a
  pub abs_nonneg : (a : Decimal) → pos 0 ≤ℤ units a → abs a ≡ a
  pub abs_neg : (a : Decimal) → units a ≤ℤ pos 0 → abs a ≡ neg a
  -- a product is rounded to a step, so it is exact where a decimal has its value, and keeps order
  pub mul_comm : (a b : Decimal) → mul a b ≡ mul b a
  pub mul_exact : (a b c : Decimal) → units a *ℤ units b ≡ units c *ℤ units dec_one → mul a b ≡ c
  pub mul_nonneg : (a b : Decimal) → pos 0 ≤ℤ units a → pos 0 ≤ℤ units b → pos 0 ≤ℤ units (mul a b)
  pub mul_mono_units :
      (a b c : Decimal) → pos 0 ≤ℤ units a → units b ≤ℤ units c → units (mul a b) ≤ℤ units (mul a c)
  -- integers keep their order, and rounding keeps the order
  pub of_int-zero : of_int (pos 0) ≡ dec_zero
  pub of_int-one : of_int (pos 1) ≡ dec_one
  pub of_int_mono : (a b : ℤ) → a ≤ℤ b → units (of_int a) ≤ℤ units (of_int b)
  pub round_dp-zero : (n : ℕ) → round_dp n dec_zero ≡ dec_zero
  pub round_dp_mono :
      (n : ℕ) (a b : Decimal) → units a ≤ℤ units b → units (round_dp n a) ≤ℤ units (round_dp n b)
  -- a quotient is rounded to a nearest decimal, so it does not pass a decimal that bounds it
  pub div_le :
      (a b q : Decimal)
      → pos 0 ≤ℤ units a
      → pos 0 <ℤ units q
      → units a *ℤ units dec_one ≤ℤ units b *ℤ units q
      → units (div a q) ≤ℤ units b
  pub div_ge :
      (a b q : Decimal)
      → pos 0 ≤ℤ units a
      → pos 0 <ℤ units q
      → units b *ℤ units q ≤ℤ units a *ℤ units dec_one
      → units b ≤ℤ units (div a q)
  -- a quotient has the sign of its operands
  pub div_nonneg : (a b : Decimal) → pos 0 ≤ℤ units a → pos 0 <ℤ units b → pos 0 ≤ℤ units (div a b)

-- Facts that follow, in the form that `omega` reads: a decimal by the two parts of its `units`.
module _ ⦃D : Decimals⦄ where
  open D use {
    Decimal, units, dec_zero, add, sub, mul, div, neg, same, less, at_most, is_sign_negative,
  }

  abbrev pub decimal_eq : Key Decimal
  decimal_eq = record { matches = same; matches_iff = D.same_iff }

  abbrev pub is_zero : Decimal → Bool
  is_zero d = same d dec_zero

  abbrev pub plus : Decimal → ℕ
  plus d = pos_part (units d)

  abbrev pub minus : Decimal → ℕ
  minus d = neg_part (units d)

  -- The orders of decimals as statements.
  abbrev pub Leq : Decimal → Decimal → Type 0
  Leq a b = plus a + minus b ≤ plus b + minus a

  abbrev pub Less : Decimal → Decimal → Type 0
  Less a b = plus a + minus b < plus b + minus a

  abbrev pub NonNeg : Decimal → Type 0
  NonNeg a = minus a ≤ plus a

  pub add_parts :
      (a b : Decimal) → plus (add a b) + minus a + minus b ≡ minus (add a b) + plus a + plus b
  add_parts a b = rw (D.units-add a b) (+ℤ_parts (units a) (units b))

  pub sub_parts :
      (a b : Decimal) → plus (sub a b) + minus a + plus b ≡ minus (sub a b) + plus a + minus b
  sub_parts a b = rw (D.units-sub a b) (-ℤ_parts (units a) (units b))

  pub neg_parts : (a : Decimal) → plus (neg a) + plus a ≡ minus (neg a) + minus a
  neg_parts a = rw (D.units-neg a) (omega (arith, -ℤ_parts (pos 0) (units a)))

  pub zero_parts : plus dec_zero ≡ minus dec_zero
  zero_parts = rw D.units-zero

  pub parts_of_eq : (a b : Decimal) → a ≡ b → plus a + minus b ≡ plus b + minus a
  parts_of_eq a b e = rw e

  pub dec_eq : (a b : Decimal) → plus a + minus b ≡ plus b + minus a → a ≡ b
  dec_eq a b h = D.units-injective a b (eq_of_parts (units a) (units b) h)

  pub is_zero→eq : (a : Decimal) → is_zero a ≡ true → a ≡ dec_zero
  is_zero→eq a = (D.same_iff a dec_zero).0

  pub eq→is_zero : (a : Decimal) → a ≡ dec_zero → is_zero a ≡ true
  eq→is_zero a = (D.same_iff a dec_zero).1

  pub not_zero→ne : (a : Decimal) → is_zero a ≡ false → a ≢ dec_zero
  not_zero→ne a h e = false≢true (sym h ∙ eq→is_zero a e)

  pub less→lt : (a b : Decimal) → less a b ≡ true → Less a b
  less→lt a b = (D.less_iff a b).0

  pub lt→less : (a b : Decimal) → Less a b → less a b ≡ true
  lt→less a b = (D.less_iff a b).1

  pub not_less→le : (a b : Decimal) → less a b ≡ false → Leq b a
  not_less→le a b h = elim (le_or_lt b a) [
    | inl le ↦ le
    | inr lt ↦ absurd (false≢true (sym h ∙ lt→less a b lt))
  ]
    where
      le_or_lt : (b a : Decimal) → Leq b a ⊎ Less a b
      le_or_lt b a = omega arith

  pub le→not_less : (a b : Decimal) → Leq b a → less a b ≡ false
  le→not_less a b h = elim (Bool-cases (less a b)) [
    | inl e ↦ absurd (omega (arith, less→lt a b e))
    | inr e ↦ e
  ]

  pub at_most→le : (a b : Decimal) → at_most a b ≡ true → Leq a b
  at_most→le a b = (D.at_most_iff a b).0

  pub not_at_most→lt : (a b : Decimal) → at_most a b ≡ false → Less b a
  not_at_most→lt a b h = elim (le_or_lt a b) [
    | inl le ↦ absurd (false≢true (sym h ∙ (D.at_most_iff a b).1 le))
    | inr lt ↦ lt
  ]
    where
      le_or_lt : (a b : Decimal) → Leq a b ⊎ Less b a
      le_or_lt a b = omega arith

  pub not_negative→nonneg : (a : Decimal) → is_sign_negative a ≡ false → NonNeg a
  not_negative→nonneg a h = elim (le_or_lt a) [
    | inl le ↦ le
    | inr lt ↦ absurd (false≢true (sym h ∙ (D.is_sign_negative_iff a).1 lt))
  ]
    where
      le_or_lt : (a : Decimal) → NonNeg a ⊎ (plus a + 0 < 0 + minus a)
      le_or_lt a = omega arith

  pub negative→lt : (a : Decimal) → is_sign_negative a ≡ true → plus a < minus a
  negative→lt a h = omega (arith, (D.is_sign_negative_iff a).0 h)

  pub nonneg→not_negative : (a : Decimal) → NonNeg a → is_sign_negative a ≡ false
  nonneg→not_negative a h = elim (Bool-cases (is_sign_negative a)) [
    | inl e ↦ absurd (omega (arith, negative→lt a e))
    | inr e ↦ e
  ]

  pub mul_NonNeg : (a b : Decimal) → NonNeg a → NonNeg b → NonNeg (mul a b)
  mul_NonNeg a b h k = omega (arith, D.mul_nonneg a b (omega arith) (omega arith))

  pub positive_of_nonneg : (a : Decimal) → NonNeg a → is_zero a ≡ false → minus a < plus a
  positive_of_nonneg a h z = elim (split a h) [
    | inl eq ↦ absurd (not_zero→ne a z (dec_eq a dec_zero (omega (arith, zero_parts))))
    | inr lt ↦ lt
  ]
    where
      split : (a : Decimal) → NonNeg a → (plus a ≡ minus a) ⊎ (minus a < plus a)
      split a h = omega arith

  pub positive→not_zero : (a : Decimal) → minus a < plus a → is_zero a ≡ false
  positive→not_zero a h = elim (Bool-cases (is_zero a)) [
    | inl e ↦ absurd (omega (arith, parts_of_eq a dec_zero (is_zero→eq a e), zero_parts))
    | inr e ↦ e
  ]

  pub div_NonNeg : (a b : Decimal) → NonNeg a → minus b < plus b → NonNeg (div a b)
  div_NonNeg a b h k = omega (arith, D.div_nonneg a b (omega arith) (omega arith))

-- For `omega`: sums, comparisons and equations of decimals.
pub ruleset dec_laws = (
  arith, add_parts, sub_parts, neg_parts, zero_parts, parts_of_eq, dec_eq, less→lt, lt→less,
  not_less→le, le→not_less, at_most→le, not_at_most→lt, not_negative→nonneg, negative→lt,
)

module _ ⦃D : Decimals⦄ where
  open D use {Decimal, dec_zero, add, sub, mul}

  pub add_zero : (a : Decimal) → add a dec_zero ≡ a
  add_zero a = omega dec_laws

  pub zero_add : (a : Decimal) → add dec_zero a ≡ a
  zero_add a = omega dec_laws

  -- The product of two decimals needs no rounding.
  abbrev pub IsUnrounded : Decimal → Decimal → Type 0
  IsUnrounded a b = D.units (mul a b) *ℤ D.units D.dec_one ≡ D.units a *ℤ D.units b

  pub IsUnrounded-comm : (a b : Decimal) → IsUnrounded a b → IsUnrounded b a
  IsUnrounded-comm a b h = rw (D.mul_comm b a, *ℤ_comm (D.units b) (D.units a)) h

  exact_zero : (a : Decimal) → D.units a *ℤ D.units dec_zero ≡ D.units dec_zero *ℤ D.units D.dec_one
  exact_zero a = rw (D.units-zero, *ℤ_zero, *ℤ_comm (pos 0) (D.units D.dec_one), *ℤ_zero)

  exact-add :
      (a b c : Decimal)
      → IsUnrounded a b
      → IsUnrounded a c
      → D.units a *ℤ D.units (add b c) ≡ D.units (add (mul a b) (mul a c)) *ℤ D.units D.dec_one
  exact-add a b c h k = rw (D.units-add b c, D.units-add (mul a b) (mul a c), *ℤ_add, add_*ℤ, h, k)

  exact-sub :
      (a b c : Decimal)
      → IsUnrounded a b
      → IsUnrounded a c
      → D.units a *ℤ D.units (sub b c) ≡ D.units (sub (mul a b) (mul a c)) *ℤ D.units D.dec_one
  exact-sub a b c h k = rw (D.units-sub b c, D.units-sub (mul a b) (mul a c), *ℤ_sub, sub_*ℤ, h, k)

  pub mul_zero : (a : Decimal) → mul a dec_zero ≡ dec_zero
  mul_zero a = D.mul_exact a dec_zero dec_zero (exact_zero a)

  pub mul_one : (a : Decimal) → mul a D.dec_one ≡ a
  mul_one a = D.mul_exact a D.dec_one a refl

  pub mul-add :
      (a b c : Decimal)
      → IsUnrounded a b
      → IsUnrounded a c
      → mul a (add b c) ≡ add (mul a b) (mul a c)
  mul-add a b c h k = D.mul_exact a (add b c) (add (mul a b) (mul a c)) (exact-add a b c h k)

  pub mul-sub :
      (a b c : Decimal)
      → IsUnrounded a b
      → IsUnrounded a c
      → mul a (sub b c) ≡ sub (mul a b) (mul a c)
  mul-sub a b c h k = D.mul_exact a (sub b c) (sub (mul a b) (mul a c)) (exact-sub a b c h k)

  pub sub-mul :
      (a b c : Decimal)
      → IsUnrounded a c
      → IsUnrounded b c
      → mul (sub a b) c ≡ sub (mul a c) (mul b c)
  sub-mul a b c h k =
      rw (D.mul_comm (sub a b) c, D.mul_comm a c, D.mul_comm b c)
        (mul-sub c a b (IsUnrounded-comm a c h) (IsUnrounded-comm b c k))

  -- Exact products are closed under sums and differences of a factor.
  pub IsUnrounded-zero : (a : Decimal) → IsUnrounded a dec_zero
  IsUnrounded-zero a = rw (mul_zero a) (sym (exact_zero a))

  pub IsUnrounded-one : (a : Decimal) → IsUnrounded a D.dec_one
  IsUnrounded-one a = rw (mul_one a)

  pub IsUnrounded-add :
      (a b c : Decimal) → IsUnrounded a b → IsUnrounded a c → IsUnrounded a (add b c)
  IsUnrounded-add a b c h k = rw (mul-add a b c h k) (sym (exact-add a b c h k))

  pub IsUnrounded-sub :
      (a b c : Decimal) → IsUnrounded a b → IsUnrounded a c → IsUnrounded a (sub b c)
  IsUnrounded-sub a b c h k = rw (mul-sub a b c h k) (sym (exact-sub a b c h k))
