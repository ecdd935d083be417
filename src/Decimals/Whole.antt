-- ===== src/Decimals/Whole.antt =====
-- Whole numbers, whose step is one, meet the interface of decimals: with them most tests run.
use pmkit.Base.{
  *ℤ_parts, *ℤ_comm, *ℤ_mono, ◌∙◌, leb_ℤ, suc, pos, ℤ, refl, pos_part, inl, ◌⊎◌, ◌*ℤ◌, int_laws,
  ◌+ℤ◌, ◌≡◌, sub_ℕ, arith, ◌≤ℤ◌, ltb_ℤ, inr, eq_of_parts, ◌↔◌, ◌/◌, neg_part, ◌+◌, nat_beq, Bool,
  true, negsuc, ◌-ℤ◌, ◌<ℤ◌, ap,
}
use pmkit.Decimals.{Decimals}

-- Division truncates towards zero.
abbrev quotient : ℤ → ℤ → ℤ
quotient (pos m) (pos n) = pos (m / n)
quotient (pos m) (negsuc n) = sub_ℕ 0 (m / suc n)
quotient (negsuc m) (pos n) = sub_ℕ 0 (suc m / n)
quotient (negsuc m) (negsuc n) = pos (suc m / suc n)

abbrev pub remainder : ℤ → ℤ → ℤ
remainder a b = a -ℤ quotient a b *ℤ b

abbrev pub magnitude : ℤ → ℤ
magnitude a = pos (pos_part a + neg_part a)

abbrev pub same_ℤ : ℤ → ℤ → Bool
same_ℤ a b = nat_beq (pos_part a + neg_part b) (pos_part b + neg_part a)

parts_disjoint : (a : ℤ) → (pos_part a ≡ 0) ⊎ (neg_part a ≡ 0)
parts_disjoint (pos n) = inr refl
parts_disjoint (negsuc n) = inl refl

pub same_iff : (a b : ℤ) → (same_ℤ a b ≡ true) ↔ (a ≡ b)
same_iff a b = (λ h. eq_of_parts a b (ground arith), λ e. rw e (ground arith))

pub less_iff : (a b : ℤ) → (ltb_ℤ a b ≡ true) ↔ (a <ℤ b)
less_iff a b = (λ h. ground arith, λ h. ground arith)

pub at_most_iff : (a b : ℤ) → (leb_ℤ a b ≡ true) ↔ (a ≤ℤ b)
at_most_iff a b = (λ h. ground arith, λ h. ground arith)

pub mul_nonneg : (a b : ℤ) → pos 0 ≤ℤ a → pos 0 ≤ℤ b → pos 0 ≤ℤ a *ℤ b
unfolding ◌*ℤ◌
mul_nonneg (pos m) (pos n) h k = ground arith
mul_nonneg (pos m) (negsuc n) h k = absurd (omega arith)
mul_nonneg (negsuc m) (pos n) h k = absurd (omega arith)
mul_nonneg (negsuc m) (negsuc n) h k = absurd (omega arith)

pub div_nonneg : (a b : ℤ) → pos 0 ≤ℤ a → pos 0 <ℤ b → pos 0 ≤ℤ quotient a b
div_nonneg (pos m) (pos n) h k = omega arith
div_nonneg (negsuc m) b h k = absurd (omega arith)
div_nonneg (pos m) (negsuc n) h k = absurd (omega arith)

pub abs_nonneg : (a : ℤ) → pos 0 ≤ℤ a → magnitude a ≡ a
abs_nonneg (pos n) h = ap pos (omega arith)
abs_nonneg (negsuc n) h = absurd (omega arith)

pub abs_neg : (a : ℤ) → a ≤ℤ pos 0 → magnitude a ≡ pos 0 -ℤ a
abs_neg a h = omega (int_laws, parts_disjoint a)

within_le : (a b q : ℤ) → pos 0 ≤ℤ a → pos 0 <ℤ q → a ≤ℤ b *ℤ q → quotient a q ≤ℤ b
unfolding ◌*ℤ◌
within_le (negsuc m) b q h k l = absurd (omega arith)
within_le (pos m) b (negsuc n) h k l = absurd (omega arith)
within_le (pos m) (pos b) (pos n) h k l = grind arith
within_le (pos m) (negsuc b) (pos n) h k l = grind arith

within_ge : (a b q : ℤ) → pos 0 ≤ℤ a → pos 0 <ℤ q → b *ℤ q ≤ℤ a → b ≤ℤ quotient a q
unfolding ◌*ℤ◌
within_ge (negsuc m) b q h k l = absurd (omega arith)
within_ge (pos m) b (negsuc n) h k l = absurd (omega arith)
within_ge (pos m) (pos b) (pos n) h k l = grind arith
within_ge (pos m) (negsuc b) (pos n) h k l = omega arith

mul_one : (a : ℤ) → a *ℤ pos 1 ≡ a
mul_one a = omega (int_laws, *ℤ_parts a (pos 1))

pub mul_exact : (a b c : ℤ) → a *ℤ b ≡ c *ℤ pos 1 → a *ℤ b ≡ c
mul_exact a b c h = h ∙ mul_one c

pub mul_mono : (a b c : ℤ) → pos 0 ≤ℤ a → b ≤ℤ c → a *ℤ b ≤ℤ a *ℤ c
mul_mono a b c h k = rw (*ℤ_comm a b, *ℤ_comm a c) (*ℤ_mono b c a h k)

pub div_le : (a b q : ℤ) → pos 0 ≤ℤ a → pos 0 <ℤ q → a *ℤ pos 1 ≤ℤ b *ℤ q → quotient a q ≤ℤ b
div_le a b q h k l = within_le a b q h k (rw mul_one at l)

pub div_ge : (a b q : ℤ) → pos 0 ≤ℤ a → pos 0 <ℤ q → b *ℤ q ≤ℤ a *ℤ pos 1 → b ≤ℤ quotient a q
div_ge a b q h k l = within_ge a b q h k (rw mul_one at l)

instance abbrev pub whole : Decimals
whole = record {
  Decimal = ℤ;
  units = λ a. a;
  dec_zero = pos 0;
  dec_one = pos 1;
  add = ◌+ℤ◌;
  sub = ◌-ℤ◌;
  mul = ◌*ℤ◌;
  div = quotient;
  rem = remainder;
  neg = λ a. pos 0 -ℤ a;
  abs = magnitude;
  same = same_ℤ;
  less = ltb_ℤ;
  at_most = leb_ℤ;
  is_sign_negative = λ a. ltb_ℤ a (pos 0);
  units-injective = λ a b e. e;
  same_iff = same_iff;
  less_iff = less_iff;
  at_most_iff = at_most_iff;
  is_sign_negative_iff = λ a. less_iff a (pos 0);
  units-zero = refl;
  units-one = omega arith;
  units-add = λ a b. refl;
  units-sub = λ a b. refl;
  units-neg = λ a. refl;
  abs_nonneg = abs_nonneg;
  abs_neg = abs_neg;
  mul_comm = *ℤ_comm;
  mul_exact = mul_exact;
  mul_nonneg = mul_nonneg;
  mul_mono_units = mul_mono;
  of_int = λ a. a;
  round_dp = λ n a. a;
  of_int-zero = refl;
  of_int-one = refl;
  of_int_mono = λ a b h. h;
  round_dp-zero = λ n. refl;
  round_dp_mono = λ n a b h. h;
  div_le = div_le;
  div_ge = div_ge;
  div_nonneg = div_nonneg;
}
