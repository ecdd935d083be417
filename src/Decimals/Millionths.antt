-- ===== src/Decimals/Millionths.antt =====
-- Decimals with six digits after the point, products and quotients rounded to the nearest of them,
-- halves away from zero, meet the interface of decimals: with them tests run on prices below one.
use pmkit.Decimals.Whole.{less_iff, abs_neg, same_ℤ, at_most_iff, magnitude, same_iff, abs_nonneg}
use pmkit.Base.{
  zero, int_laws, *ℤ_parts, ◌<◌, ◌*◌, refl, ◌/◌, ap, ◌<ℤ◌, ◌∙◌, ◌≤◌, *ℤ_comm, *ℤ_mono, ltb_ℤ, ◌+ℤ◌,
  ◌+◌, ◌*ℤ◌, ◌%◌, ◌≡◌, ◌-ℤ◌, leb_ℤ, ◌≤ℤ◌, ℤ, pos, ℕ, negsuc, sub_ℕ, pos_part, neg_part, arith, suc,
}
use pmkit.Decimals.{Decimals}
use pmkit.Decimals.Whole

-- The nearest whole number to a part of a million.
abbrev pub rounded : ℤ → ℤ
rounded (pos m) = pos ((m + 500000) / 1000000)
rounded (negsuc m) = sub_ℕ 0 ((suc m + 500000) / 1000000)

abbrev pub times : ℤ → ℤ → ℤ
times a b = rounded (a *ℤ b)

abbrev pub nearest : ℕ → ℕ → ℕ
nearest m n = (m * 1000000 + n / 2) / n

abbrev pub over : ℤ → ℤ → ℤ
over (pos m) (pos n) = pos (nearest m n)
over (pos m) (negsuc n) = sub_ℕ 0 (nearest m (suc n))
over (negsuc m) (pos n) = sub_ℕ 0 (nearest (suc m) n)
over (negsuc m) (negsuc n) = pos (nearest (suc m) (suc n))

-- The remainder keeps the sign of the dividend.
abbrev pub left : ℤ → ℤ → ℤ
left (pos m) b = pos (m % (pos_part b + neg_part b))
left (negsuc m) b = sub_ℕ 0 (suc m % (pos_part b + neg_part b))

-- To a number of digits below six, by what one is divided into.
abbrev pub nearest_digits : ℕ → ℕ → ℕ
nearest_digits zero m = (m + 500000) / 1000000 * 1000000
nearest_digits (suc zero) m = (m + 50000) / 100000 * 100000
nearest_digits (suc (suc zero)) m = (m + 5000) / 10000 * 10000
nearest_digits (suc (suc (suc zero))) m = (m + 500) / 1000 * 1000
nearest_digits (suc (suc (suc (suc zero)))) m = (m + 50) / 100 * 100
nearest_digits (suc (suc (suc (suc (suc zero))))) m = (m + 5) / 10 * 10
nearest_digits _ m = m

abbrev pub to_digits : ℕ → ℤ → ℤ
to_digits n (pos m) = pos (nearest_digits n m)
to_digits n (negsuc m) = sub_ℕ 0 (nearest_digits n (suc m))

nearest_digits_mono : (n a b : ℕ) → a ≤ b → nearest_digits n a ≤ nearest_digits n b
nearest_digits_mono zero a b h = omega arith
nearest_digits_mono (suc zero) a b h = omega arith
nearest_digits_mono (suc (suc zero)) a b h = omega arith
nearest_digits_mono (suc (suc (suc zero))) a b h = omega arith
nearest_digits_mono (suc (suc (suc (suc zero)))) a b h = omega arith
nearest_digits_mono (suc (suc (suc (suc (suc zero))))) a b h = omega arith
nearest_digits_mono (suc (suc (suc (suc (suc (suc n)))))) a b h = h

pub to_digits_mono : (n : ℕ) (a b : ℤ) → a ≤ℤ b → to_digits n a ≤ℤ to_digits n b
to_digits_mono n (pos a) (pos b) h = omega (arith, nearest_digits_mono n a b (omega arith))
to_digits_mono n (pos a) (negsuc b) h = absurd (omega arith)
to_digits_mono n (negsuc a) (pos b) h = ground arith
to_digits_mono n (negsuc a) (negsuc b) h =
    ground (arith, nearest_digits_mono n (suc b) (suc a) (omega arith))

pub digits_zero : (n : ℕ) → nearest_digits n 0 ≡ 0
digits_zero zero = refl
digits_zero (suc zero) = refl
digits_zero (suc (suc zero)) = refl
digits_zero (suc (suc (suc zero))) = refl
digits_zero (suc (suc (suc (suc zero)))) = refl
digits_zero (suc (suc (suc (suc (suc zero))))) = refl
digits_zero (suc (suc (suc (suc (suc (suc n)))))) = refl

pub scaled_mono : (a b : ℤ) → a ≤ℤ b → a *ℤ pos 1000000 ≤ℤ b *ℤ pos 1000000
scaled_mono a b h = *ℤ_mono a b (pos 1000000) (omega arith) h

rounded_mono : (a b : ℤ) → a ≤ℤ b → rounded a ≤ℤ rounded b
rounded_mono (pos m) (pos n) h = omega arith
rounded_mono (pos m) (negsuc n) h = absurd (omega arith)
rounded_mono (negsuc m) (pos n) h = ground arith
rounded_mono (negsuc m) (negsuc n) h = ground arith

scaled_pos : (c : ℕ) → pos c *ℤ pos 1000000 ≡ pos (c * 1000000)
scaled_pos c = omega (int_laws, *ℤ_parts (pos c) (pos 1000000))

scaled_negsuc : (c : ℕ) → negsuc c *ℤ pos 1000000 ≡ negsuc (c * 1000000 + 999999)
scaled_negsuc c = omega (int_laws, *ℤ_parts (negsuc c) (pos 1000000))

rounded_exact : (c : ℤ) → rounded (c *ℤ pos 1000000) ≡ c
rounded_exact (pos c) = rw scaled_pos (ap pos (omega arith))
rounded_exact (negsuc c) = rw scaled_negsuc (ground arith)

pub mul_exact : (a b c : ℤ) → a *ℤ b ≡ c *ℤ pos 1000000 → times a b ≡ c
mul_exact a b c h = ap rounded h ∙ rounded_exact c

pub mul_nonneg : (a b : ℤ) → pos 0 ≤ℤ a → pos 0 ≤ℤ b → pos 0 ≤ℤ times a b
mul_nonneg a b h k = rounded_mono (pos 0) (a *ℤ b) (Whole.mul_nonneg a b h k)

pub mul_mono : (a b c : ℤ) → pos 0 ≤ℤ a → b ≤ℤ c → times a b ≤ℤ times a c
mul_mono a b c h k = rounded_mono (a *ℤ b) (a *ℤ c) (Whole.mul_mono a b c h k)

pub div_nonneg : (a b : ℤ) → pos 0 ≤ℤ a → pos 0 <ℤ b → pos 0 ≤ℤ over a b
div_nonneg (pos m) (pos n) h k = omega arith
div_nonneg (negsuc m) b h k = absurd (omega arith)
div_nonneg (pos m) (negsuc n) h k = absurd (omega arith)

nearest_le : (m n b : ℕ) → 0 < n → m * 1000000 ≤ b * n → nearest m n ≤ b
nearest_le m n b k l = grind arith

nearest_ge : (m n b : ℕ) → 0 < n → b * n ≤ m * 1000000 → b ≤ nearest m n
nearest_ge m n b k l = grind arith

pub div_le : (a b q : ℤ) → pos 0 ≤ℤ a → pos 0 <ℤ q → a *ℤ pos 1000000 ≤ℤ b *ℤ q → over a q ≤ℤ b
unfolding ◌*ℤ◌
div_le (negsuc m) b q h k l = absurd (omega arith)
div_le (pos m) b (negsuc n) h k l = absurd (omega arith)
div_le (pos m) (pos b) (pos n) h k l =
    omega (arith, nearest_le m n b (omega arith) (ground (arith, l)))
div_le (pos m) (negsuc b) (pos n) h k l = grind arith

pub div_ge : (a b q : ℤ) → pos 0 ≤ℤ a → pos 0 <ℤ q → b *ℤ q ≤ℤ a *ℤ pos 1000000 → b ≤ℤ over a q
unfolding ◌*ℤ◌
div_ge (negsuc m) b q h k l = absurd (omega arith)
div_ge (pos m) b (negsuc n) h k l = absurd (omega arith)
div_ge (pos m) (pos b) (pos n) h k l =
    omega (arith, nearest_ge m n b (omega arith) (ground (arith, l)))
div_ge (pos m) (negsuc b) (pos n) h k l = omega arith

pub of_int_zero : pos 0 *ℤ pos 1000000 ≡ pos 0
unfolding ◌*ℤ◌
of_int_zero = refl

pub of_int_one : pos 1 *ℤ pos 1000000 ≡ pos 1000000
unfolding ◌*ℤ◌
of_int_one = refl

instance abbrev pub millionths : Decimals
millionths = record {
  Decimal = ℤ;
  units = λ a. a;
  dec_zero = pos 0;
  dec_one = pos 1000000;
  add = ◌+ℤ◌;
  sub = ◌-ℤ◌;
  mul = times;
  div = over;
  rem = left;
  neg = λ a. pos 0 -ℤ a;
  abs = Whole.magnitude;
  same = Whole.same_ℤ;
  less = ltb_ℤ;
  at_most = leb_ℤ;
  is_sign_negative = λ a. ltb_ℤ a (pos 0);
  units-injective = λ a b e. e;
  same_iff = Whole.same_iff;
  less_iff = Whole.less_iff;
  at_most_iff = Whole.at_most_iff;
  is_sign_negative_iff = λ a. Whole.less_iff a (pos 0);
  units-zero = refl;
  units-one = omega arith;
  units-add = λ a b. refl;
  units-sub = λ a b. refl;
  units-neg = λ a. refl;
  abs_nonneg = Whole.abs_nonneg;
  abs_neg = Whole.abs_neg;
  mul_comm = λ a b. ap rounded (*ℤ_comm a b);
  mul_exact = mul_exact;
  mul_nonneg = mul_nonneg;
  mul_mono_units = mul_mono;
  of_int = λ a. a *ℤ pos 1000000;
  round_dp = to_digits;
  of_int-zero = of_int_zero;
  of_int-one = of_int_one;
  of_int_mono = scaled_mono;
  round_dp-zero = λ n. ap pos (digits_zero n);
  round_dp_mono = to_digits_mono;
  div_le = div_le;
  div_ge = div_ge;
  div_nonneg = div_nonneg;
}

-- Whole shares or dollars, and cents.
abbrev pub whole_of : ℕ → ℤ
whole_of n = pos (n * 1000000)

abbrev pub cents : ℕ → ℤ
cents n = pos (n * 10000)
