-- ===== src/Base/Products.antt =====
-- Products of signed integers.
use Prim.Native.Nat.{ℕ, ◌+◌, ◌*◌, ◌≤◌}
use mathlib.Core.Path.{◌≡◌, ap}
use native.Mathlib.Omega.{arith}
use pmkit.Base.Int.{
  ℤ, pos, negsuc, pos_part, neg_part, ◌+ℤ◌, ◌-ℤ◌, ◌*ℤ◌, ◌≤ℤ◌, +ℤ_parts, -ℤ_parts, int_laws,
}

pub *ℤ_parts :
    (a b : ℤ)
    → pos_part (a *ℤ b) + (pos_part a * neg_part b + neg_part a * pos_part b)
      ≡ neg_part (a *ℤ b) + (pos_part a * pos_part b + neg_part a * neg_part b)
unfolding ◌*ℤ◌
*ℤ_parts a b = ground arith

pub *ℤ_comm : (a b : ℤ) → a *ℤ b ≡ b *ℤ a
*ℤ_comm a b = omega (int_laws, *ℤ_parts a b, *ℤ_parts b a)

pub *ℤ_add : (a b c : ℤ) → a *ℤ (b +ℤ c) ≡ a *ℤ b +ℤ a *ℤ c
*ℤ_add a b c = omega (
  int_laws,
  *ℤ_parts a b,
  *ℤ_parts a c,
  *ℤ_parts a (b +ℤ c),
  ap (λ (t : ℕ). pos_part a * t) (+ℤ_parts b c),
  ap (λ (t : ℕ). neg_part a * t) (+ℤ_parts b c),
)

pub *ℤ_sub : (a b c : ℤ) → a *ℤ (b -ℤ c) ≡ a *ℤ b -ℤ a *ℤ c
*ℤ_sub a b c = omega (
  int_laws,
  *ℤ_parts a b,
  *ℤ_parts a c,
  *ℤ_parts a (b -ℤ c),
  ap (λ (t : ℕ). pos_part a * t) (-ℤ_parts b c),
  ap (λ (t : ℕ). neg_part a * t) (-ℤ_parts b c),
)

pub add_*ℤ : (a b c : ℤ) → (a +ℤ b) *ℤ c ≡ a *ℤ c +ℤ b *ℤ c
add_*ℤ a b c = rw (*ℤ_comm (a +ℤ b) c, *ℤ_comm a c, *ℤ_comm b c) (*ℤ_add c a b)

pub sub_*ℤ : (a b c : ℤ) → (a -ℤ b) *ℤ c ≡ a *ℤ c -ℤ b *ℤ c
sub_*ℤ a b c = rw (*ℤ_comm (a -ℤ b) c, *ℤ_comm a c, *ℤ_comm b c) (*ℤ_sub c a b)

pub *ℤ_zero : (a : ℤ) → a *ℤ pos 0 ≡ pos 0
*ℤ_zero a = omega (int_laws, *ℤ_parts a (pos 0))

pub *ℤ_mono : (a b c : ℤ) → pos 0 ≤ℤ c → a ≤ℤ b → a *ℤ c ≤ℤ b *ℤ c
*ℤ_mono a b (negsuc n) h k = absurd (omega arith)
*ℤ_mono a b (pos n) h k = omega (
  arith,
  *ℤ_parts a (pos n),
  *ℤ_parts b (pos n),
  scaled (pos_part a + neg_part b) (pos_part b + neg_part a) n k,
)
  where
    scaled : (x y n : ℕ) → x ≤ y → x * n ≤ y * n
    scaled x y n h = grind arith
