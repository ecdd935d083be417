-- ===== src/Math/Walk.antt =====
-- What `walk_book` (crates/pmkit-math/src/fill.rs) takes from a book.
use pmkit.Math.Fill.{walk_book, is_beyond, walk}
use pmkit.Accounting.Positions.{cost}
use pmkit.Decimals.MinMax.{mul_mono, div-ge, div-le, dec_min-cases, dec_min}
use pmkit.Decimals.{
  mul-add, IsUnrounded-sub, IsUnrounded, IsUnrounded-zero, IsUnrounded-add, Leq, less→lt,
  parts_of_eq, Less, mul_zero, mul_NonNeg, not_less→le, zero_add, Decimals, NonNeg, dec_laws,
}
use pmkit.Base.{
  none, refl, true, some, false, ◌∙◌, Bool, ◌∷◌, inl, inr, List, [], ◌≡◌, Bool-cases, if◌then◌else◌,
}

module _ ⦃D : Decimals⦄ where
  open D use {Decimal, dec_zero, add, sub, mul, div, less, at_most}

  -- Levels with prices and quantities that are not negative.
  abbrev pub AreNonNeg : List (Decimal × Decimal) → Type 0
  AreNonNeg [] = Unit
  AreNonNeg ((price, qty) ∷ levels) = NonNeg price × NonNeg qty × AreNonNeg levels

  -- The products of a price with the quantities of the levels need no rounding.
  abbrev pub AreUnrounded : Decimal → List (Decimal × Decimal) → Type 0
  AreUnrounded limit_price [] = Unit
  AreUnrounded limit_price ((_, qty) ∷ levels) =
      IsUnrounded limit_price qty × AreUnrounded limit_price levels

  min-IsUnrounded :
      (limit_price a b : Decimal)
      → IsUnrounded limit_price a
      → IsUnrounded limit_price b
      → IsUnrounded limit_price (dec_min a b)
  min-IsUnrounded limit_price a b h k = elim (dec_min-cases a b) [
    | inl (_, e) ↦ rw e h
    | inr (_, e) ↦ rw e k
  ]

  -- The quantity of the levels before the first one that the limit excludes.
  abbrev pub depth : Decimal → Bool → List (Decimal × Decimal) → Decimal
  depth limit_price is_buy [] = dec_zero
  depth limit_price is_buy ((price, qty) ∷ levels) =
      let rest = depth limit_price is_buy levels in
      if is_beyond limit_price is_buy price then dec_zero else add qty rest

  depth_nonneg :
      (limit_price : Decimal) (is_buy : Bool) (levels : List (Decimal × Decimal))
      → AreNonNeg levels
      → NonNeg (depth limit_price is_buy levels)
  depth_nonneg limit_price is_buy [] h = omega dec_laws
  depth_nonneg limit_price is_buy ((price, qty) ∷ levels) (_, q, h) =
      elim (Bool-cases (is_beyond limit_price is_buy price)) [
        | inl e ↦ rw e (omega dec_laws)
        | inr e ↦ rw e (omega (dec_laws, q, depth_nonneg limit_price is_buy levels h))
      ]

  -- The quantity taken is the depth, or all that was asked for.
  walk-qty :
      (levels : List (Decimal × Decimal)) (remaining limit_price : Decimal) (is_buy : Bool)
      (cost qty : Decimal)
      → AreNonNeg levels
      → NonNeg remaining
      → (walk levels remaining limit_price is_buy cost qty).1
        ≡ add qty (dec_min remaining (depth limit_price is_buy levels))
  unfolding walk
  walk-qty [] remaining limit_price is_buy cost qty h r =
      omega (dec_laws, dec_min-cases remaining dec_zero, r)
  walk-qty ((price, q) ∷ levels) remaining limit_price is_buy cost qty (hp, hq, h) r =
      let all = (price, q) ∷ levels in
      let taken = dec_min remaining q in
      let left = sub remaining taken in
      let below = depth limit_price is_buy levels in
      elim (Bool-cases (at_most remaining dec_zero)) [
        | inl e ↦ rw e (
            omega (
              dec_laws,
              e,
              r,
              depth_nonneg limit_price is_buy all (hp, hq, h),
              dec_min-cases remaining (depth limit_price is_buy all),
            ))
        | inr e ↦ elim (Bool-cases (is_beyond limit_price is_buy price)) [
          | inl f ↦ rw (e, f) (omega (dec_laws, dec_min-cases remaining dec_zero, r))
          | inr f ↦
              rw (e, f)
                (omega (
                  dec_laws,
                  r,
                  walk-qty levels left limit_price is_buy (add cost (mul taken price))
                      (add qty taken) h (omega (dec_laws, r, dec_min-cases remaining q)),
                  dec_min-cases remaining q,
                  dec_min-cases left below,
                  dec_min-cases remaining (add q below),
                  depth_nonneg limit_price is_buy levels h,
                ))
        ]
      ]

  -- On the side of the limit that a buy, or a sell, wants.
  abbrev pub IsWithin : Bool → Decimal → Decimal → Type 0
  IsWithin true limit_price price = Leq price limit_price
  IsWithin false limit_price price = Leq limit_price price

  limit_step :
      (is_buy : Bool) (limit_price price taken cost qty : Decimal)
      → is_beyond limit_price is_buy price ≡ false
      → NonNeg taken
      → IsUnrounded limit_price qty
      → IsUnrounded limit_price taken
      → IsWithin is_buy (mul limit_price qty) cost
      → IsWithin is_buy (mul limit_price (add qty taken)) (add cost (mul taken price))
  limit_step true limit_price price taken cost qty e t exact_qty exact_taken h = omega (
    dec_laws,
    h,
    e,
    mul_mono taken price limit_price t (not_less→le limit_price price e),
    parts_of_eq _ _ (D.mul_comm limit_price taken),
    mul-add limit_price qty taken exact_qty exact_taken,
  )
  limit_step false limit_price price taken cost qty e t exact_qty exact_taken h = omega (
    dec_laws,
    h,
    e,
    mul_mono taken limit_price price t (not_less→le price limit_price e),
    parts_of_eq _ _ (D.mul_comm limit_price taken),
    mul-add limit_price qty taken exact_qty exact_taken,
  )

  -- The cost stays on that side of the limit for the quantity taken.
  walk-cost :
      (levels : List (Decimal × Decimal)) (remaining limit_price : Decimal) (is_buy : Bool)
      (cost qty : Decimal)
      → AreNonNeg levels
      → NonNeg remaining
      → NonNeg cost
      → AreUnrounded limit_price levels
      → IsUnrounded limit_price remaining
      → IsUnrounded limit_price qty
      → IsWithin is_buy (mul limit_price qty) cost
      → let (c, q) = walk levels remaining limit_price is_buy cost qty in
        NonNeg c × IsUnrounded limit_price q × IsWithin is_buy (mul limit_price q) c
  unfolding walk
  walk-cost [] remaining limit_price is_buy cost qty h r c _ _ xq w = (c, xq, w)
  walk-cost ((price, q) ∷ levels) remaining limit_price is_buy cost qty (hp, hq, h) r c (xl, xs) xr
        xq w =
      let taken = dec_min remaining q in
      let t : NonNeg taken = omega (dec_laws, r, hq, dec_min-cases remaining q) in
      let xt : IsUnrounded limit_price taken = min-IsUnrounded limit_price remaining q xr xl in
      elim (Bool-cases (at_most remaining dec_zero)) [
        | inl e ↦ rw e (c, xq, w)
        | inr e ↦ elim (Bool-cases (is_beyond limit_price is_buy price)) [
          | inl f ↦ rw (e, f) (c, xq, w)
          | inr f ↦
              rw (e, f)
                (walk-cost levels (sub remaining taken) limit_price is_buy
                  (add cost (mul taken price)) (add qty taken) h
                  (omega (dec_laws, r, dec_min-cases remaining q))
                  (omega (dec_laws, c, mul_NonNeg taken price t hp)) xs
                  (IsUnrounded-sub limit_price remaining taken xr xt)
                  (IsUnrounded-add limit_price qty taken xq xt)
                  (limit_step is_buy limit_price price taken cost qty f t xq xt w))
        ]
      ]

  limit_zero :
      (is_buy : Bool) (limit_price : Decimal) → IsWithin is_buy (mul limit_price dec_zero) dec_zero
  limit_zero true limit_price = omega (dec_laws, mul_zero limit_price)
  limit_zero false limit_price = omega (dec_laws, mul_zero limit_price)

  limit_average :
      (is_buy : Bool) (limit_price cost qty : Decimal)
      → NonNeg cost
      → Less dec_zero qty
      → IsUnrounded limit_price qty
      → IsWithin is_buy (mul limit_price qty) cost
      → IsWithin is_buy limit_price (div cost qty)
  limit_average true limit_price cost qty c q x w = div-le cost limit_price qty x c q w
  limit_average false limit_price cost qty c q x w = div-ge cost limit_price qty x c q w

  -- Over levels that are not negative, where the products of the limit price with the quantities of
  -- the levels and with what is asked for need no rounding, `walk_book` takes exactly the smaller
  -- of what is asked for and the depth of the book up to the limit; it gives none exactly when that
  -- is not positive, and the average price does not pass the limit, though it is rounded itself.
  pub walk_book_lem :
      (levels : List (Decimal × Decimal)) (remaining limit_price : Decimal) (is_buy : Bool)
      → AreNonNeg levels
      → NonNeg remaining
      → AreUnrounded limit_price levels
      → IsUnrounded limit_price remaining
      → let taken = dec_min remaining (depth limit_price is_buy levels) in
        (less dec_zero taken ≡ true
          → (price : Decimal) × (walk_book levels remaining limit_price is_buy
              ≡ some (price, taken))
            × IsWithin is_buy limit_price price)
        × (less dec_zero taken ≡ false → walk_book levels remaining limit_price is_buy ≡ none)
  unfolding walk_book
  walk_book_lem levels remaining limit_price is_buy h r xs x =
      let taken = dec_min remaining (depth limit_price is_buy levels) in
      let cost = (walk levels remaining limit_price is_buy dec_zero dec_zero).0 in
      let qty : (walk levels remaining limit_price is_buy dec_zero dec_zero).1 ≡ taken =
        walk-qty levels remaining limit_price is_buy dec_zero dec_zero h r ∙ zero_add taken in
      let (c, xq, w) =
        walk-cost levels remaining limit_price is_buy dec_zero dec_zero h r (omega dec_laws) xs x
          (IsUnrounded-zero limit_price) (limit_zero is_buy limit_price) in
      (
        λ e. (
          div cost taken,
          rw (qty, e) refl,
          limit_average is_buy limit_price cost taken c (less→lt dec_zero taken e) (rw qty at xq)
              (rw qty at w),
        ),
        λ e. rw (qty, e) refl,
      )
