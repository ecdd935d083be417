-- ===== src/Math/Bounds.antt =====
-- Bounds of a taker's fee (crates/pmkit-sim/src/fee.rs).
use pmkit.Base.{
  ◌∙◌, ap, Bool-cases, inl, ltb_ℤ, sym, inr, ◌||◌, ℤ, pos, some, ◌≤ℤ◌, refl, arith, ◌≡◌,
}
use pmkit.Math.Fees.{max_fee_bps, min_maker_fee_bps, try_new, fee_of, FeeModel, fee_order}
use pmkit.Base.Replies.{ok}
use pmkit.Decimals.MinMax.{zero-mul, mul_mono, div-le}
use pmkit.Event.{taker}
use pmkit.Decimals.{
  IsUnrounded-comm, mul_zero, IsUnrounded-zero, mul_one, IsUnrounded-one, Leq, Decimals, Less,
  mul_NonNeg, NonNeg, dec_laws, div_NonNeg, parts_of_eq,
}

module _ ⦃D : Decimals⦄ where
  open D use {Decimal, dec_zero, dec_one, add, sub, mul, div, of_int, round_dp}

  abbrev bps_one : Decimal
  bps_one = of_int (pos 10000)

  bps_one_positive : Less dec_zero bps_one
  bps_one_positive = omega (
    dec_laws,
    parts_of_eq _ _ D.of_int-one,
    D.units-one,
    D.of_int_mono (pos 1) (pos 10000) (omega arith),
  )

  -- A rate of at most ten thousand basis points is a share of one.
  rate_bounds :
      (bps : ℤ)
      → pos 0 ≤ℤ bps
      → bps ≤ℤ pos 10000
      → NonNeg (div (of_int bps) bps_one) × Leq (div (of_int bps) bps_one) dec_one
  rate_bounds bps low high =
      let n : NonNeg (of_int bps) =
        omega (dec_laws, parts_of_eq _ _ D.of_int-zero, D.of_int_mono (pos 0) bps low) in
      (
        div_NonNeg (of_int bps) bps_one n (omega (dec_laws, bps_one_positive)),
        div-le (of_int bps) dec_one bps_one
            (IsUnrounded-comm bps_one dec_one (IsUnrounded-one bps_one)) n bps_one_positive
            (omega (
              dec_laws,
              parts_of_eq _ _ (D.mul_comm dec_one bps_one),
              parts_of_eq _ _ (mul_one bps_one),
              D.of_int_mono bps (pos 10000) high,
            )),
      )

  mul_le_left : (a b c : Decimal) → NonNeg c → Leq a b → Leq (mul a c) (mul b c)
  mul_le_left a b c n h = omega (
    dec_laws,
    mul_mono c a b n h,
    parts_of_eq _ _ (D.mul_comm a c),
    parts_of_eq _ _ (D.mul_comm b c),
  )

  in_range :
      (maker_bps taker_bps : ℤ) (model : FeeModel)
      → try_new maker_bps taker_bps ≡ ok model
      → (pos 0 ≤ℤ model.taker_bps) × (model.taker_bps ≤ℤ pos 10000)
  unfolding try_new
  in_range maker_bps taker_bps model e =
      elim (Bool-cases (ltb_ℤ maker_bps min_maker_fee_bps || ltb_ℤ max_fee_bps maker_bps)) [
        | inl b ↦ cc (rw b at e)
        | inr b ↦ elim (Bool-cases (ltb_ℤ taker_bps (pos 0) || ltb_ℤ max_fee_bps taker_bps)) [
          | inl c ↦ cc (rw (b, c) at e)
          | inr c ↦
              let same : taker_bps ≡ model.taker_bps = cc (rw (b, c) at e) in
              rw (sym same) (ground (arith, c), ground (arith, c))
        ]
      ]

  rate_zero : (bps : ℤ) → bps ≡ pos 0 → div (of_int bps) bps_one ≡ dec_zero
  rate_zero bps z =
      let (low, high) = rate_bounds bps (rw z (omega arith)) (rw z (omega arith)) in
      let none : of_int bps ≡ dec_zero = ap of_int z ∙ D.of_int-zero in
      let nothing : Leq (div (of_int bps) bps_one) dec_zero =
        div-le (of_int bps) dec_zero bps_one
          (IsUnrounded-comm bps_one dec_zero (IsUnrounded-zero bps_one))
          (omega (dec_laws, parts_of_eq _ _ none)) bps_one_positive
          (omega (dec_laws, parts_of_eq _ _ none, parts_of_eq _ _ (zero-mul bps_one))) in
      omega (dec_laws, low, nothing)

  free :
      (model : FeeModel) (size price : Decimal)
      → model.taker_bps ≡ pos 0
      → fee_of model size price taker ≡ dec_zero
  free model size price z =
      ap (λ rate. round_dp 5 (mul (mul (mul size rate) price) (sub dec_one price)))
        (rate_zero model.taker_bps z)
      ∙ rw (mul_zero size, zero-mul price, zero-mul (sub dec_one price)) (D.round_dp-zero 5)

  -- Under a fee model that `try_new` accepts, an order of a size that is not negative, at a price
  -- from zero to one, pays as a taker a fee that is not negative and at most the size times the
  -- price times one less the price, rounded as fees are; and nothing at a rate of zero.
  pub fee_order-try_new :
      (maker_bps taker_bps : ℤ) (model : FeeModel) (size price : Decimal)
      → try_new maker_bps taker_bps ≡ ok model
      → NonNeg size
      → NonNeg price
      → Leq price dec_one
      → (fee : Decimal) × (fee_order model size price taker ≡ some fee)
        × NonNeg fee
        × Leq fee (round_dp 5 (mul (mul size price) (sub dec_one price)))
        × (model.taker_bps ≡ pos 0 → fee ≡ dec_zero)
  unfolding fee_order
  fee_order-try_new maker_bps taker_bps model size price e s p below =
      let (low, high) = in_range maker_bps taker_bps model e in
      let (n, one) = rate_bounds model.taker_bps low high in
      let rate = div (of_int model.taker_bps) bps_one in
      let rest : NonNeg (sub dec_one price) = omega (dec_laws, below) in
      let charged : Leq (mul size rate) size =
        omega (dec_laws, mul_mono size rate dec_one s one, parts_of_eq _ _ (mul_one size)) in
      let full = mul (mul (mul size rate) price) (sub dec_one price) in
      let nonneg : NonNeg full =
        mul_NonNeg (mul (mul size rate) price) (sub dec_one price)
          (mul_NonNeg (mul size rate) price (mul_NonNeg size rate s n) p) rest in
      (
        fee_of model size price taker,
        refl,
        omega (
          dec_laws,
          parts_of_eq _ _ (D.round_dp-zero 5),
          D.round_dp_mono 5 dec_zero full (omega (dec_laws, nonneg)),
        ),
        D.round_dp_mono 5 full (mul (mul size price) (sub dec_one price)) (
            mul_le_left (mul (mul size rate) price) (mul size price) (sub dec_one price) rest
              (mul_le_left (mul size rate) size price p charged)),
        λ z. free model size price z,
      )
