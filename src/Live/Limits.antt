-- ===== src/Live/Limits.antt =====
-- Which orders the limits of a market accept (crates/pmkit-exec/src/lib.rs, `MarketLimits::check`).
use pmkit.Live.Admission.{MarketLimits, check}
use pmkit.Base.Replies.{ok, panic}
use pmkit.Base.{◌≢◌, inl, ◌↔◌, inr, refl, Bool-cases, ◌≡◌}
use pmkit.Exec.{PlaceOrder}
use pmkit.Decimals.{
  Leq, Decimals, positive→not_zero, not_zero→ne, Less, dec_laws, is_zero, is_zero→eq,
}

module _ ⦃D : Decimals⦄ where
  open D use {Decimal, dec_zero, dec_one, sub, rem, less}

  -- For a positive tick, `check` accepts exactly the orders of at least the minimal size whose
  -- price is a multiple of the tick, at least the tick and at most one less the tick; such a price
  -- lies strictly between zero and one. It never panics.
  pub check_lem :
      (limits : MarketLimits) (order : PlaceOrder)
      → Less dec_zero limits.tick_size
      → ((check limits order ≡ ok tt) ↔ (
          Leq limits.min_order_size order.qty
          × Leq limits.tick_size order.price
          × Leq order.price (sub dec_one limits.tick_size)
          × (rem order.price limits.tick_size ≡ dec_zero)))
        × (check limits order ≡ ok tt → Less dec_zero order.price × Less order.price dec_one)
        × (check limits order ≢ panic)
  unfolding check
  check_lem limits order positive = elim (Bool-cases (less order.qty limits.min_order_size)) [
    | inl small ↦
        rw small (
          (λ h. cc h, λ (q, _, _, _). absurd (omega (dec_laws, small, q))),
          (λ h. cc h),
          (λ h. cc h),
        )
    | inr enough ↦ elim (Bool-cases (less order.price limits.tick_size)) [
      | inl low ↦
          rw (enough, low)
            (
              (λ h. cc h, λ (_, p, _, _). absurd (omega (dec_laws, low, p))),
              (λ h. cc h),
              (λ h. cc h),
            )
      | inr above ↦ elim (Bool-cases (less (sub dec_one limits.tick_size) order.price)) [
        | inl high ↦
            rw (enough, above, high)
              (
                (λ h. cc h, λ (_, _, p, _). absurd (omega (dec_laws, high, p))),
                (λ h. cc h),
                (λ h. cc h),
              )
        | inr below ↦
            let proper = positive→not_zero limits.tick_size (omega (dec_laws, positive)) in
            elim (Bool-cases (is_zero (rem order.price limits.tick_size))) [
              | inl on ↦
                  rw (enough, above, below, proper, on)
                    (
                      (
                        λ h. (
                          omega (dec_laws, enough),
                          omega (dec_laws, above),
                          omega (dec_laws, below),
                          is_zero→eq _ on,
                        ),
                        λ h. refl,
                      ),
                      (λ h. (omega (dec_laws, above, positive), omega (dec_laws, below, positive))),
                      (λ h. cc h),
                    )
              | inr off ↦
                  rw (enough, above, below, proper, off)
                    (
                      (λ h. cc h, λ (_, _, _, z). absurd (not_zero→ne _ off z)),
                      (λ h. cc h),
                      (λ h. cc h),
                    )
            ]
      ]
    ]
  ]
