-- ===== src/Math/Tests.antt =====
-- The theorems on walks and fees at concrete values.
use pmkit.Base.Replies.{ok}
use pmkit.Math.Fees.{FeeModel, try_new, fee_order}
use pmkit.Math.Bounds.{fee_order-try_new}
use pmkit.Decimals.{Leq, NonNeg}
use pmkit.Event.{taker}
use pmkit.Math.Walk.{IsWithin, walk_book_lem}
use pmkit.Math.Fill.{walk_book}
use pmkit.Base.{
  refl, ◌*ℤ◌, negsuc, ◌-ℤ◌, ℤ, ◌≡◌, ◌∷◌, true, pos, ◌+ℤ◌, false, arith, [], none, some,
}
use pmkit.Decimals.Millionths.{millionths, whole_of, cents, times, to_digits}

walk_book_lem_example :
    (true ≡ true
      → (price : ℤ) × (walk_book
            ((cents 50, whole_of 4) ∷ (cents 55, whole_of 6) ∷ (cents 65, whole_of 9) ∷ [])
            (whole_of 12)
            (cents 60)
            true
          ≡ some (price, whole_of 10))
        × IsWithin true (cents 60) price)
    × (true ≡ false
        → walk_book
            ((cents 50, whole_of 4) ∷ (cents 55, whole_of 6) ∷ (cents 65, whole_of 9) ∷ [])
            (whole_of 12)
            (cents 60)
            true
          ≡ none)
unfolding ◌+ℤ◌ ◌*ℤ◌
walk_book_lem_example =
    walk_book_lem ((cents 50, whole_of 4) ∷ (cents 55, whole_of 6) ∷ (cents 65, whole_of 9) ∷ [])
      (whole_of 12) (cents 60) true
      (omega arith, omega arith, (omega arith, omega arith, (omega arith, omega arith, tt)))
      (omega arith) (refl, (refl, (refl, tt))) refl

abbrev seven_percent : FeeModel
seven_percent = record { maker_bps = negsuc 4; taker_bps = pos 700 }

in_bounds : try_new (negsuc 4) (pos 700) ≡ ok seven_percent
unfolding try_new
in_bounds = refl

-- Seven shares at a price of one half.
fee_order-try_new_example :
    (fee : ℤ) × (fee_order seven_percent (whole_of 7) (cents 50) taker ≡ some fee)
    × NonNeg fee
    × Leq fee (to_digits 5 (times (times (whole_of 7) (cents 50)) (whole_of 1 -ℤ cents 50)))
    × (pos 700 ≡ pos 0 → fee ≡ pos 0)
fee_order-try_new_example =
    fee_order-try_new (negsuc 4) (pos 700) seven_percent (whole_of 7) (cents 50) in_bounds
      (omega arith) (omega arith) (omega arith)

-- The fee of that order: 0.07 of 7 times 0.5 times 0.5.
fee_at_half : fee_order seven_percent (whole_of 7) (cents 50) taker ≡ some (pos 122500)
unfolding fee_order ◌*ℤ◌ ◌-ℤ◌
fee_at_half = refl
