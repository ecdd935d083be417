-- ===== src/Sim/Takers.antt =====
-- What an order that takes liquidity, or only makes it, does (crates/pmkit-sim/src/lib.rs).
use pmkit.Paper.Ledger.{order_id_text}
use pmkit.Event.{taker}
use pmkit.Book.{OrderBookL2}
use pmkit.Base.Dict.{get, insert}
use pmkit.Exec.{PlaceOrder}
use pmkit.Decimals.MinMax.{dec_min-cases, dec_min, dec_max-cases}
use pmkit.Decimals.{IsUnrounded, NonNeg, dec_laws, Decimals}
use pmkit.Sim.Engine.{
  delay, rest_on, place, adverse_bps, submit_taker, is_buy, crosses, max_ℤ, submit_maker, levels_of,
  fill_price, sim_order, taker_fill,
}
use pmkit.Sim.Events.{SimEngine, book_key}
use pmkit.Base.{
  pos, ltb_ℤ, if◌then◌else◌, ap, ◌∙◌, Bool, text_key, ℤ, true, none, ◌≡◌, refl, some, [], ◌∷◌, ◌++◌,
  Option, false, String, ◌+◌,
}
use pmkit.Math.Walk.{AreUnrounded, AreNonNeg, depth, walk_book_lem, IsWithin}
use pmkit.Domain.{buy, sell, Side}
use pmkit.Math.Fees.{fee_of, fee_order}

module _ ⦃D : Decimals⦄ where
  open D use {Decimal, dec_zero, dec_one, add, sub, mul, less}

  -- The price that is charged lies on the limit's side, whatever the slippage.
  fill_price-IsWithin :
      (side : Side) (vwap adverse limit_price : Decimal)
      → IsWithin (is_buy side) limit_price (fill_price side vwap adverse limit_price)
  fill_price-IsWithin buy vwap adverse limit_price =
      omega (dec_laws, dec_min-cases (mul vwap (add dec_one adverse)) limit_price)
  fill_price-IsWithin sell vwap adverse limit_price =
      omega (dec_laws, dec_max-cases (mul vwap (sub dec_one adverse)) limit_price)

  -- An order that takes liquidity from a book whose levels are not negative, where the products of
  -- its price with its quantity and with those of the levels need no rounding, fills at once
  -- exactly the smaller of its quantity and the depth up to its limit, at a price that does not
  -- pass the limit; when that quantity is not positive it is refused and nothing changes.
  pub submit_taker_lem :
      (order_id : String) (order : PlaceOrder) (submitted_ms fill_ms : ℤ) (book : OrderBookL2)
      (s : SimEngine)
      → get ⦃e = book_key⦄ (order.market, order.outcome) s.books ≡ some book
      → AreNonNeg (levels_of order.side book)
      → NonNeg order.qty
      → AreUnrounded order.price (levels_of order.side book)
      → IsUnrounded order.price order.qty
      → let taken =
          dec_min order.qty (depth order.price (is_buy order.side) (levels_of order.side book)) in
        (less dec_zero taken ≡ true
          → (price : Decimal) × (submit_taker order_id order submitted_ms fill_ms s ≡ (
            some order_id,
            record s {
              pending_fills =
                  s.pending_fills
                  ++ taker_fill order_id order price taken
                      (fee_of s.fee_model taken price taker)
                      (max_ℤ fill_ms submitted_ms)
                    ∷ [];
            },
          ))
            × IsWithin (is_buy order.side) order.price price)
        × (less dec_zero taken ≡ false
            → submit_taker order_id order submitted_ms fill_ms s ≡ (none, s))
  unfolding submit_taker fee_order
  submit_taker_lem order_id order submitted_ms fill_ms book s there h q xs x =
      let (some_of, none_of) =
        walk_book_lem (levels_of order.side book) order.qty order.price (is_buy order.side) h q xs
          x in
      (
        λ e.
            let (vwap, found, _) = some_of e in
            (
              fill_price order.side vwap (adverse_bps s.config) order.price,
              rw (there, found) refl,
              fill_price-IsWithin order.side vwap (adverse_bps s.config) order.price,
            ),
        λ e. rw (there, none_of e) refl,
      )

  -- What a post-only order may leave, from what its market has for a book.
  abbrev pub refuses : Option OrderBookL2 → PlaceOrder → Bool
  refuses none order = true
  refuses (some book) order = crosses order.side order.price book

  abbrev pub with_resting : PlaceOrder → Option String → ℤ → SimEngine → SimEngine
  with_resting order strategy now_ms s =
      let order_id = order_id_text s.id_prefix s.next_id in
      record s {
        next_id = s.next_id + 1;
        resting = insert order_id (sim_order order_id order strategy now_ms s.config) s.resting;
      }

  -- A post-only order never takes liquidity: without a book of its market, or when it crosses that
  -- book, it is refused and only its number is used up; otherwise it rests whole under its number.
  pub place-post_only :
      (order : PlaceOrder) (strategy : Option String) (now_ms : ℤ) (s : SimEngine)
      → order.post_only ≡ true
      → let refused = refuses (get ⦃e = book_key⦄ (order.market, order.outcome) s.books) order in
        (refused ≡ true
          → place order strategy now_ms s ≡ (none, record s { next_id = s.next_id + 1 }))
        × (refused ≡ false
            → place order strategy now_ms s
              ≡ (some (order_id_text s.id_prefix s.next_id), with_resting order strategy now_ms s))
  unfolding place submit_maker
  place-post_only order strategy now_ms s e =
      let (refused, accepted) =
        by_book (get ⦃e = book_key⦄ (order.market, order.outcome) s.books) in
      (λ h. as_maker ∙ refused h, λ h. as_maker ∙ accepted h)
    where
      minted : SimEngine
      minted = record s { next_id = s.next_id + 1 }

      order_id : String
      order_id = order_id_text s.id_prefix s.next_id

      as_maker :
          place order strategy now_ms s
          ≡ rest_on
              (get ⦃e = book_key⦄ (order.market, order.outcome) s.books)
              order_id
              order
              strategy
              now_ms
              minted
      as_maker =
          ap
            (λ b.
              if b
              then submit_maker order_id order strategy now_ms minted
              else if ltb_ℤ (pos 0) s.config.activation_latency_ms
              then delay order_id order strategy now_ms minted
              else submit_taker order_id order now_ms now_ms minted)
            e

      by_book :
          (found : Option OrderBookL2)
          → (refuses found order ≡ true
              → rest_on found order_id order strategy now_ms minted ≡ (none, minted))
            × (refuses found order ≡ false
                → rest_on found order_id order strategy now_ms minted
                  ≡ (some order_id, with_resting order strategy now_ms s))
      by_book none = (λ h. refl, λ h. cc)
      by_book (some book) = (λ h. rw h refl, λ h. rw h refl)
