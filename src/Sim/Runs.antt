-- ===== src/Sim/Runs.antt =====
-- The states that a run of the simulator reaches (crates/pmkit-sim/src/lib.rs).
use pmkit.Sim.Expiry.{update_book-expired, update_book-placed_qty}
use pmkit.Base.Replies.{err, panic, ok, next, Reply}
use pmkit.Sim.Fills.{placed_qty, filled, submit_taker-keeps}
use pmkit.Sim.Takers.{with_resting}
use pmkit.Sim.Events.{SimOrder, SimulationConfig, book_key, SimEngine}
use pmkit.Base.Dict.{get, get-insert}
use pmkit.Sim.Makers.{insert-IsKeyed}
use pmkit.Paper.Ledger.{order_id_text}
use pmkit.Decimals.{Decimals}
use pmkit.Exec.{PlaceOrder}
use pmkit.Domain.{Outcome}
use pmkit.Sim.WellFormed.{
  cancel_found-Narrows, cancel_all-IsWellFormed, Narrows-IsWellFormed, update_book-Narrows,
  IsWellFormed, unused_id,
}
use pmkit.Sim.Updates.{cancel, cancel_all, drain_fills, has_id, update_book}
use pmkit.Book.{OrderBookL2}
use pmkit.Sim.Engine.{
  with_fee_config, crosses, submit_maker, is_live, place_unless, expired, place, delay,
  submit_taker, violates, violates_market_limits, rest_on, submit_with_strategy, sim_order,
}
use pmkit.Base.Distinct.{insert-IsDistinct}
use pmkit.Base.{
  either, ℕ, false, true, some, ltb_ℤ, pos, Bool, [], ◌∷◌, find-append_none, ℤ, ◌==◌, inr, find,
  Bool-cases, ◌≡◌, sym, inl, none, arith, Option-cases, ◌+◌, text_key, refl, Option, ◌∙◌, String,
}

module _ ⦃D : Decimals⦄ where
  open D use {Decimal}

  -- One call of the engine.
  pub data Step : SimEngine → SimEngine → Type 0 where
    submitted :
        (order : PlaceOrder) (strategy : Option String) (now_ms : ℤ) (s : SimEngine)
        → Step s (submit_with_strategy order strategy now_ms s).1
    book_arrived :
        (market : String) (outcome : Outcome) (book : OrderBookL2) (s : SimEngine)
        → Step s (update_book market outcome book s)
    cancelled : (order_id : String) (s : SimEngine) → Step s (cancel order_id s).1
    all_cancelled : (s : SimEngine) → Step s (cancel_all s).1
    drained : (s : SimEngine) → Step s (drain_fills s).1

  pub data Run : SimEngine → SimEngine → Type 0 where
    at_start : (s : SimEngine) → Run s s
    after_step : (s t u : SimEngine) → Run s t → Step t u → Run s u

  minted-IsWellFormed :
      (s : SimEngine) → IsWellFormed s → IsWellFormed (record s { next_id = s.next_id + 1 })
  minted-IsWellFormed s w = record {
    orderly = w.orderly;
    resting_minted = λ id o there.
        let (n, below, same) = w.resting_minted id o there in (n, omega (arith, below), same);
    delayed_minted = λ id o there.
        let (n, below, same) = w.delayed_minted id o there in (n, omega (arith, below), same);
    apart = w.apart;
  }

  -- The identity that is given out next belongs to no order.
  fresh_resting :
      (s : SimEngine) → IsWellFormed s → get (order_id_text s.id_prefix s.next_id) s.resting ≡ none
  fresh_resting s w =
      let order_id = order_id_text s.id_prefix s.next_id in
      elim (Option-cases (get order_id s.resting)) [
        | inl free ↦ free
        | inr (o, there) ↦ elim (unused_id s (w.resting_minted order_id o there)) [ ]
      ]

  fresh_delayed :
      (s : SimEngine)
      → IsWellFormed s
      → find (has_id (order_id_text s.id_prefix s.next_id)) s.delayed ≡ none
  fresh_delayed s w =
      let order_id = order_id_text s.id_prefix s.next_id in
      elim (Option-cases (find (has_id order_id) s.delayed)) [
        | inl free ↦ free
        | inr (o, there) ↦ elim (unused_id s (w.delayed_minted order_id o there)) [ ]
      ]

  with_resting-IsWellFormed :
      (order : PlaceOrder) (strategy : Option String) (now_ms : ℤ) (s : SimEngine)
      → IsWellFormed s
      → IsWellFormed (with_resting order strategy now_ms s)
  with_resting-IsWellFormed order strategy now_ms s w =
      let order_id = order_id_text s.id_prefix s.next_id in
      let o = sim_order order_id order strategy now_ms s.config in
      let minted = minted-IsWellFormed s w in
      record {
        orderly = record {
          keyed = insert-IsKeyed order_id o s.resting refl w.orderly.keyed;
          distinct = insert-IsDistinct order_id o s.resting w.orderly.distinct;
        };
        resting_minted = λ id v there. elim (Bool-cases (order_id == id)) [
          | inl e ↦ (s.next_id, omega arith, sym ((text_key.matches_iff order_id id).0 e))
          | inr e ↦
              minted.resting_minted id v
                (rw e at (sym (get-insert order_id id o s.resting) ∙ there))
        ];
        delayed_minted = minted.delayed_minted;
        apart = λ id v there. elim (Bool-cases (order_id == id)) [
          | inl e ↦ rw (sym ((text_key.matches_iff order_id id).0 e)) (fresh_delayed s w)
          | inr e ↦ w.apart id v (rw e at (sym (get-insert order_id id o s.resting) ∙ there))
        ];
      }

  delayed_after-IsWellFormed :
      (order : PlaceOrder) (strategy : Option String) (now_ms : ℤ) (s : SimEngine)
      → IsWellFormed s
      → let order_id = order_id_text s.id_prefix s.next_id in
        IsWellFormed (delay order_id order strategy now_ms (record s { next_id = s.next_id + 1 })).1
  delayed_after-IsWellFormed order strategy now_ms s w =
      let order_id = order_id_text s.id_prefix s.next_id in
      let o = sim_order order_id order strategy now_ms s.config in
      let minted = minted-IsWellFormed s w in
      record {
        orderly = w.orderly;
        resting_minted = minted.resting_minted;
        delayed_minted = λ id v there. elim (Bool-cases (order_id == id)) [
          | inl e ↦ (s.next_id, omega arith, sym ((text_key.matches_iff order_id id).0 e))
          | inr e ↦ elim (Option-cases (find (has_id id) s.delayed)) [
            | inl free ↦ cc (there, rw e at (find-append_none (has_id id) s.delayed (o ∷ []) free))
            | inr (v0, there0) ↦ minted.delayed_minted id v0 there0
          ]
        ];
        apart = λ id v there. elim (Bool-cases (order_id == id)) [
          | inl e ↦ cc (there, fresh_resting s w, (text_key.matches_iff order_id id).0 e)
          | inr e ↦ find-append_none (has_id id) s.delayed (o ∷ []) (w.apart id v there) ∙ rw e refl
        ];
      }

  taken-IsWellFormed :
      (order_id : String) (order : PlaceOrder) (submitted_ms fill_ms : ℤ) (s : SimEngine)
      → IsWellFormed s
      → IsWellFormed (submit_taker order_id order submitted_ms fill_ms s).1
  taken-IsWellFormed order_id order submitted_ms fill_ms s w =
      rw (submit_taker-keeps order_id order submitted_ms fill_ms s).0 (record {
        orderly = w.orderly;
        resting_minted = w.resting_minted;
        delayed_minted = w.delayed_minted;
        apart = w.apart;
      })

  rest_on-IsWellFormed :
      (found : Option OrderBookL2) (order : PlaceOrder) (strategy : Option String) (now_ms : ℤ)
      (s : SimEngine)
      → IsWellFormed s
      → IsWellFormed
          (rest_on found
            (order_id_text s.id_prefix s.next_id)
            order
            strategy
            now_ms
            (record s { next_id = s.next_id + 1 })).1
  rest_on-IsWellFormed none order strategy now_ms s w = minted-IsWellFormed s w
  rest_on-IsWellFormed (some book) order strategy now_ms s w =
      either (λ (r : Option String × SimEngine). IsWellFormed r.1)
        (crosses order.side order.price book) (minted-IsWellFormed s w)
        (with_resting-IsWellFormed order strategy now_ms s w)

  place-IsWellFormed :
      (order : PlaceOrder) (strategy : Option String) (now_ms : ℤ) (s : SimEngine)
      → IsWellFormed s
      → IsWellFormed (place order strategy now_ms s).1
  unfolding place submit_maker
  place-IsWellFormed order strategy now_ms s w =
      let order_id = order_id_text s.id_prefix s.next_id in
      either (λ (r : Option String × SimEngine). IsWellFormed r.1) order.post_only
        (rest_on-IsWellFormed (get ⦃e = book_key⦄ (order.market, order.outcome) s.books) order
          strategy now_ms s w)
        (either (λ (r : Option String × SimEngine). IsWellFormed r.1)
          (ltb_ℤ (pos 0) s.config.activation_latency_ms)
          (delayed_after-IsWellFormed order strategy now_ms s w)
          (taken-IsWellFormed order_id order now_ms now_ms (record s { next_id = s.next_id + 1 })
            (minted-IsWellFormed s w)))

  submit-IsWellFormed :
      (order : PlaceOrder) (strategy : Option String) (now_ms : ℤ) (s : SimEngine)
      → IsWellFormed s
      → IsWellFormed (submit_with_strategy order strategy now_ms s).1
  unfolding submit_with_strategy violates_market_limits
  submit-IsWellFormed order strategy now_ms s w = elim (Bool-cases (expired order now_ms)) [
    | inl past ↦ rw past w
    | inr alive ↦ rw alive (limited (violates s.config.market_limits order))
  ]
    where
      limited :
          (r : Reply (Unit {0}) Bool)
          → IsWellFormed (next r (λ refused. place_unless refused order strategy now_ms) s).1
      limited (ok true) = w
      limited (ok false) = place-IsWellFormed order strategy now_ms s w
      limited (err _) = w
      limited panic = w

  -- Every call keeps the state well formed, so every state that a run reaches from an engine
  -- without orders is.
  pub Step-IsWellFormed : (s t : SimEngine) → IsWellFormed s → Step s t → IsWellFormed t
  unfolding cancel drain_fills
  Step-IsWellFormed s _ w (submitted order strategy now_ms _) =
      submit-IsWellFormed order strategy now_ms s w
  Step-IsWellFormed s _ w (book_arrived market outcome book _) =
      Narrows-IsWellFormed s _ w (update_book-Narrows market outcome book s w.orderly)
  Step-IsWellFormed s _ w (cancelled order_id _) =
      Narrows-IsWellFormed s _ w
        (cancel_found-Narrows (get order_id s.resting) order_id s w.orderly)
  Step-IsWellFormed s _ w (all_cancelled _) = cancel_all-IsWellFormed s
  Step-IsWellFormed s _ w (drained _) = record {
    orderly = w.orderly;
    resting_minted = w.resting_minted;
    delayed_minted = w.delayed_minted;
    apart = w.apart;
  }

  pub Run-IsWellFormed : (s t : SimEngine) → Run s t → IsWellFormed s → IsWellFormed t
  Run-IsWellFormed s _ (at_start _) w = w
  Run-IsWellFormed s _ (after_step _ t u run step) w =
      Step-IsWellFormed t u (Run-IsWellFormed s t run w) step

  pub with_config-IsWellFormed :
      (id_prefix : String) (start_id : ℕ) (config : SimulationConfig)
      → IsWellFormed (with_fee_config id_prefix start_id config)
  unfolding with_fee_config get
  with_config-IsWellFormed id_prefix start_id config = record {
    orderly = record { keyed = λ k o there. cc there; distinct = tt };
    resting_minted = λ id o there. cc there;
    delayed_minted = λ id o there. cc there;
    apart = λ id o there. refl;
  }

  -- Whatever calls led from a new engine to a state, a new book keeps, of every order that rests
  -- there and is not past at its time, the sum of what is open and what is filled, and fills
  -- nothing of one of its market that is past, which it drops.
  pub Run-placed_qty :
      (id_prefix : String) (start_id : ℕ) (config : SimulationConfig) (s : SimEngine)
      (market : String) (outcome : Outcome) (book : OrderBookL2) (id : String) (o : SimOrder)
      → Run (with_fee_config id_prefix start_id config) s
      → get id s.resting ≡ some o
      → let s' = update_book market outcome book s in
        (is_live market outcome book.timestamp_ms o ≡ true → placed_qty id s' ≡ placed_qty id s)
        × (is_live market outcome book.timestamp_ms o ≡ false
            → (get id s'.resting ≡ none) × (filled id s'.pending_fills ≡ filled id s.pending_fills))
  Run-placed_qty id_prefix start_id config s market outcome book id o run there =
      let w = Run-IsWellFormed _ s run (with_config-IsWellFormed id_prefix start_id config) in
      let free = w.apart id o there in
      (
        λ alive. (update_book-placed_qty market outcome book s w.orderly).1 id o there free alive,
        λ past. update_book-expired market outcome book s id o w.orderly there free past,
      )
