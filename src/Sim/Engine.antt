-- ===== src/Sim/Engine.antt =====
-- The methods of `SimEngine` (crates/pmkit-sim/src/lib.rs). A method that may panic, in the check
-- of the market limits, is a `Method` whose error type is not used.
use pmkit.Decimals.{Decimals}
use pmkit.Paper.Ledger.{order_id_text}
use pmkit.Math.Fill.{walk_book}
use pmkit.Event.{taker, MarketEvent}
use pmkit.Live.Rates.{saturating_add}
use pmkit.Sim.Events.{SimEngine, SimulationConfig, SimOrder}
use pmkit.Exec.{TimeInForce, gtc, gtd, PlaceOrder}
use pmkit.Book.{OrderBookL2}
use pmkit.Decimals.MinMax.{dec_min, dec_max}
use pmkit.Live.Admission.{MarketLimits, check, LimitViolation}
use pmkit.Math.Fees.{FeeModel, for_category, MarketCategory, fee_order, default_fee_model}
use pmkit.Domain.{outcome_key, Outcome, Side, buy, sell}
use pmkit.Base.{
  text_key, ℤ, none, ◌||◌, ℕ, true, if◌then◌else◌, some, ◌++◌, pos, Bool, keep, ◌∷◌, String, leb_ℤ,
  [], ◌+◌, false, not, List, ltb_ℤ, ◌==◌, ◌&&◌, Option,
}
use pmkit.Base.Dict.{get, insert}
use pmkit.Base.Replies.{◌>>=◌, panic, err, Method, Reply, ok, pure}
use pmkit.Event.{fill as market_fill}
use pmkit.Book.{best_ask, best_bid}
use pmkit.Sim.Events.{book_key}

abbrev pub max_ℤ : ℤ → ℤ → ℤ
max_ℤ a b = if leb_ℤ a b then b else a

-- `remove` at the `position` of the first match.
abbrev pub remove_first {ℓ} : {A : Type ℓ} → (A → Bool) → List A → List A
remove_first p [] = []
remove_first p (x ∷ xs) = let rest = remove_first p xs in if p x then xs else x ∷ rest

module _ ⦃D : Decimals⦄ where
  open D use {Decimal, dec_zero, dec_one, add, sub, mul, div, of_int, less, at_most}

  abbrev pub or_model : Option FeeModel → FeeModel → FeeModel
  or_model none model = model
  or_model (some model) _ = model

  unfoldable pub with_fee_config : String → ℕ → SimulationConfig → SimEngine
  unfolding default_fee_model
  with_fee_config id_prefix start_id config = record {
    books = [];
    resting = [];
    delayed = [];
    pending_fills = [];
    next_id = start_id;
    id_prefix = id_prefix;
    fee_model = or_model config.fee_model default_fee_model;
    config = config;
  }

  unfoldable pub with_config : String → ℕ → MarketCategory → SimulationConfig → SimEngine
  unfolding with_fee_config
  with_config id_prefix start_id category config =
      with_fee_config id_prefix start_id
        (record config { fee_model = some (or_model config.fee_model (for_category category)) })

  abbrev pub is_past : TimeInForce → ℤ → Bool
  is_past gtc now_ms = false
  is_past (gtd expire_at_ms) now_ms = leb_ℤ expire_at_ms now_ms

  unfoldable pub expired : PlaceOrder → ℤ → Bool
  expired order now_ms = elim order.tif [
    | gtc ↦ false
    | gtd expire_at_ms ↦ leb_ℤ expire_at_ms now_ms
  ]

  abbrev pub is_in : String → Outcome → SimOrder → Bool
  is_in market outcome o = o.order.market == market && o.order.outcome == outcome

  abbrev pub is_live : String → Outcome → ℤ → SimOrder → Bool
  is_live market outcome now_ms o = not (is_in market outcome o) || not (expired o.order now_ms)

  abbrev pub value_is_live : String → Outcome → ℤ → String × SimOrder → Bool
  value_is_live market outcome now_ms (_, o) = is_live market outcome now_ms o

  unfoldable pub expire_orders : String → Outcome → ℤ → SimEngine → SimEngine
  expire_orders market outcome now_ms s = record s {
    resting = keep (value_is_live market outcome now_ms) s.resting;
    delayed = keep (is_live market outcome now_ms) s.delayed;
  }

  abbrev pub levels_of : Side → OrderBookL2 → List (Decimal × Decimal)
  levels_of buy book = book.asks
  levels_of sell book = book.bids

  abbrev pub is_buy : Side → Bool
  is_buy buy = true
  is_buy sell = false

  abbrev pub adverse_bps : SimulationConfig → Decimal
  adverse_bps config =
      div (of_int (pos (config.slippage_bps + config.market_impact_bps))) (of_int (pos 10000))

  abbrev pub fill_price : Side → Decimal → Decimal → Decimal → Decimal
  fill_price buy vwap adverse limit_price = dec_min (mul vwap (add dec_one adverse)) limit_price
  fill_price sell vwap adverse limit_price = dec_max (mul vwap (sub dec_one adverse)) limit_price

  abbrev pub taker_fill : String → PlaceOrder → Decimal → Decimal → Decimal → ℤ → MarketEvent
  taker_fill order_id order price qty fee timestamp_ms =
      market_fill none order_id order.market order.outcome price qty order.side fee taker
        timestamp_ms

  -- The last steps of `submit_taker`, from what `walk_book` found.
  abbrev pub take :
      Option (Decimal × Decimal)
      → String
      → PlaceOrder
      → ℤ
      → ℤ
      → SimEngine
      → Option String × SimEngine
  take none order_id order submitted_ms fill_ms s = (none, s)
  take (some (vwap, fill_qty)) order_id order submitted_ms fill_ms s =
      let price = fill_price order.side vwap (adverse_bps s.config) order.price in
      elim (fee_order s.fee_model fill_qty price taker) [
        | none ↦ (none, s)
        | some fee ↦ (
          some order_id,
          record s {
            pending_fills =
                s.pending_fills
                ++ taker_fill order_id order price fill_qty fee (max_ℤ fill_ms submitted_ms) ∷ [];
          },
        )
      ]

  abbrev pub take_from :
      Option OrderBookL2 → String → PlaceOrder → ℤ → ℤ → SimEngine → Option String × SimEngine
  take_from none order_id order submitted_ms fill_ms s = (none, s)
  take_from (some book) order_id order submitted_ms fill_ms s =
      take (walk_book (levels_of order.side book) order.qty order.price (is_buy order.side))
        order_id order submitted_ms fill_ms s

  unfoldable pub submit_taker : String → PlaceOrder → ℤ → ℤ → SimEngine → Option String × SimEngine
  submit_taker order_id order submitted_ms fill_ms s =
      take_from (get (order.market, order.outcome) s.books) order_id order submitted_ms fill_ms s

  -- `is_some_and` on the price of a level.
  abbrev pub holds_at : (Decimal → Bool) → Option (Decimal × Decimal) → Bool
  holds_at p none = false
  holds_at p (some (price, _)) = p price

  abbrev pub crosses : Side → Decimal → OrderBookL2 → Bool
  crosses buy price book = elim (best_ask book) [
    | none ↦ false
    | some level ↦ at_most level.0 price
  ]
  crosses sell price book = elim (best_bid book) [
    | none ↦ false
    | some level ↦ at_most price level.0
  ]

  abbrev pub sim_order : String → PlaceOrder → Option String → ℤ → SimulationConfig → SimOrder
  sim_order order_id order strategy now_ms config = record {
    order_id = order_id;
    order = order;
    submitted_ms = now_ms;
    active_at_ms = saturating_add now_ms config.activation_latency_ms;
    strategy = strategy;
  }

  abbrev pub rest_on :
      Option OrderBookL2
      → String
      → PlaceOrder
      → Option String
      → ℤ
      → SimEngine
      → Option String × SimEngine
  rest_on none order_id order strategy now_ms s = (none, s)
  rest_on (some book) order_id order strategy now_ms s =
      if crosses order.side order.price book then (none, s) else (
        some order_id,
        record s {
          resting = insert order_id (sim_order order_id order strategy now_ms s.config) s.resting;
        },
      )

  unfoldable pub submit_maker :
      String → PlaceOrder → Option String → ℤ → SimEngine → Option String × SimEngine
  submit_maker order_id order strategy now_ms s =
      rest_on (get (order.market, order.outcome) s.books) order_id order strategy now_ms s

  -- The order waits for its activation.
  abbrev pub delay : String → PlaceOrder → Option String → ℤ → SimEngine → Option String × SimEngine
  delay order_id order strategy now_ms s = (
    some order_id,
    record s { delayed = s.delayed ++ sim_order order_id order strategy now_ms s.config ∷ [] },
  )

  unfoldable pub place : PlaceOrder → Option String → ℤ → SimEngine → Option String × SimEngine
  place order strategy now_ms s =
      let order_id = order_id_text s.id_prefix s.next_id in
      let minted = record s { next_id = s.next_id + 1 } in
      if order.post_only
      then submit_maker order_id order strategy now_ms minted
      else if ltb_ℤ (pos 0) s.config.activation_latency_ms
      then delay order_id order strategy now_ms minted
      else submit_taker order_id order now_ms now_ms minted

  abbrev pub SimAction : Type 0 → Type 0
  SimAction A = Method SimEngine (Unit {0}) A

  abbrev pub is_err : Reply LimitViolation (Unit {0}) → Reply (Unit {0}) Bool
  is_err (ok _) = ok false
  is_err (err _) = ok true
  is_err panic = panic

  abbrev pub violates : Option MarketLimits → PlaceOrder → Reply (Unit {0}) Bool
  violates none order = ok false
  violates (some limits) order = is_err (check limits order)

  unfoldable pub violates_market_limits : PlaceOrder → SimAction Bool
  violates_market_limits order s = (violates s.config.market_limits order, s)

  abbrev pub place_unless : Bool → PlaceOrder → Option String → ℤ → SimAction (Option String)
  place_unless true order strategy now_ms s = (ok none, s)
  place_unless false order strategy now_ms s =
      let (id, s') = place order strategy now_ms s in (ok id, s')

  abbrev pub submit_unless : Bool → PlaceOrder → Option String → ℤ → SimAction (Option String)
  submit_unless true order strategy now_ms = pure none
  submit_unless false order strategy now_ms = do
    refused ← violates_market_limits order
    place_unless refused order strategy now_ms

  unfoldable pub submit_with_strategy : PlaceOrder → Option String → ℤ → SimAction (Option String)
  submit_with_strategy order strategy now_ms =
      submit_unless (expired order now_ms) order strategy now_ms

  unfoldable pub submit : PlaceOrder → ℤ → SimAction (Option String)
  unfolding submit_with_strategy
  submit order now_ms = submit_with_strategy order none now_ms

  unfoldable pub submit_for_strategy : PlaceOrder → String → ℤ → SimAction (Option String)
  unfolding submit_with_strategy
  submit_for_strategy order strategy now_ms = submit_with_strategy order (some strategy) now_ms

  -- `SimulationConfig::default`
  abbrev pub default_config : SimulationConfig
  default_config = record {
    activation_latency_ms = pos 0;
    maker_queue_ahead_bps = 0;
    slippage_bps = 0;
    market_impact_bps = 0;
    fee_model = none;
    market_limits = none;
  }

  -- `SimEngine::new`
  unfoldable pub new_sim : String → ℕ → MarketCategory → SimEngine
  unfolding with_config
  new_sim id_prefix start_id category = with_config id_prefix start_id category default_config
