-- ===== src/Risk/Durable.antt =====
-- Reading risk facts back from stored records (crates/pmkit/src/live_risk.rs). JSON values are
-- those of the crate serde_json and decimals are read by rust_decimal, so both are an interface.
use pmkit.Base.Dict.{get, Dict}
use pmkit.Paper.Events.{settlement}
use pmkit.Decimals.{Decimals}
use pmkit.Event.Account.{
  transport_fill, account_fill, PmAccountEvent, SettlementIdentity, account_settlement,
  venue_settlement, FillIdentity, venue_fill, transport_settlement,
}
use pmkit.Event.{taker, Liquidity, maker}
use pmkit.Domain.{down, Side, up, Outcome, buy, sell}
use pmkit.Base.Replies.{map_err, ok, err, Reply}
use pmkit.Base.{
  leb, text_key, ℤ, String, if◌then◌else◌, ◌||◌, ◌∷◌, ◌==◌, join, none, show, [], Bool, ℕ, ◌&&◌,
  some, Option,
}
use pmkit.Risk.State.{corrupt, RiskStateError}
use pmkit.Base.Results.{ok_or, err_if, ◌>>=◌, ◌>>◌}
pub mod Restore
pub mod Safety
pub mod Amounts
mod Tests

pub record Json (Decimal : Type 0) : Type 1 where
  pub Value : Type 0
  -- `Value::get`; indexing gives `Null` for a missing key, of which the readers below give `None`
  pub field : String → Value → Option Value
  pub as_str : Value → Option String
  pub as_i64 : Value → Option ℤ
  pub as_u64 : Value → Option ℕ
  pub is_null : Value → Bool
  -- `Decimal::from_str` with the text of its error
  pub decimal_from_str : String → Reply String Decimal
  -- `trim().is_empty()`
  pub is_blank : String → Bool

module _ ⦃D : Decimals⦄ (J : Json D.Decimal) where
  open D use {Decimal, dec_zero, less, at_most}
  open J use {Value, field, as_str, as_i64, as_u64, is_null, decimal_from_str, is_blank}

  -- The fields of a `PmEnvelope` that are read.
  pub record PmEnvelope : Type 0 where
    pub source_id : String
    pub connection_id : String
    pub connection_epoch : ℤ
    pub frame_sequence : ℤ
    pub normalized : Value

  abbrev pub Read : Type 0 → Type 0
  Read A = Reply RiskStateError A

  -- `payload[name]` read by one of the readers.
  abbrev pub read_at : {A : Type 0} → (Value → Option A) → String → Value → Option A
  read_at read name payload = elim (field name payload) [ none ↦ none | some v ↦ read v ]

  abbrev pub string_field : Value → String → Read String
  string_field payload name =
      ok_or (read_at as_str name payload) (corrupt (join name " is missing or invalid"))

  abbrev pub integer_field : Value → String → Read ℤ
  integer_field payload name =
      ok_or (read_at as_i64 name payload) (corrupt (join name " is missing or invalid"))

  abbrev pub parsed : String → Reply String Decimal → Read Decimal
  parsed name = map_err (λ message. corrupt (join name (join " is invalid: " message)))

  abbrev pub decimal_field : Value → String → Read Decimal
  decimal_field payload name = do
    text ← string_field payload name
    parsed name (decimal_from_str text)

  -- A `match` on a text whose last arm is an error.
  abbrev pub match_text : {A : Type 0} → Dict String A → String → String → Read A
  match_text arms message text = ok_or (get text arms) (corrupt (join message text))

  abbrev pub outcome_field : Value → Read Outcome
  outcome_field payload = do
    text ← string_field payload "outcome"
    match_text (("up", up) ∷ ("down", down) ∷ []) "unsupported outcome " text

  abbrev pub side_field : Value → Read Side
  side_field payload = do
    text ← string_field payload "side"
    match_text (("buy", buy) ∷ ("sell", sell) ∷ []) "unsupported side " text

  abbrev pub liquidity_field : Value → Read Liquidity
  liquidity_field payload = do
    text ← string_field payload "liquidity"
    match_text (("maker", maker) ∷ ("taker", taker) ∷ []) "unsupported liquidity " text

  -- `MarketId::new` and `StrategyId::new`
  abbrev pub id_new : String → String → Read String
  id_new kind text =
      if is_blank text then err (corrupt (join kind " ID cannot be empty")) else ok text

  -- The coordinates of a transport frame, given to a constructor.
  abbrev pub from_frame : {A : Type 0} → (String → String → ℤ → ℤ → A) → PmEnvelope → A
  from_frame make e = make e.source_id e.connection_id e.connection_epoch e.frame_sequence

  -- An identity that the payload has.
  abbrev pub stored_identity :
      {A : Type 0} → (String → A) → (String → String → ℤ → ℤ → A) → String → Value → Read A
  stored_identity venue transport what identity = do
    source ← string_field identity "source"
    if source == "venue"
        then (do id ← string_field identity "id"; ok (venue id))
        else if source == "transport"
        then (do
          source_id ← string_field identity "source_id"
          connection_id ← string_field identity "connection_id"
          connection_epoch ← integer_field identity "connection_epoch"
          frame_sequence ← integer_field identity "frame_sequence"
          ok (transport source_id connection_id connection_epoch frame_sequence))
        else err (corrupt (join "unsupported " (join what (join " identity source " source))))

  -- Without an identity the schema version decides: up to `last` the frame identifies the fact.
  abbrev pub version_identity :
      {A : Type 0} → (String → String → ℤ → ℤ → A) → ℕ → String → PmEnvelope → ℕ → Read A
  version_identity transport last what e version =
      if leb 1 version && leb version last
      then ok (from_frame transport e)
      else if leb 1 version && leb version 4
      then err (corrupt (join what " identity is missing"))
      else err (corrupt (join "unsupported account schema version " (show version)))

  unfoldable pub durable_fill_identity : PmEnvelope → Value → ℕ → Read FillIdentity
  durable_fill_identity e payload version = elim (field "identity" payload) [
    | none ↦ version_identity transport_fill 2 "fill" e version
    | some identity ↦ stored_identity venue_fill transport_fill "fill" identity
  ]

  unfoldable pub durable_settlement_identity : PmEnvelope → Value → ℕ → Read SettlementIdentity
  durable_settlement_identity e payload version = elim (field "identity" payload) [
    | none ↦ version_identity transport_settlement 3 "settlement" e version
    | some identity ↦ stored_identity venue_settlement transport_settlement "settlement" identity
  ]

  abbrev pub some_strategy : Value → String → Read (Option String)
  some_strategy strategy message = if is_null strategy then ok none else elim (as_str strategy) [
    | none ↦ err (corrupt message)
    | some text ↦ do id ← id_new "strategy" text; ok (some id)
  ]

  -- The sizes of a fill, checked.
  abbrev pub fill_amounts : Value → Read (Decimal × Decimal × Decimal)
  fill_amounts payload = do
    price ← decimal_field payload "price"
    size ← decimal_field payload "size"
    fee ← decimal_field payload "fee"
    err_if (less price dec_zero || (at_most size dec_zero || less fee dec_zero))
        (corrupt "fill price, size, or fee is outside its valid range")
    ok (price, size, fee)

  abbrev pub market_field : Value → Read String
  market_field payload = do text ← string_field payload "market"; id_new "market" text

  -- The arm of `"fill"`.
  unfoldable pub durable_fill : PmEnvelope → Value → ℕ → ℤ → Read PmAccountEvent
  unfolding durable_fill_identity
  durable_fill e payload version ts = do
    strategy ← elim (field "strategy" payload) [
      | none ↦ err (corrupt "strategy is missing or invalid")
      | some strategy ↦ some_strategy strategy "strategy is missing or invalid"
    ]
    market ← market_field payload
    (price, size, fee) ← fill_amounts payload
    identity ← durable_fill_identity e payload version
    order_id ← string_field payload "order_id"
    outcome ← outcome_field payload
    side ← side_field payload
    liquidity ← liquidity_field payload
    ok (account_fill identity strategy order_id market outcome price size side fee liquidity ts)

  -- The arm of `"settlement"`.
  unfoldable pub durable_settlement : PmEnvelope → Value → ℕ → ℤ → Read PmAccountEvent
  unfolding durable_settlement_identity
  durable_settlement e payload version ts = do
    identity ← durable_settlement_identity e payload version
    market ← market_field payload
    outcome ← outcome_field payload
    settled_size ← decimal_field payload "settled_size"
    proceeds ← decimal_field payload "proceeds"
    ok (account_settlement identity market outcome settled_size proceeds ts)
