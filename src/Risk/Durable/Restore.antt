-- ===== src/Risk/Durable/Restore.antt =====
-- The two methods that restore the risk state from a record (crates/pmkit/src/live_risk.rs), and
-- what a record that is refused or comes again does.
use pmkit.Event.Account.{FillIdentity, PmAccountEvent, transport_fill}
use pmkit.Live.Admission.{RiskLimits}
use pmkit.Decimals.{Decimals}
use pmkit.Risk.Durable.{
  string_field, read_at, side_field, some_strategy, outcome_field, PmEnvelope, Read, market_field,
  from_frame, durable_fill, durable_settlement, liquidity_field, Json, fill_amounts,
}
use pmkit.Base.Replies.{panic, ok, map_ok, err}
use pmkit.Base.{
  text_key, leb, some, not, none, if◌then◌else◌, String, ◌==◌, show, Option, ◌&&◌, join, ◌||◌,
}
use pmkit.Risk.Updates.{apply_account_event, apply_risk_fill, RiskAction}
use pmkit.Risk.State.{corrupt}
use pmkit.Event.{MarketEvent, fill as market_fill}
use pmkit.Base.Results.{err_if, ok_or, ◌>>=◌, ◌>>◌}

module _ ⦃D : Decimals⦄ (J : Json D.Decimal) where
  open D use {Decimal, dec_zero}
  open J use {Value, field, as_str, as_i64, as_u64}

  -- The record of an owner: no fact for an order's state.
  unfoldable pub owned_account_event :
      PmEnvelope J → String → Value → Read J (Option PmAccountEvent)
  unfolding durable_fill durable_settlement
  owned_account_event e portfolio owner = do
    record_owner ← ok_or (as_str owner) (corrupt "portfolio is invalid")
    err_if (not (record_owner == portfolio))
        (corrupt (join "record owner " (join record_owner (join " does not match " portfolio))))
    version ←
        ok_or (read_at J as_u64 "schema_version" e.normalized)
          (corrupt "account schema version is missing or invalid")
    err_if (not (leb 1 version && leb version 4))
        (corrupt (join "unsupported account schema version " (show version)))
    payload ← ok_or (field "payload" e.normalized) (corrupt "account payload is missing")
    ts ← ok_or (read_at J as_i64 "ts" payload) (corrupt "event timestamp is missing or invalid")
    kind ← string_field J payload "kind"
    if kind == "fill"
        then (do event ← durable_fill J e payload version ts; ok (some event))
        else if kind == "settlement"
        then (do event ← durable_settlement J e payload version ts; ok (some event))
        else if kind == "order_ack"
            || (kind == "order_cancelled" || (kind == "order_rejected" || kind == "order_status"))
        then ok none
        else err (corrupt (join "unsupported account event kind " kind))

  -- What a record of the account gives: no fact without an owner.
  unfoldable pub durable_account_event : PmEnvelope J → String → Read J (Option PmAccountEvent)
  unfolding owned_account_event
  durable_account_event e portfolio = elim (field "portfolio" e.normalized) [
    | none ↦ ok none
    | some owner ↦ owned_account_event e portfolio owner
  ]

  -- `map(|_| ())`
  abbrev pub apply_read : Read J (Option PmAccountEvent) → RiskLimits → RiskAction (Unit {0})
  apply_read (ok none) limits s = (ok tt, s)
  apply_read (ok (some event)) limits s =
      let (reply, s') = apply_account_event event limits s in (map_ok (λ is_new. tt) reply, s')
  apply_read (err error) limits s = (err error, s)
  apply_read panic limits s = (panic, s)

  unfoldable pub apply_durable_account_record :
      PmEnvelope J → String → RiskLimits → RiskAction (Unit {0})
  unfolding durable_account_event
  apply_durable_account_record e portfolio limits =
      apply_read (durable_account_event e portfolio) limits

  -- What a record of the market gives: a fill of the run, with the frame as its identity.
  unfoldable pub durable_market_fill : PmEnvelope J → Read J (Option MarketEvent)
  durable_market_fill e = elim (field "portfolio" e.normalized) [
    | some _ ↦ ok none
    | none ↦ do
      payload ← ok_or (field "payload" e.normalized) (corrupt "market payload is missing")
      kind ← string_field J payload "kind"
      if kind == "fill"
          then (do
            strategy ← elim (field "strategy" payload) [
              | none ↦ ok none
              | some strategy ↦ some_strategy J strategy "strategy is invalid"
            ]
            (price, size, fee) ← fill_amounts J payload
            order_id ← string_field J payload "order_id"
            market ← market_field J payload
            outcome ← outcome_field J payload
            side ← side_field J payload
            liquidity ← liquidity_field J payload
            ts ←
                ok_or (read_at J as_i64 "ts" payload)
                  (corrupt "event timestamp is missing or invalid")
            ok (
                some
                  (market_fill strategy order_id market outcome price size side fee liquidity ts)))
          else ok none
  ]

  abbrev pub apply_market_read :
      Read J (Option MarketEvent) → FillIdentity → RiskLimits → RiskAction (Unit {0})
  apply_market_read (ok none) identity limits s = (ok tt, s)
  apply_market_read (ok (some event)) identity limits s =
      (ok tt, (apply_risk_fill event identity limits s).1)
  apply_market_read (err error) identity limits s = (err error, s)
  apply_market_read panic identity limits s = (panic, s)

  unfoldable pub apply_durable_market_record : PmEnvelope J → RiskLimits → RiskAction (Unit {0})
  unfolding durable_market_fill
  apply_durable_market_record e limits =
      apply_market_read (durable_market_fill e) (from_frame J transport_fill e) limits
