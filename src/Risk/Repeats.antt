-- ===== src/Risk/Repeats.antt =====
-- An account event that is delivered again (crates/pmkit/src/live_risk.rs).
use mathlib.Core.Path.{subst}
use pmkit.Event.{order_ack as order_status}
use pmkit.Book.Levels.{is_outcome}
use pmkit.Domain.{Side, Outcome}
use pmkit.Book.{Position}
use pmkit.Decimals.{Decimals}
use pmkit.Base.Replies.{map_ok, Reply, panic, err, ok}
use pmkit.Live.Admission.{RiskLimits}
use pmkit.Risk.State.{
  corrupt, positions_of, refresh_marks, LiveSettlement, RiskStateError, LiveRiskState,
}
use pmkit.Risk.Updates.{
  with_fill, settle_found, RiskAction, apply_risk_settlement, is_member, apply_risk_fill,
  apply_account_event,
}
use pmkit.Base.{
  ℤ, find, if◌then◌else◌, ap, String, ◌∙◌, Key, sym, ==-refl, true, ◌||◌, some, Option, none, refl,
  List, Bool-cases, either, ◌≡◌, inr, false, inl, ◌∷◌, Bool, ◌≢◌,
}
use pmkit.Event.{
  Liquidity, best_bid_ask, MarketEvent, tick, last_trade, book_update, fill as market_fill,
}
use pmkit.Event.Account.{
  FillIdentity, account_settlement, account_fill, PmAccountEvent, account_cancelled,
  account_rejected, account_status, account_ack, fill_identity_key, settlement_identity_key,
}

module _ ⦃D : Decimals⦄ where
  open D use {Decimal, dec_zero, add, sub, mul, neg, at_most}

  refresh_marks-applied_fills :
      (limits : RiskLimits) (s : LiveRiskState)
      → (refresh_marks limits s).1.applied_fills ≡ s.applied_fills
  unfolding refresh_marks
  refresh_marks-applied_fills limits s = refl

  refresh_marks-applied_settlements :
      (limits : RiskLimits) (s : LiveRiskState)
      → (refresh_marks limits s).1.applied_settlements ≡ s.applied_settlements
  unfolding refresh_marks
  refresh_marks-applied_settlements limits s = refl

  -- What a result of a method says: an error left the state, a success is not repeated.
  abbrev IsSettled :
      {A : Type 0}
      → RiskAction A
      → A
      → LiveRiskState
      → Reply RiskStateError A × LiveRiskState
      → Type 0
  IsSettled {A} action again s (reply, s') =
      ((error : RiskStateError) → reply ≡ err error → s' ≡ s)
      × ((a : A) → reply ≡ ok a → action s' ≡ (ok again, s'))
      × (reply ≢ panic)

  refused :
      {A : Type 0} (action : RiskAction A) (again : A) (s : LiveRiskState) (error : RiskStateError)
      → IsSettled action again s (err error, s)
  refused action again s error = (λ error e. refl, λ a e. cc e, λ e. cc e)

  was_accepted :
      {A : Type 0} (action : RiskAction A) (a again : A) (s s' : LiveRiskState)
      → action s' ≡ (ok again, s')
      → IsSettled action again s (ok a, s')
  was_accepted action a again s s' h = (λ error e. cc e, λ a e. h, λ e. cc e)

  is_member_head : {A : Type 0} ⦃key : Key A⦄ (a : A) (xs : List A) → is_member a (a ∷ xs) ≡ true
  is_member_head a xs = rw (==-refl a) refl

  applied_settlement :
      (closed : LiveSettlement) (limits : RiskLimits) (s : LiveRiskState)
      → is_member closed.identity s.applied_settlements ≡ true
      → apply_risk_settlement closed limits s ≡ (ok tt, s)
  unfolding apply_risk_settlement
  applied_settlement closed limits s h = rw h refl

  settle_found-again :
      (found : Option Position) (closed : LiveSettlement) (limits : RiskLimits) (s : LiveRiskState)
      → IsSettled (apply_risk_settlement closed limits) tt s (settle_found found closed limits s)
  unfolding refresh_marks
  settle_found-again none closed limits s = refused (apply_risk_settlement closed limits) tt s _
  settle_found-again (some p) closed limits s =
      either (IsSettled (apply_risk_settlement closed limits) tt s)
        (D.less p.qty closed.settled_size) (refused (apply_risk_settlement closed limits) tt s _)
        (was_accepted (apply_risk_settlement closed limits) tt tt s _ (
          applied_settlement closed limits _
            (is_member_head closed.identity s.applied_settlements)))

  new_settlement :
      (closed : LiveSettlement) (limits : RiskLimits) (s : LiveRiskState)
      → is_member closed.identity s.applied_settlements ≡ false
      → apply_risk_settlement closed limits s ≡ (
          if at_most closed.settled_size dec_zero || D.less closed.proceeds dec_zero
          then (err (corrupt "settlement size or proceeds is outside its valid range"), s)
          else settle_found
              (find (is_outcome closed.outcome) (positions_of closed.market s))
              closed
              limits
              s)
  unfolding apply_risk_settlement
  new_settlement closed limits s h = rw h refl

  apply_risk_settlement-again :
      (closed : LiveSettlement) (limits : RiskLimits) (s : LiveRiskState)
      → IsSettled (apply_risk_settlement closed limits) tt s (apply_risk_settlement closed limits s)
  apply_risk_settlement-again closed limits s =
      elim (Bool-cases (is_member closed.identity s.applied_settlements)) [
        | inl seen ↦
            subst (IsSettled (apply_risk_settlement closed limits) tt s)
              (sym (applied_settlement closed limits s seen))
              (was_accepted (apply_risk_settlement closed limits) tt tt s s
                (applied_settlement closed limits s seen))
        | inr fresh ↦
            let invalid = corrupt "settlement size or proceeds is outside its valid range" in
            let invalid_reply : Reply RiskStateError (Unit {0}) × LiveRiskState =
              (err invalid, s) in
            let checked : IsSettled (apply_risk_settlement closed limits) tt s (
                if at_most closed.settled_size dec_zero || D.less closed.proceeds dec_zero
                then invalid_reply
                else settle_found (find (is_outcome closed.outcome) (positions_of closed.market s))
                    closed limits s) =
              either (IsSettled (apply_risk_settlement closed limits) tt s)
                (at_most closed.settled_size dec_zero || D.less closed.proceeds dec_zero)
                (refused (apply_risk_settlement closed limits) tt s invalid)
                (settle_found-again
                  (find (is_outcome closed.outcome) (positions_of closed.market s)) closed limits
                  s) in
            subst (IsSettled (apply_risk_settlement closed limits) tt s)
              (sym (new_settlement closed limits s fresh)) checked
      ]

  pub applied_fill :
      (event : MarketEvent) (identity : FillIdentity) (limits : RiskLimits) (s : LiveRiskState)
      → is_member identity s.applied_fills ≡ true
      → apply_risk_fill event identity limits s ≡ (false, s)
  unfolding apply_risk_fill
  applied_fill (market_fill _ _ _ _ _ _ _ _ _ _) identity limits s h = rw h refl
  applied_fill (book_update _ _ _ _ _) identity limits s h = refl
  applied_fill (best_bid_ask _ _ _ _ _) identity limits s h = refl
  applied_fill (last_trade _ _ _ _ _ _) identity limits s h = refl
  applied_fill (order_status _ _ _) identity limits s h = refl
  applied_fill (tick _) identity limits s h = refl

  pub new_fill :
      (strategy : Option String) (order_id market : String) (outcome : Outcome)
      (price size : Decimal) (side : Side) (fee : Decimal) (liquidity : Liquidity) (ts : ℤ)
      (identity : FillIdentity) (limits : RiskLimits) (s : LiveRiskState)
      → is_member identity s.applied_fills ≡ false
      → apply_risk_fill
          (market_fill strategy order_id market outcome price size side fee liquidity ts)
          identity
          limits
          s
        ≡ (
          true,
          (refresh_marks limits
              (with_fill identity order_id market outcome price size side fee s)).1,
        )
  unfolding apply_risk_fill
  new_fill strategy order_id market outcome price size side fee liquidity ts identity limits s h =
      rw h refl

  fill-again :
      (event : PmAccountEvent) (fact : MarketEvent) (identity : FillIdentity) (limits : RiskLimits)
      (s : LiveRiskState)
      → ((t : LiveRiskState)
          → apply_account_event event limits t ≡ (
            ok (apply_risk_fill fact identity limits t).0,
            (apply_risk_fill fact identity limits t).1,
          ))
      → is_member identity (apply_risk_fill fact identity limits s).1.applied_fills ≡ true
      → IsSettled (apply_account_event event limits) false s (apply_account_event event limits s)
  fill-again event fact identity limits s h kept =
      let s' = (apply_risk_fill fact identity limits s).1 in
      subst (IsSettled (apply_account_event event limits) false s) (sym (h s)) (
        was_accepted (apply_account_event event limits) _ false s s' (
          h s'
          ∙ ap (λ (r : Bool × LiveRiskState). (ok r.0, r.1))
              (applied_fill fact identity limits s' kept)))

  kept_identity :
      (strategy : Option String) (order_id market : String) (outcome : Outcome)
      (price size : Decimal) (side : Side) (fee : Decimal) (liquidity : Liquidity) (ts : ℤ)
      (identity : FillIdentity) (limits : RiskLimits) (s : LiveRiskState)
      → is_member identity
          (apply_risk_fill
            (market_fill strategy order_id market outcome price size side fee liquidity ts)
            identity
            limits
            s).1.applied_fills
        ≡ true
  unfolding refresh_marks
  kept_identity strategy order_id market outcome price size side fee liquidity ts identity limits
        s =
      let fact = market_fill strategy order_id market outcome price size side fee liquidity ts in
      elim (Bool-cases (is_member identity s.applied_fills)) [
        | inl seen ↦
            ap (λ (r : Bool × LiveRiskState). is_member identity r.1.applied_fills)
              (applied_fill fact identity limits s seen)
            ∙ seen
        | inr fresh ↦
            ap (λ (r : Bool × LiveRiskState). is_member identity r.1.applied_fills)
              (new_fill strategy order_id market outcome price size side fee liquidity ts identity
                limits s fresh)
            ∙ is_member_head identity s.applied_fills
      ]

  settlement-again :
      (closed : LiveSettlement) (event : PmAccountEvent) (limits : RiskLimits) (s : LiveRiskState)
      → ((t : LiveRiskState)
          → apply_account_event event limits t ≡ (
            map_ok (λ u. false) (apply_risk_settlement closed limits t).0,
            (apply_risk_settlement closed limits t).1,
          ))
      → IsSettled (apply_account_event event limits) false s (apply_account_event event limits s)
  settlement-again closed event limits s h =
      subst (IsSettled (apply_account_event event limits) false s) (sym (h s)) (
        mapped (apply_risk_settlement closed limits s).0
          (apply_risk_settlement-again closed limits s))
    where
      s' : LiveRiskState
      s' = (apply_risk_settlement closed limits s).1

      mapped :
          (reply : Reply RiskStateError (Unit {0}))
          → IsSettled (apply_risk_settlement closed limits) tt s (reply, s')
          → IsSettled (apply_account_event event limits) false s (map_ok (λ u. false) reply, s')
      mapped (ok u) (_, again, _) =
          was_accepted (apply_account_event event limits) false false s s' (
            h s'
            ∙ ap
                (λ (r : Reply RiskStateError (Unit {0}) × LiveRiskState).
                  (map_ok (λ x. false) r.0, r.1))
                (again u refl))
      mapped (err error) (same, _, _) = (λ e eq. same error refl, λ a eq. cc eq, λ eq. cc eq)
      mapped panic (_, _, no_panic) = absurd (no_panic refl)

  -- An event that is refused changes nothing; one that is accepted and comes again is accepted as
  -- one that is not new, and changes nothing; no event panics.
  pub apply_account_event-again :
      (event : PmAccountEvent) (limits : RiskLimits) (s : LiveRiskState)
      → let action = apply_account_event event limits in
        let (reply, s') = action s in
        ((error : RiskStateError) → reply ≡ err error → s' ≡ s)
        × ((is_new : Bool) → reply ≡ ok is_new → action s' ≡ (ok false, s'))
        × (reply ≢ panic)
  unfolding apply_account_event
  apply_account_event-again
        (account_fill identity strategy order_id market outcome price size side fee liquidity ts)
        limits s =
      fill-again
        (account_fill identity strategy order_id market outcome price size side fee liquidity ts)
        (market_fill strategy order_id market outcome price size side fee liquidity ts) identity
        limits s (λ t. refl)
        (kept_identity strategy order_id market outcome price size side fee liquidity ts identity
          limits s)
  apply_account_event-again (account_settlement identity market outcome settled_size proceeds ts)
        limits s =
      settlement-again
        (record {
          identity = identity;
          market = market;
          outcome = outcome;
          settled_size = settled_size;
          proceeds = proceeds;
        })
        (account_settlement identity market outcome settled_size proceeds ts) limits s (λ t. refl)
  apply_account_event-again (account_ack _ _ _) limits s =
      (λ error e. refl, λ is_new e. refl, λ e. cc e)
  apply_account_event-again (account_cancelled _ _ _) limits s =
      (λ error e. refl, λ is_new e. refl, λ e. cc e)
  apply_account_event-again (account_rejected _ _ _ _) limits s =
      (λ error e. refl, λ is_new e. refl, λ e. cc e)
  apply_account_event-again (account_status _ _ _ _) limits s =
      (λ error e. refl, λ is_new e. refl, λ e. cc e)
