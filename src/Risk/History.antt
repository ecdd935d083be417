-- ===== src/Risk/History.antt =====
-- A history of account events (crates/pmkit/src/live_risk.rs, `apply_account_event`).
use pmkit.Base.Replies.{Reply}
use pmkit.Domain.{Outcome, Side}
use pmkit.Book.{Position}
use pmkit.Risk.Repeats.{new_fill, applied_fill}
use pmkit.Book.Levels.{is_outcome}
use pmkit.Risk.Pnl.{refresh_marks-daily_pnl}
use pmkit.Live.Admission.{RiskLimits}
use pmkit.Risk.Updates.{
  with_fill, settle_found, with_settlement, apply_risk_settlement, filled_qty, is_member,
  apply_account_event,
}
use pmkit.Accounting.Exposure.{or_zero, bump}
use pmkit.Base.Dict.{get, Dict, get-insert}
use pmkit.Decimals.{dec_laws, Decimals, add_zero}
use pmkit.Risk.State.{RiskStateError, positions_of, LiveSettlement, refresh_marks, LiveRiskState}
use pmkit.Base.{
  either, find, some, none, refl, ◌||◌, Option, arith, ◌+◌, String, ◌∷◌, [], suc, ◌==◌, text_key, ℕ,
  Bool, true, inr, ap, Bool-cases, sym, List, ◌≡◌, inl, if◌then◌else◌,
}
use mathlib.Core.Path.{subst}
use pmkit.Event.{fill as market_fill}
use pmkit.Event.Account.{
  PmAccountEvent, account_ack, account_settlement, account_rejected, FillIdentity, account_status,
  account_cancelled, account_fill, fill_identity_key, settlement_identity_key,
}

module _ ⦃D : Decimals⦄ where
  open D use {Decimal, dec_zero, add, sub, mul, neg, at_most}

  -- The events of a history in turn; one that is refused is left out.
  abbrev pub apply_all : List PmAccountEvent → RiskLimits → LiveRiskState → LiveRiskState
  apply_all [] limits s = s
  apply_all (event ∷ events) limits s =
      apply_all events limits (apply_account_event event limits s).1

  -- The sizes of the fills of an order, each identity once.
  abbrev pub size_of_order : String → List FillIdentity → List PmAccountEvent → Decimal
  size_of_order order_id seen [] = dec_zero
  size_of_order order_id seen (account_fill identity _ oid _ _ _ size _ _ _ _ ∷ events) =
      let old = size_of_order order_id seen events in
      let rest = size_of_order order_id (identity ∷ seen) events in
      if is_member identity seen then old else add (if oid == order_id then size else dec_zero) rest
  size_of_order order_id seen (account_settlement _ _ _ _ _ _ ∷ events) =
      size_of_order order_id seen events
  size_of_order order_id seen (account_ack _ _ _ ∷ events) = size_of_order order_id seen events
  size_of_order order_id seen (account_cancelled _ _ _ ∷ events) =
      size_of_order order_id seen events
  size_of_order order_id seen (account_rejected _ _ _ _ ∷ events) =
      size_of_order order_id seen events
  size_of_order order_id seen (account_status _ _ _ _ ∷ events) = size_of_order order_id seen events

  -- The number of different identities of fills.
  abbrev pub new_fills : List FillIdentity → List PmAccountEvent → ℕ
  new_fills seen [] = 0
  new_fills seen (account_fill identity _ _ _ _ _ _ _ _ _ _ ∷ events) =
      let old = new_fills seen events in
      let rest = new_fills (identity ∷ seen) events in
      if is_member identity seen then old else suc rest
  new_fills seen (account_settlement _ _ _ _ _ _ ∷ events) = new_fills seen events
  new_fills seen (account_ack _ _ _ ∷ events) = new_fills seen events
  new_fills seen (account_cancelled _ _ _ ∷ events) = new_fills seen events
  new_fills seen (account_rejected _ _ _ _ ∷ events) = new_fills seen events
  new_fills seen (account_status _ _ _ _ ∷ events) = new_fills seen events

  filled_qty-bump :
      (order_id oid : String) (size : Decimal) (d : Dict String Decimal)
      → or_zero (get order_id (bump oid size d))
        ≡ add (or_zero (get order_id d)) (if oid == order_id then size else dec_zero)
  unfolding bump
  filled_qty-bump order_id oid size d = elim (Bool-cases (oid == order_id)) [
    | inl e ↦
        rw (get-insert oid order_id (add (or_zero (get oid d)) size) d, e)
          (ap (λ k. add (or_zero (get k d)) size) ((text_key.matches_iff oid order_id).0 e))
    | inr e ↦
        rw (get-insert oid order_id (add (or_zero (get oid d)) size) d, e)
          (sym (add_zero (or_zero (get order_id d))))
  ]

  latch :
      (limits : RiskLimits) (s : LiveRiskState)
      → s.loss_breached ≡ true
      → (refresh_marks limits s).1.loss_breached ≡ true
  latch limits s h = (refresh_marks-daily_pnl limits s).1.1 (inl h)

  -- What a step leaves of the counts.
  record SameCounts (s t : LiveRiskState) : Type 0 where
    applied_same : t.applied_fills ≡ s.applied_fills
    filled_same : t.filled_qty_by_order ≡ s.filled_qty_by_order
    count_same : t.fill_count ≡ s.fill_count
    latched : s.loss_breached ≡ true → t.loss_breached ≡ true

  settle_found-SameCounts :
      (found : Option Position) (closed : LiveSettlement) (limits : RiskLimits) (s : LiveRiskState)
      → SameCounts s (settle_found found closed limits s).1
  unfolding refresh_marks
  settle_found-SameCounts none closed limits s = record {
    applied_same = refl;
    filled_same = refl;
    count_same = refl;
    latched = λ h. h;
  }
  settle_found-SameCounts (some p) closed limits s =
      either (λ (r : Reply RiskStateError (Unit {0}) × LiveRiskState). SameCounts s r.1)
        (D.less p.qty closed.settled_size)
        (record { applied_same = refl; filled_same = refl; count_same = refl; latched = λ h. h })
        (record {
          applied_same = refl;
          filled_same = refl;
          count_same = refl;
          latched = λ h. latch limits (with_settlement closed p s) h;
        })

  apply_risk_settlement-SameCounts :
      (closed : LiveSettlement) (limits : RiskLimits) (s : LiveRiskState)
      → SameCounts s (apply_risk_settlement closed limits s).1
  unfolding apply_risk_settlement
  apply_risk_settlement-SameCounts closed limits s =
      either (λ (r : Reply RiskStateError (Unit {0}) × LiveRiskState). SameCounts s r.1)
        (is_member closed.identity s.applied_settlements)
        (record { applied_same = refl; filled_same = refl; count_same = refl; latched = λ h. h })
        (either (λ (r : Reply RiskStateError (Unit {0}) × LiveRiskState). SameCounts s r.1)
          (at_most closed.settled_size dec_zero || D.less closed.proceeds dec_zero)
          (record { applied_same = refl; filled_same = refl; count_same = refl; latched = λ h. h })
          (settle_found-SameCounts (find (is_outcome closed.outcome) (positions_of closed.market s))
            closed limits s))

  -- From the counts of one state to those of another, over some events.
  abbrev Counts : List PmAccountEvent → LiveRiskState → LiveRiskState → Type 0
  Counts events s s' =
      ((order_id : String)
        → filled_qty order_id s'
          ≡ add (filled_qty order_id s) (size_of_order order_id s.applied_fills events))
      × (s'.fill_count ≡ s.fill_count + new_fills s.applied_fills events)
      × (s.loss_breached ≡ true → s'.loss_breached ≡ true)

  SameCounts-Counts :
      (events : List PmAccountEvent) (s t s' : LiveRiskState)
      → SameCounts s t
      → Counts events t s'
      → Counts events s s'
  unfolding filled_qty
  SameCounts-Counts events s t s' same (qty, count, latched) = (
    λ order_id. rw (same.filled_same, same.applied_same) at (qty order_id),
    rw (same.count_same, same.applied_same) at count,
    λ h. latched (same.latched h),
  )

  new-Counts :
      (identity : FillIdentity) (order_id market : String) (outcome : Outcome)
      (price size : Decimal) (side : Side) (fee : Decimal) (events : List PmAccountEvent)
      (limits : RiskLimits) (s s' : LiveRiskState)
      → Counts events
          (refresh_marks limits
            (with_fill identity order_id market outcome price size side fee s)).1
          s'
      → ((oid : String)
          → filled_qty oid s'
            ≡ add (filled_qty oid s) (
                add
                  (if order_id == oid then size else dec_zero)
                  (size_of_order oid (identity ∷ s.applied_fills) events)))
        × (s'.fill_count ≡ s.fill_count + suc (new_fills (identity ∷ s.applied_fills) events))
        × (s.loss_breached ≡ true → s'.loss_breached ≡ true)
  unfolding filled_qty refresh_marks
  new-Counts identity order_id market outcome price size side fee events limits s s'
        (qty, count, latched) =
      (
        λ oid. omega (dec_laws, qty oid, filled_qty-bump oid order_id size s.filled_qty_by_order),
        omega (arith, count),
        λ h.
            latched
              (latch limits (with_fill identity order_id market outcome price size side fee s) h),
      )

  -- After any history the risk state has, beyond what it had, exactly the sizes of the different
  -- fills of each order, and the number of different fills; an identity counts once, however often
  -- it comes; and a loss that was breached stays breached.
  pub apply_all-filled_qty :
      (events : List PmAccountEvent) (limits : RiskLimits) (s : LiveRiskState)
      → let s' = apply_all events limits s in
        ((order_id : String)
          → filled_qty order_id s'
            ≡ add (filled_qty order_id s) (size_of_order order_id s.applied_fills events))
        × (s'.fill_count ≡ s.fill_count + new_fills s.applied_fills events)
        × (s.loss_breached ≡ true → s'.loss_breached ≡ true)
  unfolding apply_account_event
  apply_all-filled_qty [] limits s =
      (λ order_id. sym (add_zero (filled_qty order_id s)), omega arith, λ b. b)
  apply_all-filled_qty (account_ack _ _ _ ∷ events) limits s = apply_all-filled_qty events limits s
  apply_all-filled_qty (account_cancelled _ _ _ ∷ events) limits s =
      apply_all-filled_qty events limits s
  apply_all-filled_qty (account_rejected _ _ _ _ ∷ events) limits s =
      apply_all-filled_qty events limits s
  apply_all-filled_qty (account_status _ _ _ _ ∷ events) limits s =
      apply_all-filled_qty events limits s
  apply_all-filled_qty
        (account_settlement identity market outcome settled_size proceeds ts ∷ events) limits s =
      let closed : LiveSettlement = record {
        identity = identity;
        market = market;
        outcome = outcome;
        settled_size = settled_size;
        proceeds = proceeds;
      } in
      let t = (apply_risk_settlement closed limits s).1 in
      SameCounts-Counts events s t (apply_all events limits t)
        (apply_risk_settlement-SameCounts closed limits s) (apply_all-filled_qty events limits t)
  apply_all-filled_qty
        (account_fill identity strategy order_id market outcome price size side fee liquidity ts
          ∷ events)
        limits s =
      elim (Bool-cases (is_member identity s.applied_fills)) [
        | inl seen ↦
            let same =
              applied_fill
                (market_fill strategy order_id market outcome price size side fee liquidity ts)
                identity limits s seen in
            subst
              (λ (r : Bool × LiveRiskState).
                Counts
                  (account_fill identity strategy order_id market outcome price size side fee
                      liquidity ts
                    ∷ events)
                  s (apply_all events limits r.1))
              (sym same) (rw seen (apply_all-filled_qty events limits s))
        | inr fresh ↦
            let same =
              new_fill strategy order_id market outcome price size side fee liquidity ts identity
                limits s fresh in
            subst
              (λ (r : Bool × LiveRiskState).
                Counts
                  (account_fill identity strategy order_id market outcome price size side fee
                      liquidity ts
                    ∷ events)
                  s (apply_all events limits r.1))
              (sym same)
              (rw fresh (
                new-Counts identity order_id market outcome price size side fee events limits s _ (
                  apply_all-filled_qty events limits
                    (refresh_marks limits
                      (with_fill identity order_id market outcome price size side fee s)).1)))
      ]
