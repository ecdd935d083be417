-- ===== src/Paper/Accepted.antt =====
-- What an accepted entry does to the account (crates/pmkit-paper/src/ledger.rs, `apply`).
use pmkit.Base.Dict.{get}
use pmkit.Decimals.{Decimals}
use pmkit.Accounting.Positions.{held}
use pmkit.Accounting.{
  position, AccountingError, Settlement, LedgerFill, PortfolioLedger, settle, Action,
}
use pmkit.Domain.{side_key, outcome_key, Outcome, Side}
use pmkit.Base.Replies.{Reply, ok, pure, next-eq-ok, err, map_err, panic}
use pmkit.Base.{
  text_key, ℤ, inr, not, ◌∙◌, String, Bool, Bool-cases, Option-cases, if◌then◌else◌, ap, ◌||◌, ◌==◌,
  inl, arith, ◌≡◌,
}
use pmkit.Paper.Events.{
  accounting, order_placed, inconsistent, OrderState, cash_movement, RecordedOrder, order_rejected,
  PaperLedgerEvent, order_cancelled, PaperLedger, settlement, order_ack, fill, TrackedOrder,
  PaperLedgerEntry,
}
use pmkit.Accounting
use pmkit.Paper.Ledger.{
  apply_event, apply_ack, apply_placement, on_account, LedgerAction, apply_settlement,
  apply_rejection, apply_cancel, apply_fill,
}

module _ ⦃D : Decimals⦄ where
  open D use {Decimal, dec_zero, add}

  -- The call of the account that an event leads to, if it leads to one.
  abbrev pub account_action : PaperLedgerEvent → Action (Unit {0})
  account_action (cash_movement amount) = pure tt
  account_action (order_placed order) = pure tt
  account_action (order_ack p o s t) = pure tt
  account_action (order_rejected p o) = pure tt
  account_action (order_cancelled o) = pure tt
  account_action (fill id market o price size s fee) =
      Accounting.apply_fill (record {
        market = market;
        outcome = o;
        side = s;
        price = price;
        quantity = size;
        fee = fee;
      })
  account_action (settlement market o size proceeds) =
      Accounting.settle
        (record { market = market; outcome = o; payout_per_share = D.div proceeds size })

  -- When `m` succeeds, it has done `action` to the account.
  abbrev Does : Action (Unit {0}) → LedgerAction (Unit {0}) → Type 0
  Does action m = (l l' : PaperLedger) → m l ≡ (ok tt, l') → action l.account ≡ (ok tt, l'.account)

  placement-Does :
      (e : PaperLedgerEntry) (order : RecordedOrder) → Does (pure tt) (apply_placement e order)
  unfolding apply_placement
  placement-Does e order l l' h = ap (λ (x : PortfolioLedger). (ok tt, x)) (ground (arith, h))

  ack-Does :
      (e : PaperLedgerEntry) (p o : String) (s : OrderState) (t : ℤ)
      → Does (pure tt) (apply_ack e p o s t)
  unfolding apply_ack
  ack-Does e p o s t l l' h = ap (λ (x : PortfolioLedger). (ok tt, x)) (ground (arith, h))

  rejection-Does : (e : PaperLedgerEntry) (p o : String) → Does (pure tt) (apply_rejection e p o)
  unfolding apply_rejection
  rejection-Does e p o l l' h = ap (λ (x : PortfolioLedger). (ok tt, x)) (ground (arith, h))

  cancel-Does : (e : PaperLedgerEntry) (o : String) → Does (pure tt) (apply_cancel e o)
  unfolding apply_cancel
  cancel-Does e o l l' h = ap (λ (x : PortfolioLedger). (ok tt, x)) (ground (arith, h))

  on_account-Does : (action : Action (Unit {0})) → Does action (on_account action)
  on_account-Does action l l' h = after (action l.account) (ap (λ r. r.0) h) (ap (λ r. r.1) h)
    where
      after :
          (r : Reply AccountingError (Unit {0}) × PortfolioLedger)
          → map_err accounting r.0 ≡ ok tt
          → record l { account = r.1 } ≡ l'
          → r ≡ (ok tt, l'.account)
      after (ok tt, a) k same = ap (λ (x : PaperLedger). (ok tt, x.account)) same
      after (err e, a) k same = cc k
      after (panic, a) k same = cc k

  settlement-Does :
      (e : PaperLedgerEntry) (market : String) (o : Outcome) (size proceeds : Decimal)
      → Does
          (account_action (settlement market o size proceeds))
          (apply_settlement e market o size proceeds)
  unfolding apply_settlement
  settlement-Does e market o size proceeds l l' h =
      let payout : Settlement = record {
        market = market;
        outcome = o;
        payout_per_share = D.div proceeds size;
      } in
      let (s, first, rest) =
        next-eq-ok
          (
            if mismatch
                then err (
                    inconsistent e.event_id "settlement does not exactly consume the held position")
                else ok tt,
            l,
          )
          (λ _. on_account (Accounting.settle payout)) tt l' h in
      let same : l ≡ s = ap (λ r. r.1) first in
      ap (λ (x : PaperLedger). Accounting.settle payout x.account) same
      ∙ on_account-Does (Accounting.settle payout) s l' rest
    where
      mismatch : Bool
      mismatch =
          let quantity = held market o l.account.positions in
          D.at_most size D.dec_zero || D.is_sign_negative proceeds || not (D.same quantity size)

  fill-Does :
      (e : PaperLedgerEntry) (id market : String) (o : Outcome) (price size : Decimal) (s : Side)
      (fee : Decimal)
      → Does
          (account_action (fill id market o price size s fee))
          (apply_fill e id market o price size s fee)
  unfolding apply_fill
  fill-Does e id market o price size s fee l l' h = elim (Option-cases (get id l.orders)) [
    | inl eq ↦ cc (ap (λ r. r.0) (rw eq at h))
    | inr (tracked, eq) ↦ elim (Bool-cases (mismatch tracked)) [
      | inl b ↦ cc (ap (λ r. r.0) (rw (eq, b) at h))
      | inr b ↦
          let (s', first, rest) =
            next-eq-ok (on_account (Accounting.apply_fill trade_of) l) _ tt l' (rw (eq, b) at h) in
          on_account-Does (Accounting.apply_fill trade_of) l s' first
          ∙ ap (λ r. (ok tt, r.1.account)) rest
    ]
  ]
    where
      mismatch : TrackedOrder → Bool
      mismatch tracked =
          not (tracked.order.market == market)
          || not (tracked.order.outcome == o)
          || not (tracked.order.side == s)
          || D.less tracked.order.qty size

      trade_of : LedgerFill
      trade_of = record {
        market = market;
        outcome = o;
        side = s;
        price = price;
        quantity = size;
        fee = fee;
      }

  -- An accepted event has done to the account what its action does there.
  pub event-Does :
      (e : PaperLedgerEntry) (event : PaperLedgerEvent)
      → Does (account_action event) (apply_event e event)
  unfolding apply_event
  event-Does e (cash_movement amount) = λ l l' h. ap (λ r. (ok tt, r.1.account)) h
  event-Does e (order_placed order) = placement-Does e order
  event-Does e (order_ack p o s t) = ack-Does e p o s t
  event-Does e (order_rejected p o) = rejection-Does e p o
  event-Does e (order_cancelled o) = cancel-Does e o
  event-Does e (fill id market o price size s fee) = fill-Does e id market o price size s fee
  event-Does e (settlement market o size proceeds) = settlement-Does e market o size proceeds
