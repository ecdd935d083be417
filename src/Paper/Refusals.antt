-- ===== src/Paper/Refusals.antt =====
-- What a refused entry leaves behind in the paper ledger (crates/pmkit-paper/src/ledger.rs).
use pmkit.Accounting.Refusals.{account_fill-refused, account_settle-refused, with_fees}
use pmkit.Paper.Lifecycle.{History-IsFresh}
use pmkit.Accounting.Positions.{held}
use pmkit.Paper.History.{History}
use pmkit.Domain.{side_key, outcome_key, Outcome, Side}
use pmkit.Base.Dict.{get}
use pmkit.Decimals.{Decimals}
use pmkit.Base.Replies.{modify, next-eq-err, map_err, Method, panic, ok, Reply, err}
use pmkit.Base.{
  ◌==◌, Bool, not, ◌||◌, ap, inl, sym, Option-cases, inr, Bool-cases, ◌∙◌, text_key, refl, none, ℤ,
  String, arith, ◌≡◌,
}
use pmkit.Accounting.{
  LedgerPosition, position, is_at, Settlement, AccountingError, settle, PortfolioLedger, trade,
  LedgerFill, add_to, add_position, validate_non_negative, remove_position,
}
use pmkit.Paper.Events.{
  order_rejected, order_cancelled, fill, settlement, PaperLedgerEvent, cash_movement, order_placed,
  order_ack, TrackedOrder, accounting, RecordedOrder, PaperLedgerError, PaperLedger,
  PaperLedgerEntry, OrderState,
}
use pmkit.Paper.Ledger.{
  next_entry, recorded, apply, apply_event, append, apply_settlement, apply_placement, on_account,
  apply_rejection, apply_ack, LedgerAction, apply_cancel,
}
use pmkit.Accounting
use pmkit.Paper.Ledger.{apply_fill}

module _ ⦃D : Decimals⦄ where
  open D use {Decimal}

  -- A change of nothing but the fees of the account.
  abbrev pub OnlyFees : PaperLedger → PaperLedger → Type 0
  OnlyFees l l' = l' ≡ record l { account = with_fees l'.account.fees l.account }

  abbrev RefusesCleanly : LedgerAction (Unit {0}) → PaperLedger → Type 0
  RefusesCleanly m l = (e : PaperLedgerError) (l' : PaperLedger) → m l ≡ (err e, l') → OnlyFees l l'

  ack-RefusesCleanly :
      (e : PaperLedgerEntry) (p o : String) (s : OrderState) (t : ℤ) (l : PaperLedger)
      → RefusesCleanly (apply_ack e p o s t) l
  unfolding apply_ack
  ack-RefusesCleanly e p o s t l err_of l' h = ground arith

  rejection-RefusesCleanly :
      (e : PaperLedgerEntry) (p o : String) (l : PaperLedger)
      → RefusesCleanly (apply_rejection e p o) l
  unfolding apply_rejection
  rejection-RefusesCleanly e p o l err_of l' h = ground arith

  cancel-RefusesCleanly :
      (e : PaperLedgerEntry) (o : String) (l : PaperLedger) → RefusesCleanly (apply_cancel e o) l
  unfolding apply_cancel
  cancel-RefusesCleanly e o l err_of l' h = ground arith

  -- A free identity makes a placement that is not refused.
  placement-RefusesCleanly :
      (e : PaperLedgerEntry) (order : RecordedOrder) (l : PaperLedger)
      → get e.event_id l.placements ≡ none
      → RefusesCleanly (apply_placement e order) l
  unfolding apply_placement
  placement-RefusesCleanly e order l free err_of l' h = ground arith

  on_account_lem :
      (m : Method PortfolioLedger AccountingError (Unit {0})) (l : PaperLedger)
      → ((a' : PortfolioLedger) (e : AccountingError)
          → m l.account ≡ (err e, a')
          → a' ≡ with_fees a'.fees l.account)
      → RefusesCleanly (on_account m) l
  on_account_lem m l refused e l' h = on_account_of (m l.account) refl
    where
      on_account_of :
          (r : Reply AccountingError (Unit {0}) × PortfolioLedger) → m l.account ≡ r → OnlyFees l l'
      on_account_of (ok tt, a) eq = cc (eq, h)
      on_account_of (panic, a) eq = cc (eq, h)
      on_account_of (err x, a) eq =
          let same : (err (accounting x), record l { account = a }) ≡ (err e, l') =
            ap (λ q. (map_err accounting q.0, record l { account = q.1 })) (sym eq) ∙ h in
          let after = refused a x eq in
          rw (sym (ap (λ q. q.1) same)) (ap (λ b. record l { account = b }) after)

  fill-RefusesCleanly :
      (e : PaperLedgerEntry) (id market : String) (o : Outcome) (price size : Decimal) (s : Side)
      (fee : Decimal) (l : PaperLedger)
      → RefusesCleanly (apply_fill e id market o price size s fee) l
  unfolding apply_fill
  fill-RefusesCleanly e id market o price size s fee l e' l' h =
      elim (Option-cases (get id l.orders)) [
        | inl eq ↦ untouched (ap (λ r. r.1) (rw eq at h))
        | inr (tracked, eq) ↦ elim (Bool-cases (mismatch tracked)) [
          | inl b ↦ untouched (ap (λ r. r.1) (rw (eq, b) at h))
          | inr b ↦
              elim (next-eq-err (on_account (Accounting.apply_fill trade_of) l) _ e' l'
                (rw (eq, b) at h)) [
                  | inl refused ↦
                      on_account_lem (Accounting.apply_fill trade_of) l
                        (account_fill-refused trade_of l.account) e' l' refused
                  | inr (_, _, done) ↦ cc done
                ]
        ]
      ]
    where
      untouched : l ≡ l' → OnlyFees l l'
      untouched same = rw (sym same) refl

      mismatch : TrackedOrder → Bool
      mismatch tracked =
          not (tracked.order.market == market)
          || not (tracked.order.outcome == o)
          || not (tracked.order.side == s)
          || D.less tracked.order.qty size

      trade_of : LedgerFill
      trade_of = record {
        market = market;
        outcome = o;
        side = s;
        price = price;
        quantity = size;
        fee = fee;
      }

  settlement-RefusesCleanly :
      (e : PaperLedgerEntry) (market : String) (o : Outcome) (size proceeds : Decimal)
      (l : PaperLedger)
      → RefusesCleanly (apply_settlement e market o size proceeds) l
  unfolding apply_settlement
  settlement-RefusesCleanly e market o size proceeds l e' l' h =
      elim (Bool-cases (mismatch (held market o l.account.positions))) [
        | inl b ↦ rw (sym (ap (λ r. r.1) (rw b at h))) refl
        | inr b ↦
            on_account_lem (Accounting.settle payout) l
              (λ a' e same. rw (account_settle-refused payout l.account a' e same) refl) e' l'
              (rw b at h)
      ]
    where
      mismatch : Decimal → Bool
      mismatch quantity =
          D.at_most size D.dec_zero || D.is_sign_negative proceeds || not (D.same quantity size)

      payout : Settlement
      payout = record { market = market; outcome = o; payout_per_share = D.div proceeds size }

  event-RefusesCleanly :
      (e : PaperLedgerEntry) (event : PaperLedgerEvent) (l : PaperLedger)
      → get e.event_id l.placements ≡ none
      → RefusesCleanly (apply_event e event) l
  unfolding apply_event
  event-RefusesCleanly e (cash_movement amount) l free = λ e' l' h. cc (ap (λ r. r.0) h)
  event-RefusesCleanly e (order_placed order) l free = placement-RefusesCleanly e order l free
  event-RefusesCleanly e (order_ack p o s t) l free = ack-RefusesCleanly e p o s t l
  event-RefusesCleanly e (order_rejected p o) l free = rejection-RefusesCleanly e p o l
  event-RefusesCleanly e (order_cancelled o) l free = cancel-RefusesCleanly e o l
  event-RefusesCleanly e (fill id market o price size s fee) l free =
      fill-RefusesCleanly e id market o price size s fee l
  event-RefusesCleanly e (settlement market o size proceeds) l free =
      settlement-RefusesCleanly e market o size proceeds l

  -- In a ledger that accepted appends have led to, an entry that `append` refuses changes nothing
  -- of the ledger but the fees of the account: no entry is recorded, no number is used up, and the
  -- orders, the placements, the cash and the positions stay.
  pub append-refused :
      (t : ℤ) (event : PaperLedgerEvent) (e : PaperLedgerError) {l : PaperLedger} (l' : PaperLedger)
      → History l
      → append t event l ≡ (err e, l')
      → l' ≡ record l { account = record l.account { fees = l'.account.fees } }
  unfolding append apply
  append-refused t event e {l} l' h refused =
      let entry = next_entry t event l in
      let free = (History-IsFresh h).placement_free l.next_sequence (omega arith) in
      elim (next-eq-err (apply_event entry event l) (λ _. modify (recorded entry)) e l' refused) [
        | inl r ↦ event-RefusesCleanly entry event l free e l' r
        | inr (_, _, done) ↦ cc (ap (λ r. r.0) done)
      ]
