-- ===== src/Paper/Soundness.antt =====
-- The positions of the account in the paper ledger (crates/pmkit-paper/src/ledger.rs over
-- crates/pmkit-accounting/src/lib.rs).
use pmkit.Decimals.{Decimals}
use pmkit.Accounting.{PortfolioLedger, AccountingError, new_ledger}
use pmkit.Base.Replies.{err, ok, panic, Reply}
use pmkit.Accounting.Positions.{IsValid}
use pmkit.Base.{ap, ◌≡◌}
use pmkit.Paper.Events.{
  order_cancelled, order_placed, fill, settlement, order_ack, PaperLedgerEvent, cash_movement,
  PaperLedger, order_rejected,
}
use pmkit.Paper.History.{drained, History, append-eq-ok, funded, appended}
use pmkit.Paper.Accepted.{account_action, event-Does}
use pmkit.Paper.Ledger.{new, next_entry, empty, apply}
use pmkit.Accounting.Fills.{apply_fill-IsValid, settle-IsValid, KeepsValid}

module _ ⦃D : Decimals⦄ where
  valid_after :
      (r : Reply AccountingError (Unit {0}) × PortfolioLedger) (a' : PortfolioLedger)
      → KeepsValid r
      → r ≡ (ok tt, a')
      → IsValid a'.positions
  valid_after (ok tt, a) a' v h = rw (← ap (λ q. q.1) h) v
  valid_after (err e, a) a' v h = cc (ap (λ q. q.0) h)
  valid_after (panic, a) a' v h = cc (ap (λ q. q.0) h)

  action-IsValid :
      (event : PaperLedgerEvent) (a : PortfolioLedger)
      → IsValid a.positions
      → KeepsValid (account_action event a)
  action-IsValid (cash_movement amount) a v = v
  action-IsValid (order_placed order) a v = v
  action-IsValid (order_ack p o s t) a v = v
  action-IsValid (order_rejected p o) a v = v
  action-IsValid (order_cancelled o) a v = v
  action-IsValid (fill id market o price size s fee) a v = apply_fill-IsValid _ a v
  action-IsValid (settlement market o size proceeds) a v = settle-IsValid _ a v

  -- In every ledger that accepted appends have led to, the account has one position for a market
  -- and outcome, and quantities and average prices that are not negative.
  pub History-IsValid : {l : PaperLedger} → History l → IsValid l.account.positions
  unfolding new new_ledger empty apply
  History-IsValid (funded cash id_prefix) = tt
  History-IsValid (appended t event l h c r) =
      let (m, applied, same) = append-eq-ok t event l _ r in
      rw same (
        valid_after (account_action event l.account) m.account
          (action-IsValid event l.account (History-IsValid h))
          (event-Does (next_entry t event l) event l m applied))
  History-IsValid (drained rest l h) = History-IsValid h
