-- ===== src/Paper/Charges.antt =====
-- The fees that a paper ledger has charged and those of its entries
-- (crates/pmkit-paper/src/ledger.rs).
use pmkit.Accounting.{PortfolioLedger, new_ledger}
use pmkit.Base.Replies.{ok}
use pmkit.Decimals.{add_zero, Decimals, dec_laws}
use pmkit.Paper.Events.{
  PaperLedgerEvent, PaperLedger, order_cancelled, order_ack, order_rejected, cash_movement, fill,
  settlement, order_placed, PaperLedgerEntry,
}
use pmkit.Base.{sym, ◌≡◌, ◌∷◌, ◌++◌, refl, ap, ◌∙◌, List, []}
use pmkit.Accounting.Fees.{apply_fill_fees, settle_fees}
use pmkit.Paper.Accepted.{account_action, event-Does}
use pmkit.Paper.Ledger.{new, next_entry, empty, apply}
use pmkit.Paper.History.{appended, drained, funded, History, append-eq-ok}
use pmkit.Paper.Blind.{apply_log}

module _ ⦃D : Decimals⦄ where
  open D use {Decimal, dec_zero, add}

  -- The fee that an entry of this kind charges.
  abbrev pub event_fee : PaperLedgerEvent → Decimal
  event_fee (cash_movement amount) = dec_zero
  event_fee (order_placed order) = dec_zero
  event_fee (order_ack p o s t) = dec_zero
  event_fee (order_rejected p o) = dec_zero
  event_fee (order_cancelled o) = dec_zero
  event_fee (fill id market o price size s fee) = fee
  event_fee (settlement market o size proceeds) = dec_zero

  abbrev pub recorded_fees : List PaperLedgerEntry → Decimal
  recorded_fees [] = dec_zero
  recorded_fees (e ∷ es) = add (event_fee e.event) (recorded_fees es)

  recorded_fees-append :
      (es : List PaperLedgerEntry) (e : PaperLedgerEntry)
      → recorded_fees (es ++ e ∷ []) ≡ add (recorded_fees es) (event_fee e.event)
  recorded_fees-append [] e = omega dec_laws
  recorded_fees-append (x ∷ es) e = omega (dec_laws, recorded_fees-append es e)

  no_fee :
      {fees : Decimal} (a a' : PortfolioLedger)
      → a.fees ≡ fees
      → a ≡ a'
      → a'.fees ≡ add fees dec_zero
  no_fee {fees} a a' h same =
      ap (λ (x : PortfolioLedger). x.fees) (sym same) ∙ h ∙ sym (add_zero fees)

  action_fees :
      (event : PaperLedgerEvent) (a a' : PortfolioLedger)
      → account_action event a ≡ (ok tt, a')
      → a'.fees ≡ add a.fees (event_fee event)
  action_fees (cash_movement amount) a a' h = no_fee a a' refl (ap (λ r. r.1) h)
  action_fees (order_placed order) a a' h = no_fee a a' refl (ap (λ r. r.1) h)
  action_fees (order_ack p o s t) a a' h = no_fee a a' refl (ap (λ r. r.1) h)
  action_fees (order_rejected p o) a a' h = no_fee a a' refl (ap (λ r. r.1) h)
  action_fees (order_cancelled o) a a' h = no_fee a a' refl (ap (λ r. r.1) h)
  action_fees (fill id market o price size s fee) a a' h =
      ap (λ r. r.1.fees) (sym h) ∙ apply_fill_fees _ a (ap (λ r. r.0) h)
  action_fees (settlement market o size proceeds) a a' h =
      no_fee _ a' (settle_fees _ a) (ap (λ r. r.1) h)

  -- In a ledger that accepted appends have led to, the fees of the account are those of its entries.
  pub History-recorded_fees :
      {l : PaperLedger} → History l → l.account.fees ≡ recorded_fees l.entries
  unfolding new new_ledger empty apply
  History-recorded_fees (funded cash id_prefix) = sym (add_zero dec_zero)
  History-recorded_fees (appended t event l h c r) =
      let e = next_entry t event l in
      let (m, applied, same) = append-eq-ok t event l _ r in
      let (kept, _, _) = apply_log e l in
      let entries_same : m.entries ≡ l.entries = ap (λ r. r.1.entries) (sym applied) ∙ kept in
      rw same (
        action_fees event l.account m.account (event-Does e event l m applied)
        ∙ ap (λ x. add x (event_fee event)) (History-recorded_fees h)
        ∙ sym (recorded_fees-append l.entries e)
        ∙ ap (λ es. recorded_fees (es ++ e ∷ [])) (sym entries_same))
  History-recorded_fees (drained rest l h) = History-recorded_fees h
