-- ===== src/Paper/Runs.antt =====
-- Runs of the paper ledger (crates/pmkit-paper/src/ledger.rs) in which some appends are refused.
use pmkit.Paper.Charges.{History-recorded_fees, recorded_fees}
use pmkit.Paper.Reconstruct.{reconstruct, check_complete, returned, cash_of}
use pmkit.Base.Dict.{insert, remove, get}
use pmkit.Decimals.{Decimals}
use pmkit.Accounting.{Settlement, settle, LedgerFill, Action}
use pmkit.Accounting.Positions.{IsValid, held}
use pmkit.Accounting.Fees.{IsBlindToFees, settle-IsBlindToFees, apply_fill-IsBlindToFees}
use pmkit.Domain.{Money, side_key, outcome_key, Outcome, Side}
use pmkit.Base.{
  [], sym, List, ◌==◌, Bool, inr, inl, Bool-cases, not, ◌+◌, ◌||◌, Option-cases, if◌then◌else◌,
  text_key, ℤ, ◌∙◌, some, Option, ◌≡◌, ap, refl, none, arith, String,
}
use pmkit.Paper.Events.{
  TrackedOrder, settlement, OrderState, order_placed, fill, order_rejected, PaperLedgerEvent,
  PaperLedger, PaperLedgerError, order_cancelled, order_ack, PaperLedgerEntry, RecordedOrder,
  accounting, cash_movement,
}
use pmkit.Paper.Ledger.{
  new, reduced, is_partial, on_account, next_entry, recorded, apply_event, apply, apply_fill,
  apply_rejection, apply_ack, apply_settlement, LedgerAction, apply_placement, apply_cancel, append,
}
use mathlib.Core.Path.{subst}
use pmkit.Paper.Soundness.{History-IsValid}
use pmkit.Paper.Refusals.{append-refused}
use pmkit.Paper.History.{reconstruct-History, History}
use pmkit.Accounting
use pmkit.Accounting.Refusals.{with_fees}
use pmkit.Base.Replies.{ok, or_raise, Reply, map_err, panic, err, modify, ◌>>=◌, ◌>>◌, next}

module _ ⦃D : Decimals⦄ where
  open D use {Decimal}

  abbrev pub charged_with : Decimal → PaperLedger → PaperLedger
  charged_with fees l = record l { account = with_fees fees l.account }

  -- `m` does the same whatever fees the account was charged, but for the fees themselves.
  abbrev IsBlind : {A : Type 0} → LedgerAction A → Type 0
  IsBlind m =
      (fees : Decimal) (l : PaperLedger)
      → (after : Decimal) × (m (charged_with fees l) ≡ ((m l).0, charged_with after (m l).1))

  next-IsBlind :
      {A B : Type 0} (m : LedgerAction A) (k : A → LedgerAction B)
      → IsBlind m
      → ((a : A) → IsBlind (k a))
      → IsBlind (m >>= k)
  next-IsBlind {A} {B} m k bm bk fees l =
      let (middle, first) = bm fees l in
      let (last, second) = rest middle (m l) in (last, ap (λ r. next r.0 k r.1) first ∙ second)
    where
      rest :
          (middle : Decimal) (r : Reply PaperLedgerError A × PaperLedger)
          → (after : Decimal) × (next r.0 k (charged_with middle r.1)
              ≡ ((next r.0 k r.1).0, charged_with after (next r.0 k r.1).1))
      rest middle (ok a, l1) = bk a middle l1
      rest middle (err e, l1) = (middle, refl)
      rest middle (panic, l1) = (middle, refl)

  then-IsBlind :
      {B : Type 0} (m : LedgerAction (Unit {0})) (k : LedgerAction B)
      → IsBlind m
      → IsBlind k
      → IsBlind (m >> k)
  then-IsBlind m k bm bk = next-IsBlind m (λ _. k) bm (λ _. bk)

  or_raise-IsBlind :
      {A : Type 0} (found : Option A) (e : PaperLedgerError) → IsBlind (or_raise found e)
  or_raise-IsBlind none e fees l = (fees, refl)
  or_raise-IsBlind (some a) e fees l = (fees, refl)

  on_account-IsBlind : (m : Action (Unit {0})) → IsBlindToFees m → IsBlind (on_account m)
  on_account-IsBlind m b fees l =
      let (after, same) = b fees l.account in
      (after, ap (λ r. (map_err accounting r.0, record l { account = r.1 })) same)

  placement-IsBlind :
      (e : PaperLedgerEntry) (order : RecordedOrder) → IsBlind (apply_placement e order)
  unfolding apply_placement
  placement-IsBlind e order fees l = (fees, ground arith)

  ack-IsBlind :
      (e : PaperLedgerEntry) (p o : String) (s : OrderState) (t : ℤ) → IsBlind (apply_ack e p o s t)
  unfolding apply_ack
  ack-IsBlind e p o s t fees l = (fees, ground arith)

  rejection-IsBlind : (e : PaperLedgerEntry) (p o : String) → IsBlind (apply_rejection e p o)
  unfolding apply_rejection
  rejection-IsBlind e p o fees l = (fees, ground arith)

  cancel-IsBlind : (e : PaperLedgerEntry) (o : String) → IsBlind (apply_cancel e o)
  unfolding apply_cancel
  cancel-IsBlind e o fees l = (fees, ground arith)

  fill-IsBlind :
      (e : PaperLedgerEntry) (id market : String) (o : Outcome) (price size : Decimal) (s : Side)
      (fee : Decimal)
      → IsBlind (apply_fill e id market o price size s fee)
  unfolding apply_fill
  fill-IsBlind e id market o price size s fee fees l = elim (Option-cases (get id l.orders)) [
    | inl n ↦ (fees, rw n refl)
    | inr (tracked, n) ↦ elim (Bool-cases (mismatch tracked)) [
      | inl b ↦ (fees, rw (n, b) refl)
      | inr b ↦
          let (after, same) =
            then-IsBlind (on_account (Accounting.apply_fill paid)) (closing tracked)
              (on_account-IsBlind (Accounting.apply_fill paid) (apply_fill-IsBlindToFees paid))
              (λ fees l. (fees, refl)) fees l in
          (after, rw (n, b) same)
    ]
  ]
    where
      mismatch : TrackedOrder → Bool
      mismatch tracked =
          not (tracked.order.market == market)
          || not (tracked.order.outcome == o)
          || not (tracked.order.side == s)
          || D.less tracked.order.qty size

      paid : LedgerFill
      paid = record {
        market = market;
        outcome = o;
        side = s;
        price = price;
        quantity = size;
        fee = fee;
      }

      closing : TrackedOrder → LedgerAction (Unit {0})
      closing tracked = do
        modify (λ l. record l {
          orders =
              if is_partial size tracked
              then insert id (reduced size tracked) l.orders
              else remove id l.orders;
        })
        modify (λ l. record l { fill_count = l.fill_count + 1 })

  settlement-IsBlind :
      (e : PaperLedgerEntry) (market : String) (o : Outcome) (size proceeds : Decimal)
      → IsBlind (apply_settlement e market o size proceeds)
  unfolding apply_settlement
  settlement-IsBlind e market o size proceeds fees l =
      elim (Bool-cases (mismatch (held market o l.account.positions))) [
        | inl b ↦ (fees, rw b refl)
        | inr b ↦
            let (after, same) =
              on_account-IsBlind (Accounting.settle payout) (settle-IsBlindToFees payout) fees l in
            (after, rw b same)
      ]
    where
      mismatch : Decimal → Bool
      mismatch quantity =
          D.at_most size D.dec_zero || D.is_sign_negative proceeds || not (D.same quantity size)

      payout : Settlement
      payout = record { market = market; outcome = o; payout_per_share = D.div proceeds size }

  event-IsBlind : (e : PaperLedgerEntry) (event : PaperLedgerEvent) → IsBlind (apply_event e event)
  unfolding apply_event
  event-IsBlind e (cash_movement amount) = λ fees l. (fees, refl)
  event-IsBlind e (order_placed order) = placement-IsBlind e order
  event-IsBlind e (order_ack p o s t) = ack-IsBlind e p o s t
  event-IsBlind e (order_rejected p o) = rejection-IsBlind e p o
  event-IsBlind e (order_cancelled o) = cancel-IsBlind e o
  event-IsBlind e (fill id market o price size s fee) = fill-IsBlind e id market o price size s fee
  event-IsBlind e (settlement market o size proceeds) = settlement-IsBlind e market o size proceeds

  append-IsBlind : (t : ℤ) (event : PaperLedgerEvent) → IsBlind (append t event)
  unfolding append apply
  append-IsBlind t event fees l =
      then-IsBlind (apply_event (next_entry t event l) event)
        (modify (recorded (next_entry t event l))) (event-IsBlind (next_entry t event l) event)
        (λ fees l. (fees, refl)) fees l

  -- The ledgers of a run in which appends may be refused, whose errors the caller sees and goes on.
  pub data Run : PaperLedger → Type 0 where
    funded : (cash : Money) (id_prefix : String) → Run (new cash id_prefix)
    appended :
        (timestamp_ms : ℤ) (event : PaperLedgerEvent) (l : PaperLedger) {l' : PaperLedger}
        → Run l
        → cash_of event ≡ []
        → append timestamp_ms event l ≡ (ok tt, l')
        → Run l'
    refused :
        (timestamp_ms : ℤ) (event : PaperLedgerEvent) (e : PaperLedgerError) (l : PaperLedger)
        {l' : PaperLedger}
        → Run l
        → append timestamp_ms event l ≡ (err e, l')
        → Run l'
    drained :
        (rest : List PaperLedgerEntry) (l : PaperLedger) → Run l → Run (record l { pending = rest })

  -- Without the refused appends the run comes to the same ledger, but for the fees.
  abbrev pub Accepted : PaperLedger → Type 0
  Accepted l = (m : PaperLedger) × (fees : Decimal) × History m × (l ≡ charged_with fees m)

  step :
      {A : Type 0} (m : LedgerAction A) (fees : Decimal) (l l' : PaperLedger)
      (r : Reply PaperLedgerError A)
      → IsBlind m
      → m (charged_with fees l) ≡ (r, l')
      → ((m l).0 ≡ r) × ((after : Decimal) × (l' ≡ charged_with after (m l).1))
  step m fees l l' r b h =
      let (after, same) = b fees l in
      (ap (λ q. q.0) (sym same ∙ h), (after, ap (λ q. q.1) (sym h ∙ same)))

  abbrev emptied : List PaperLedgerEntry → PaperLedger → PaperLedger
  emptied rest l = record l { pending = rest }

  pub Run-Accepted : {l : PaperLedger} → Run l → Accepted l
  Run-Accepted (funded cash id_prefix) =
      (new cash id_prefix, (new cash id_prefix).account.fees, History.funded cash id_prefix, refl)
  Run-Accepted (appended t event l {l'} run c ran) =
      let (m, fees, h, same) = Run-Accepted run in
      let (went, (after, so)) =
        step (append t event) fees m l' (ok tt) (append-IsBlind t event)
          (ap (append t event) (sym same) ∙ ran) in
      (
        (append t event m).1,
        after,
        History.appended t event m h c (ap (λ r. (r, (append t event m).1)) went),
        so,
      )
  Run-Accepted (refused t event e l {l'} run ran) =
      let (m, fees, h, same) = Run-Accepted run in
      let (went, (after, so)) =
        step (append t event) fees m l' (err e) (append-IsBlind t event)
          (ap (append t event) (sym same) ∙ ran) in
      let kept =
        append-refused t event e (append t event m).1 h
          (ap (λ r. (r, (append t event m).1)) went) in
      (m, after, h, so ∙ ap (charged_with after) kept)
  Run-Accepted (drained rest l run) =
      let (m, fees, h, same) = Run-Accepted run in
      (
        record m { pending = rest },
        fees,
        History.drained rest m h,
        ap (λ (x : PaperLedger). emptied rest x) same,
      )

  -- Whatever appends were accepted or refused, reconstruction from the entries of a ledger gives
  -- that ledger with no pending entries and with the fees of its entries in place of those it has
  -- charged, unless one of the two completeness checks refuses that ledger.
  pub reconstruct-Run :
      {l : PaperLedger}
      → Run l
      → reconstruct l.entries l.id_prefix
        ≡ returned
            (check_complete (charged_with (recorded_fees l.entries) (record l { pending = [] })))
  reconstruct-Run {l} run =
      let (m, fees, h, same) = Run-Accepted run in
      subst
        (λ x.
          reconstruct x.entries x.id_prefix
          ≡ returned
              (check_complete (charged_with (recorded_fees x.entries) (record x { pending = [] }))))
        (sym same)
        (reconstruct-History h
          ∙ ap (λ f. returned (check_complete (charged_with f (record m { pending = [] }))))
              (History-recorded_fees h))

  -- In every ledger of a run, whatever appends were accepted or refused, the account has one
  -- position for a market and outcome, and quantities and average prices that are not negative.
  pub Run-IsValid : {l : PaperLedger} → Run l → IsValid l.account.positions
  Run-IsValid run = let (m, fees, h, same) = Run-Accepted run in rw same (History-IsValid h)
