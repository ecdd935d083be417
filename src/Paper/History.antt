-- ===== src/Paper/History.antt =====
-- Restart safety of the paper ledger (crates/pmkit-paper/src/ledger.rs): the ledgers that
-- accepted appends lead to, and what `reconstruct` makes of their entries.
use pmkit.Paper.Prefix.{apply_names}
use pmkit.Domain.{Money}
use pmkit.Paper.Blind.{apply_log, apply-IsBlind, with_log}
use pmkit.Accounting.{sum, sum_from, new_ledger}
use pmkit.Paper.Ledger.{event_id_text, new, empty, append, apply, recorded, apply_event, next_entry}
use pmkit.Paper.Replay.{
  cash_movements-append, replay-append, IsNumbered-append, deduplicate-IsNumbered, IsNumbered,
}
use pmkit.Base.Replies.{◌>>◌, next-eq-ok, ok, modify}
use pmkit.Paper.Reconstruct.{
  reconstruct_unique, returned, check_complete, reconstruct, initial, replay, cash_movements,
  cash_of, replay_entry,
}
use pmkit.Paper.Events.{PaperLedger, PaperLedgerEvent, PaperLedgerEntry}
use pmkit.Base.{
  ◌++◌, arith, length-append, ◌∙◌, nat_beq_iff, ◌∷◌, ℕ, ℤ, length, ap, ◌+◌, String, [], sym, ◌≡◌,
  refl, List,
}
use pmkit.Decimals.{zero_add, Decimals}

module _ ⦃D : Decimals⦄ where
  open D use {Decimal, dec_zero, add, less}

  -- The ledgers that accepted appends lead to: a new one, one more entry that was accepted (every
  -- public method that changes the account appends one), and pending entries taken out for storage.
  pub data History : PaperLedger → Type 0 where
    funded : (cash : Money) (id_prefix : String) → History (new cash id_prefix)
    appended :
        (timestamp_ms : ℤ) (event : PaperLedgerEvent) (l : PaperLedger) {l' : PaperLedger}
        → History l
        → cash_of event ≡ []
        → append timestamp_ms event l ≡ (ok tt, l')
        → History l'
    drained :
        (rest : List PaperLedgerEntry) (l : PaperLedger)
        → History l
        → History (record l { pending = rest })

  pub append-eq-ok :
      (t : ℤ) (event : PaperLedgerEvent) (l l' : PaperLedger)
      → append t event l ≡ (ok tt, l')
      → (m : PaperLedger) × (apply (next_entry t event l) l ≡ (ok tt, m))
        × (l' ≡ recorded (next_entry t event l) m)
  unfolding append
  append-eq-ok t event l l' h =
      let entry = next_entry t event l in
      let (m, applied, rest) = next-eq-ok (apply entry l) (λ _. modify (recorded entry)) tt l' h in
      (m, applied, ap (λ r. r.1) (sym rest))

  -- What holds of every such ledger: its entries are numbered from 0, and replaying them gives
  -- its state.
  pub record IsReplayable (l : PaperLedger) : Type 0 where
    pub numbered : IsNumbered 0 l.entries
    pub counted : length l.entries ≡ l.next_sequence
    pub replayed :
        replay l.entries (initial l.entries l.id_prefix) ≡ (ok tt, with_log [] [] l.next_sequence l)

  funded-IsReplayable : (cash : Money) (id_prefix : String) → IsReplayable (new cash id_prefix)
  unfolding new replay replay_entry apply apply_event cash_movements new_ledger empty sum sum_from
  funded-IsReplayable cash id_prefix = record {
    numbered = (refl, refl, tt);
    counted = refl;
    replayed = rw (zero_add cash);
  }

  -- One round of the replay does what `append` did.
  replay_entry-recorded :
      (e : PaperLedgerEntry) (l m : PaperLedger)
      → e.sequence ≡ l.next_sequence
      → apply e l ≡ (ok tt, m)
      → replay_entry e (with_log [] [] l.next_sequence l)
        ≡ (ok tt, with_log [] [] (l.next_sequence + 1) m)
  unfolding replay_entry
  replay_entry-recorded e l m s h =
      rw ((nat_beq_iff e.sequence l.next_sequence).1 s, apply-IsBlind e [] [] l.next_sequence l, h)

  appended-IsReplayable :
      (t : ℤ) (event : PaperLedgerEvent) (l l' : PaperLedger)
      → IsReplayable l
      → cash_of event ≡ []
      → append t event l ≡ (ok tt, l')
      → IsReplayable l'
  appended-IsReplayable t event l l' r c h =
      let (m, applied, same) = append-eq-ok t event l l' h in
      rw same (recorded-IsReplayable m applied)
    where
      start : List Decimal → PaperLedger
      start cash = record (empty (new_ledger (sum cash)) l.id_prefix) {
        cash_funded = less dec_zero (sum cash);
      }

      recorded-IsReplayable :
          (m : PaperLedger)
          → apply (next_entry t event l) l ≡ (ok tt, m)
          → IsReplayable (recorded (next_entry t event l) m)
      recorded-IsReplayable m applied =
          let e = next_entry t event l in
          let (entries_kept, _, number_kept) = apply_log e l in
          let entries_same : m.entries ≡ l.entries =
            ap (λ r. r.1.entries) (sym applied) ∙ entries_kept in
          let number_same : m.next_sequence ≡ l.next_sequence =
            ap (λ r. r.1.next_sequence) (sym applied) ∙ number_kept in
          let names_same : m.id_prefix ≡ l.id_prefix =
            ap (λ r. r.1.id_prefix) (sym applied) ∙ apply_names e l in
          record {
            numbered = rw entries_same (
                IsNumbered-append 0 l.entries e r.numbered
                  (ap event_id_text (omega (arith, r.counted))) (omega (arith, r.counted)));
            counted =
                rw (entries_same, number_same)
                  (omega (arith, length-append {0} l.entries (e ∷ []), r.counted));
            replayed =
                ap (λ es. replay (es ++ e ∷ []) (initial (es ++ e ∷ []) m.id_prefix)) entries_same
                ∙ ap (λ p. replay (l.entries ++ e ∷ []) (initial (l.entries ++ e ∷ []) p))
                    names_same
                ∙ ap (λ c. replay (l.entries ++ e ∷ []) (start c))
                    (cash_movements-append l.entries e c)
                ∙ replay-append l.entries e _ _ _ r.replayed
                    (replay_entry-recorded e l m refl applied)
                ∙ ap (λ (n : ℕ). (ok tt, with_log [] [] (n + 1) m)) (sym number_same);
          }

  pub History-IsReplayable : {l : PaperLedger} → History l → IsReplayable l
  History-IsReplayable (funded cash id_prefix) = funded-IsReplayable cash id_prefix
  History-IsReplayable (appended t event l {l'} h c r) =
      appended-IsReplayable t event l l' (History-IsReplayable h) c r
  History-IsReplayable (drained rest l h) =
      let r = History-IsReplayable h in
      record { numbered = r.numbered; counted = r.counted; replayed = r.replayed }

  -- The two checks read nothing of the log.
  check_complete-with_log :
      (es : List PaperLedgerEntry) (n : ℕ) (l : PaperLedger)
      → returned ((check_complete >> modify (λ l. record l { entries = es })) (with_log [] [] n l))
        ≡ returned (check_complete (with_log es [] n l))
  unfolding check_complete
  check_complete-with_log es n l = ground arith

  -- What is in memory is what a restart builds from the entries, up to the entries not yet stored:
  -- `reconstruct` on the entries of a ledger that accepted appends have led to gives that ledger
  -- with no pending entries, unless one of the two completeness checks refuses that ledger.
  pub reconstruct-History :
      {l : PaperLedger}
      → History l
      → reconstruct l.entries l.id_prefix ≡ returned (check_complete (record l { pending = [] }))
  unfolding reconstruct
  reconstruct-History {l} h =
      let r = History-IsReplayable h in
      rw (deduplicate-IsNumbered l.entries r.numbered, reconstruct_unique, r.replayed)
        (check_complete-with_log l.entries l.next_sequence l)
