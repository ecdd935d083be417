-- ===== src/Paper/Storage.antt =====
-- Storing the entries of the paper ledger one by one, and restarting from what was stored
-- (crates/pmkit-paper/src/ledger.rs, `pending_entry`, `acknowledge_pending` and `reconstruct`).
use pmkit.Base.Replies.{err, ok}
use pmkit.Decimals.{Decimals}
use pmkit.Paper.Orders.{acknowledge_pending, pending_entry}
use pmkit.Domain.{Money}
use pmkit.Paper.Ledger.{new, append, next_entry}
use pmkit.Paper.Blind.{apply_log}
use pmkit.Paper.Reconstruct.{
  is_unanswered, is_immediate, cash_of, check_complete, returned, reconstruct,
}
use pmkit.Paper.Events.{inconsistent, Placement, PaperLedger, PaperLedgerEvent, PaperLedgerEntry}
use pmkit.Base.{
  find_sound, none, find, arith, text_key, ◌==◌, ℤ, ◌∙◌, refl, ◌∷◌, ◌≡◌, sym, [], String, ap, true,
  some, ◌++◌, List,
}
use pmkit.Paper.History.{reconstruct-History, drained, History, append-eq-ok}
use mathlib.Core.List.{append_assoc, append-nil}

module _ ⦃D : Decimals⦄ where
  open D use {Decimal}

  -- A run and the entries that its storage holds: the first pending entry is stored and then
  -- acknowledged by its identity.
  pub data Stored : List PaperLedgerEntry → PaperLedger → Type 0 where
    funded : (cash : Money) (id_prefix : String) → Stored [] (new cash id_prefix)
    appended :
        (timestamp_ms : ℤ) (event : PaperLedgerEvent) (es : List PaperLedgerEntry) (l : PaperLedger)
        {l' : PaperLedger}
        → Stored es l
        → cash_of event ≡ []
        → append timestamp_ms event l ≡ (ok tt, l')
        → Stored es l'
    acknowledged :
        (entry : PaperLedgerEntry) (es : List PaperLedgerEntry) (l : PaperLedger) {l' : PaperLedger}
        → Stored es l
        → pending_entry l ≡ some entry
        → acknowledge_pending entry.event_id l ≡ (true, l')
        → Stored (es ++ entry ∷ []) l'

  -- The pending entries are the first one and the rest, and the first is the one that goes.
  acknowledged_lem :
      (entry : PaperLedgerEntry) (l l' : PaperLedger)
      → pending_entry l ≡ some entry
      → acknowledge_pending entry.event_id l ≡ (true, l')
      → (rest : List PaperLedgerEntry) × (l.pending ≡ entry ∷ rest)
        × (l' ≡ record l { pending = rest })
  unfolding pending_entry acknowledge_pending
  acknowledged_lem entry l l' first taken = by_pending l.pending refl
    where
      by_pending :
          (ps : List PaperLedgerEntry)
          → l.pending ≡ ps
          → (rest : List PaperLedgerEntry) × (l.pending ≡ entry ∷ rest)
            × (l' ≡ record l { pending = rest })
      by_pending [] eq = cc (rw eq at first)
      by_pending (p ∷ ps) eq =
          let same : p ≡ entry = cc (rw eq at first) in
          let hit : (p.event_id == entry.event_id) ≡ true =
            (text_key.matches_iff p.event_id entry.event_id).1 (ap (λ x. x.event_id) same) in
          (ps, rw (eq, same) refl, ap (λ r. r.1) (sym (rw (eq, hit) at taken)))

  pub Stored-History : {es : List PaperLedgerEntry} {l : PaperLedger} → Stored es l → History l
  Stored-History (funded cash id_prefix) = History.funded cash id_prefix
  Stored-History (appended t event es l s c r) = History.appended t event l (Stored-History s) c r
  Stored-History (acknowledged entry es l {l'} s first taken) =
      let (rest, _, after) = acknowledged_lem entry l l' first taken in
      rw after (drained rest l (Stored-History s))

  -- No entry is lost and none is stored twice: what is stored, followed by what is pending, is the
  -- list of entries.
  pub stored_entries :
      {es : List PaperLedgerEntry} {l : PaperLedger} → Stored es l → es ++ l.pending ≡ l.entries
  unfolding new
  stored_entries (funded cash id_prefix) = refl
  stored_entries (appended t event es l {l'} s c r) =
      let (m, applied, same) = append-eq-ok t event l l' r in
      let (entries_kept, pending_kept, _) = apply_log (next_entry t event l) l in
      rw
        (
          same,
          ap (λ r. r.1.entries) (sym applied) ∙ entries_kept,
          ap (λ r. r.1.pending) (sym applied) ∙ pending_kept,
          sym (append_assoc es l.pending (next_entry t event l ∷ [])),
          stored_entries s,
        )
        refl
  stored_entries (acknowledged entry es l {l'} s first taken) =
      let (rest, was, after) = acknowledged_lem entry l l' first taken in
      rw (after, append_assoc es (entry ∷ []) rest)
        (ap (λ ps. es ++ ps) (sym was) ∙ stored_entries s)

  -- Restarting from the storage when nothing is pending gives the ledger itself, unless one of the
  -- two completeness checks refuses it.
  pub reconstruct-Stored :
      {es : List PaperLedgerEntry} {l : PaperLedger}
      → Stored es l
      → l.pending ≡ []
      → reconstruct es l.id_prefix ≡ returned (check_complete l)
  reconstruct-Stored {es} {l} s flushed =
      let all : es ≡ l.entries =
        sym (append-nil es) ∙ ap (λ ps. es ++ ps) (sym flushed) ∙ stored_entries s in
      rw all (
        reconstruct-History (Stored-History s)
        ∙ ap (λ ps. returned (check_complete (record l { pending = ps }))) (sym flushed))

  -- A ledger that accepted appends have led to, with nothing pending, in which every placement is
  -- answered and no immediate order is open, is exactly what a restart from its storage gives.
  pub reconstruct_complete :
      {es : List PaperLedgerEntry} {l : PaperLedger}
      → Stored es l
      → l.pending ≡ []
      → find is_unanswered l.placements ≡ none
      → find is_immediate l.orders ≡ none
      → reconstruct es l.id_prefix ≡ ok l
  unfolding check_complete
  reconstruct_complete {es} {l} s flushed answered_all none_open =
      reconstruct-Stored s flushed ∙ rw (answered_all, none_open) refl

  -- A ledger that accepted appends have led to, with nothing pending and a placement without an
  -- answer cannot be restarted: the error names a placement that is not answered.
  pub reconstruct-unanswered :
      {es : List PaperLedgerEntry} {l : PaperLedger} (id : String) (placement : Placement)
      → Stored es l
      → l.pending ≡ []
      → find is_unanswered l.placements ≡ some (id, placement)
      → (reconstruct es l.id_prefix
          ≡ err (inconsistent id "order placement has no acknowledgement or rejection"))
        × (placement.terminal ≡ none)
  unfolding check_complete
  reconstruct-unanswered {es} {l} id placement s flushed open_one = (
    reconstruct-Stored s flushed ∙ rw open_one refl,
    unanswered placement (find_sound is_unanswered l.placements (id, placement) open_one),
  )
    where
      unanswered : (p : Placement) → is_unanswered (id, p) ≡ true → p.terminal ≡ none
      unanswered p h = ground arith
