-- ===== src/Paper/Replay.antt =====
-- Numbered entries, and the loops of `reconstruct` on them (crates/pmkit-paper/src/ledger.rs).
use pmkit.Paper.Events.{PaperLedgerEntry, PaperLedger}
use pmkit.Paper.Ledger.{event_id_text}
use pmkit.Base.{
  false, List, ◌++◌, inl, ◌≡◌, ◌∷◌, arith, ◌≤◌, inr, ap, ◌∙◌, ◌==◌, String, sym, ℕ, length,
  show_injective, ◌+◌, ◌≢◌, show, [], text_key, none, join_cancel, Bool-cases, refl,
}
use pmkit.Base.Replies.{ok, next-eq-ok}
use pmkit.Paper.Reconstruct.{
  deduplicate, cash_movements, deduplicate_from, replay_entry, replay, cash_of,
}
use native.Mathlib.Nat.{add-zero}
use mathlib.Core.List.{append-nil, append_assoc}
use pmkit.Decimals.{Decimals}
use pmkit.Base.Dict.{Dict, get, insert, get-insert}

pub event_id_text_injective : (m n : ℕ) → event_id_text m ≡ event_id_text n → m ≡ n
unfolding event_id_text
event_id_text_injective m n h = show_injective m n (join_cancel "paper-ledger-" (show m) (show n) h)

pub other_id : (m n : ℕ) → m ≢ n → (event_id_text m == event_id_text n) ≡ false
other_id m n ne = elim (Bool-cases (event_id_text m == event_id_text n)) [
  | inl e ↦ absurd (ne (event_id_text_injective m n ((text_key.matches_iff _ _).0 e)))
  | inr e ↦ e
]

module _ ⦃D : Decimals⦄ where
  open D use {Decimal, dec_zero, add, less}

  -- The entries carry the numbers from `k` on, as sequence and in the identity.
  abbrev pub IsNumbered : ℕ → List PaperLedgerEntry → Type 0
  IsNumbered k [] = Unit
  IsNumbered k (e ∷ es) = (e.event_id ≡ event_id_text k) × (e.sequence ≡ k) × IsNumbered (k + 1) es

  pub IsNumbered-append :
      (k : ℕ) (es : List PaperLedgerEntry) (e : PaperLedgerEntry)
      → IsNumbered k es
      → e.event_id ≡ event_id_text (k + length es)
      → e.sequence ≡ k + length es
      → IsNumbered k (es ++ e ∷ [])
  IsNumbered-append k [] e h i s = (rw (i, add-zero k), rw (s, add-zero k), tt)
  IsNumbered-append k (x ∷ es) e (hi, hs, h) i s =
      (hi, hs, IsNumbered-append (k + 1) es e h (i ∙ ap event_id_text (omega arith)) (omega arith))

  -- Numbered entries have different identities, so none is dropped and none is in conflict.
  deduplicate_from-IsNumbered :
      (k : ℕ) (seen : Dict String PaperLedgerEntry) (unique es : List PaperLedgerEntry)
      → IsNumbered k es
      → ((j : ℕ) → k ≤ j → get (event_id_text j) seen ≡ none)
      → deduplicate_from seen unique es ≡ ok (unique ++ es)
  unfolding deduplicate_from
  deduplicate_from-IsNumbered k seen unique [] h fresh = ap ok (sym (append-nil unique))
  deduplicate_from-IsNumbered k seen unique (e ∷ es) (hi, hs, h) fresh =
      let unseen : get e.event_id seen ≡ none = rw hi (fresh k (omega arith)) in
      rw (unseen, deduplicate_from)
        (deduplicate_from-IsNumbered (k + 1) (insert e.event_id e seen) (unique ++ e ∷ []) es h
            (λ j le.
              rw (get-insert e.event_id (event_id_text j) e seen, hi, other_id k j (omega arith))
                (fresh j (omega arith)))
          ∙ ap ok (append_assoc unique (e ∷ []) es))

  pub deduplicate-IsNumbered :
      (es : List PaperLedgerEntry) → IsNumbered 0 es → deduplicate es ≡ ok es
  unfolding deduplicate
  deduplicate-IsNumbered es h =
      deduplicate_from-IsNumbered 0 [] [] es h (λ j le. unfold get in refl)

  pub cash_movements-append :
      (es : List PaperLedgerEntry) (e : PaperLedgerEntry)
      → cash_of e.event ≡ []
      → cash_movements (es ++ e ∷ []) ≡ cash_movements es
  unfolding cash_movements
  cash_movements-append [] e h = rw h
  cash_movements-append (x ∷ es) e h = ap (λ r. cash_of x.event ++ r) (cash_movements-append es e h)

  -- One entry more is one round of the loop more.
  pub replay-append :
      (es : List PaperLedgerEntry) (e : PaperLedgerEntry) (s t u : PaperLedger)
      → replay es s ≡ (ok tt, t)
      → replay_entry e t ≡ (ok tt, u)
      → replay (es ++ e ∷ []) s ≡ (ok tt, u)
  unfolding replay
  replay-append [] e s t u h k = rw (ap (λ r. r.1) h, k)
  replay-append (x ∷ es) e s t u h k =
      let (s', first, rest) = next-eq-ok (replay_entry x s) (λ _. replay es) tt t h in
      rw first (replay-append es e s' t u rest k)
