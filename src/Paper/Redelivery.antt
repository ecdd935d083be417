-- ===== src/Paper/Redelivery.antt =====
-- Entries that come twice (crates/pmkit-paper/src/ledger.rs, `deduplicate`).
use pmkit.Domain.{side_key, outcome_key}
use pmkit.Base.Replies.{ok}
use pmkit.Decimals.{Decimals}
use pmkit.Paper.History.{History-IsReplayable, History}
use pmkit.Paper.Reconstruct.{deduplicate_from, reconstruct_unique, reconstruct, deduplicate}
use pmkit.Paper.Ledger.{event_id_text, order_state_matches}
use pmkit.Paper.Replay.{deduplicate-IsNumbered, IsNumbered, other_id}
use pmkit.Paper.Equality.{
  tif_matches, strategy_matches, entry_matches, ℤ_matches, event_matches, xnor,
}
use pmkit.Base.Dict.{get, Dict, insert, get-insert}
use pmkit.Exec.{gtd, TimeInForce, gtc}
use pmkit.Paper.Events.{
  delayed, settlement, order_placed, cash_movement, PaperLedger, order_ack, resting, fill,
  PaperLedgerEvent, PaperLedgerEntry, OrderState, immediate, order_rejected, order_cancelled,
}
use pmkit.Base.{
  ◌⊎◌, inl, inr, ℤ, refl, none, ap, Option, text_key, Bool, true, ◌≤◌, some, arith, nat_beq_iff,
  ◌∙◌, ◌≡◌, ◌++◌, ◌∷◌, ℕ, [], false, ◌==◌, ==-refl, String, sym, List, ◌<◌, ◌&&◌, ◌+◌,
}
use mathlib.Core.List.{append-nil, append_assoc}

xnor_refl : (b : Bool) → xnor b b ≡ true
xnor_refl true = refl
xnor_refl false = refl

strategy_matches_refl : (s : Option String) → strategy_matches s s ≡ true
strategy_matches_refl none = refl
strategy_matches_refl (some s) = ==-refl ⦃key = text_key⦄ s

ℤ_matches_refl : (a : ℤ) → ℤ_matches a a ≡ true
ℤ_matches_refl a = (nat_beq_iff _ _).1 refl

tif_matches_refl : (t : TimeInForce) → tif_matches t t ≡ true
tif_matches_refl gtc = refl
tif_matches_refl (gtd a) = ℤ_matches_refl a

state_matches_refl : (s : OrderState) → order_state_matches s s ≡ true
state_matches_refl immediate = refl
state_matches_refl resting = refl
state_matches_refl delayed = refl

and_true : (a b : Bool) → a ≡ true → b ≡ true → (a && b) ≡ true
and_true a b h k = rw (h, k) refl

module _ ⦃D : Decimals⦄ where
  open D use {Decimal, same}

  same_refl : (a : Decimal) → same a a ≡ true
  same_refl a = (D.same_iff a a).1 refl

  text_refl : (s : String) → (s == s) ≡ true
  text_refl s = ==-refl s

  event_matches_refl : (e : PaperLedgerEvent) → event_matches e e ≡ true
  event_matches_refl (cash_movement a) = same_refl a
  event_matches_refl (order_placed o) =
      and_true _ _
        (and_true _ _
          (and_true _ _
            (and_true _ _
              (and_true _ _
                (and_true _ _ (and_true _ _ (text_refl o.market) (strategy_matches_refl o.strategy))
                  (==-refl o.outcome))
                (==-refl o.side))
              (same_refl o.price))
            (same_refl o.qty))
          (xnor_refl o.post_only))
        (tif_matches_refl o.tif)
  event_matches_refl (order_ack p o s t) =
      and_true _ _ (and_true _ _ (and_true _ _ (text_refl p) (text_refl o)) (state_matches_refl s))
        (ℤ_matches_refl t)
  event_matches_refl (order_rejected p o) = and_true _ _ (text_refl p) (text_refl o)
  event_matches_refl (order_cancelled o) = text_refl o
  event_matches_refl (fill i m o p z s f) =
      and_true _ _
        (and_true _ _
          (and_true _ _
            (and_true _ _ (and_true _ _ (and_true _ _ (text_refl i) (text_refl m)) (==-refl o))
              (same_refl p))
            (same_refl z))
          (==-refl s))
        (same_refl f)
  event_matches_refl (settlement m o z p) =
      and_true _ _ (and_true _ _ (and_true _ _ (text_refl m) (==-refl o)) (same_refl z))
        (same_refl p)

  entry_matches_refl : (e : PaperLedgerEntry) → entry_matches e e ≡ true
  unfolding entry_matches
  entry_matches_refl e =
      and_true _ _
        (and_true _ _ (and_true _ _ (text_refl e.event_id) ((nat_beq_iff _ _).1 refl))
          (ℤ_matches_refl e.timestamp_ms))
        (event_matches_refl e.event)

  -- What `seen` holds after some entries.
  abbrev seen_after :
      List PaperLedgerEntry → Dict String PaperLedgerEntry → Dict String PaperLedgerEntry
  seen_after [] seen = seen
  seen_after (e ∷ es) seen = seen_after es (insert e.event_id e seen)

  abbrev AreSeen : List PaperLedgerEntry → Dict String PaperLedgerEntry → Type 0
  AreSeen [] seen = Unit
  AreSeen (e ∷ es) seen = (get e.event_id seen ≡ some e) × AreSeen es seen

  dropped :
      (seen : Dict String PaperLedgerEntry) (unique again : List PaperLedgerEntry)
      → AreSeen again seen
      → deduplicate_from seen unique again ≡ ok unique
  unfolding deduplicate_from
  dropped seen unique [] h = refl
  dropped seen unique (e ∷ again) (found, h) =
      rw (found, entry_matches_refl e, deduplicate_from) (dropped seen unique again h)

  taken_first :
      (k : ℕ) (seen : Dict String PaperLedgerEntry) (unique es again : List PaperLedgerEntry)
      → IsNumbered k es
      → ((j : ℕ) → k ≤ j → get (event_id_text j) seen ≡ none)
      → deduplicate_from seen unique (es ++ again)
        ≡ deduplicate_from (seen_after es seen) (unique ++ es) again
  unfolding deduplicate_from
  taken_first k seen unique [] again h fresh =
      ap (λ u. deduplicate_from seen u again) (sym (append-nil unique))
  taken_first k seen unique (e ∷ es) again (hi, hs, h) fresh =
      let unseen : get e.event_id seen ≡ none = rw hi (fresh k (omega arith)) in
      rw (unseen, deduplicate_from)
        (taken_first (k + 1) (insert e.event_id e seen) (unique ++ e ∷ []) es again h (λ j le.
            rw (get-insert e.event_id (event_id_text j) e seen, hi, other_id k j (omega arith))
              (fresh j (omega arith)))
          ∙ ap (λ u. deduplicate_from (seen_after es (insert e.event_id e seen)) u again)
              (append_assoc unique (e ∷ []) es))

  -- Later numbers leave an identity alone.
  seen_after-other :
      (n k : ℕ) (es : List PaperLedgerEntry) (seen : Dict String PaperLedgerEntry)
      → n < k
      → IsNumbered k es
      → get (event_id_text n) (seen_after es seen) ≡ get (event_id_text n) seen
  seen_after-other n k [] seen lt h = refl
  seen_after-other n k (e ∷ es) seen lt (hi, hs, h) =
      seen_after-other n (k + 1) es (insert e.event_id e seen) (omega arith) h
      ∙ rw (get-insert e.event_id (event_id_text n) e seen, hi, other_id k n (omega arith)) refl

  all_seen :
      (k : ℕ) (es : List PaperLedgerEntry) (seen : Dict String PaperLedgerEntry)
      → IsNumbered k es
      → AreSeen es (seen_after es seen)
  all_seen k [] seen h = tt
  all_seen k (e ∷ es) seen (hi, hs, h) =
      let after = insert e.event_id e seen in
      (
        ap (λ id. get id (seen_after es after)) hi
            ∙ seen_after-other k (k + 1) es after (omega arith) h
            ∙ rw (get-insert e.event_id (event_id_text k) e seen, hi, text_refl (event_id_text k))
                refl,
        all_seen (k + 1) es after h,
      )

  abbrev pub IsIn : PaperLedgerEntry → List PaperLedgerEntry → Type 0
  IsIn e [] = ⊥
  IsIn e (x ∷ es) = (e ≡ x) ⊎ IsIn e es

  -- Each of the entries is one of `es`, in any order and any number of times.
  abbrev pub AreFrom : List PaperLedgerEntry → List PaperLedgerEntry → Type 0
  AreFrom es [] = Unit
  AreFrom es (e ∷ again) = IsIn e es × AreFrom es again

  seen_one :
      (e : PaperLedgerEntry) (es : List PaperLedgerEntry) (seen : Dict String PaperLedgerEntry)
      → AreSeen es seen
      → IsIn e es
      → get e.event_id seen ≡ some e
  seen_one e [] seen h i = absurd i
  seen_one e (x ∷ es) seen (found, h) (inl equal) = rw equal found
  seen_one e (x ∷ es) seen (found, h) (inr rest) = seen_one e es seen h rest

  seen_again :
      (es again : List PaperLedgerEntry) (seen : Dict String PaperLedgerEntry)
      → AreSeen es seen
      → AreFrom es again
      → AreSeen again seen
  seen_again es [] seen h k = tt
  seen_again es (e ∷ again) seen h (one, k) =
      (seen_one e es seen h one, seen_again es again seen h k)

  -- When entries of a ledger, whose appends were all accepted, are delivered again after the last
  -- of them, any of them in any order and any number of times, this changes nothing: reconstruction
  -- gives what it gives from the entries alone.
  pub reconstruct-redelivered :
      {l : PaperLedger} (again : List PaperLedgerEntry)
      → History l
      → AreFrom l.entries again
      → reconstruct (l.entries ++ again) l.id_prefix ≡ reconstruct l.entries l.id_prefix
  unfolding reconstruct deduplicate
  reconstruct-redelivered {l} again h from =
      let numbered = (History-IsReplayable h).numbered in
      let twice : deduplicate_from [] [] (l.entries ++ again) ≡ ok l.entries =
        taken_first 0 [] [] l.entries again numbered (λ j le. unfold get in refl)
        ∙ dropped (seen_after l.entries []) l.entries again (
            seen_again l.entries again (seen_after l.entries []) (all_seen 0 l.entries [] numbered)
              from) in
      ap (reconstruct_unique l.id_prefix) (twice ∙ sym (deduplicate-IsNumbered l.entries numbered))
