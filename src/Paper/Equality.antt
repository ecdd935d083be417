-- ===== src/Paper/Equality.antt =====
-- `PartialEq` as it is derived for the entries of crates/pmkit-paper/src/ledger.rs.
use pmkit.Paper.Events.{
  order_placed, PaperLedgerEvent, settlement, order_ack, order_cancelled, order_rejected,
  cash_movement, PaperLedgerEntry, RecordedOrder, fill,
}
use pmkit.Paper.Ledger.{order_state_matches}
use pmkit.Base.{
  number_key, text_key, ℤ, false, not, nat_beq, ◌&&◌, ◌+◌, Bool, neg_part, ◌==◌, none, Option, true,
  pos_part, String, some,
}
use pmkit.Exec.{gtd, gtc, TimeInForce}
use pmkit.Decimals.{Decimals}
use pmkit.Domain.{side_key, outcome_key}

abbrev pub xnor : Bool → Bool → Bool
xnor true b = b
xnor false b = not b

abbrev pub ℤ_matches : ℤ → ℤ → Bool
ℤ_matches a b = nat_beq (pos_part a + neg_part b) (pos_part b + neg_part a)

abbrev pub tif_matches : TimeInForce → TimeInForce → Bool
tif_matches gtc gtc = true
tif_matches (gtd s) (gtd t) = ℤ_matches s t
tif_matches _ _ = false

abbrev pub strategy_matches : Option String → Option String → Bool
strategy_matches none none = true
strategy_matches (some a) (some b) = a == b
strategy_matches _ _ = false

module _ ⦃D : Decimals⦄ where
  open D use {same}

  abbrev pub order_matches : RecordedOrder → RecordedOrder → Bool
  order_matches a b =
      a.market == b.market
      && strategy_matches a.strategy b.strategy
      && a.outcome == b.outcome
      && a.side == b.side
      && same a.price b.price
      && same a.qty b.qty
      && xnor a.post_only b.post_only
      && tif_matches a.tif b.tif

  abbrev pub event_matches : PaperLedgerEvent → PaperLedgerEvent → Bool
  event_matches (cash_movement a) (cash_movement b) = same a b
  event_matches (order_placed a) (order_placed b) = order_matches a b
  event_matches (order_ack p o s t) (order_ack q r u v) =
      p == q && o == r && order_state_matches s u && ℤ_matches t v
  event_matches (order_rejected p o) (order_rejected q r) = p == q && o == r
  event_matches (order_cancelled o) (order_cancelled r) = o == r
  event_matches (fill i m o p z s f) (fill j n r q y t g) =
      i == j && m == n && o == r && same p q && same z y && s == t && same f g
  event_matches (settlement m o z p) (settlement n r y q) = m == n && o == r && same z y && same p q
  event_matches _ _ = false

  unfoldable pub entry_matches : PaperLedgerEntry → PaperLedgerEntry → Bool
  entry_matches a b =
      a.event_id == b.event_id
      && a.sequence == b.sequence
      && ℤ_matches a.timestamp_ms b.timestamp_ms
      && event_matches a.event b.event
