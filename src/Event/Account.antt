-- ===== src/Event/Account.antt =====
-- The account events of crates/pmkit-event/src/lib.rs and the identities of their facts.
use pmkit.Decimals.Whole.{same_ℤ, same_iff}
use pmkit.Decimals.Whole.{same_iff}
use pmkit.Base.{ap, arith}
use pmkit.Event.{Liquidity}
use pmkit.Decimals.{Decimals}
use pmkit.Domain.{Side, Outcome}
use pmkit.Base.{Key, ℤ, refl, ◌&&◌, false, true, ◌↔◌, Option, ◌==◌, Bool, String, ◌≡◌, text_key}

pub data FillIdentity : Type 0 where
  venue_fill : String → FillIdentity
  -- the source, the connection, its epoch and the frame in it
  transport_fill : String → String → ℤ → ℤ → FillIdentity

pub data SettlementIdentity : Type 0 where
  venue_settlement : String → SettlementIdentity
  transport_settlement : String → String → ℤ → ℤ → SettlementIdentity

instance abbrev pub ℤ_key : Key ℤ
ℤ_key = record { matches = same_ℤ; matches_iff = same_iff }

-- The derived `PartialEq`
abbrev pub fill_identity_beq : FillIdentity → FillIdentity → Bool
fill_identity_beq (venue_fill a) (venue_fill b) = a == b
fill_identity_beq (transport_fill a b c d) (transport_fill a' b' c' d') =
    (a == a' && b == b') && (c == c' && d == d')
fill_identity_beq _ _ = false

abbrev pub settlement_identity_beq : SettlementIdentity → SettlementIdentity → Bool
settlement_identity_beq (venue_settlement a) (venue_settlement b) = a == b
settlement_identity_beq (transport_settlement a b c d) (transport_settlement a' b' c' d') =
    (a == a' && b == b') && (c == c' && d == d')
settlement_identity_beq _ _ = false

all_four :
    (a b c d : Bool)
    → ((a && b) && (c && d)) ≡ true
    → (a ≡ true) × (b ≡ true) × (c ≡ true) × (d ≡ true)
all_four a b c d h = (ground arith, ground arith, ground arith, ground arith)

pub fill_identity_beq_iff : (a b : FillIdentity) → (fill_identity_beq a b ≡ true) ↔ (a ≡ b)
fill_identity_beq_iff (venue_fill a) (venue_fill b) =
    (λ h. ap venue_fill ((text_key.matches_iff a b).0 h), λ e. (text_key.matches_iff a b).1 (cc e))
fill_identity_beq_iff (venue_fill a) (transport_fill _ _ _ _) = (λ h. cc h, λ e. cc e)
fill_identity_beq_iff (transport_fill _ _ _ _) (venue_fill a) = (λ h. cc h, λ e. cc e)
fill_identity_beq_iff (transport_fill a b c d) (transport_fill a' b' c' d') = (
  λ h.
      let (ea, eb, ec, ed) = all_four (a == a') (b == b') (c == c') (d == d') h in
      cc (
        (text_key.matches_iff a a').0 ea,
        (text_key.matches_iff b b').0 eb,
        (ℤ_key.matches_iff c c').0 ec,
        (ℤ_key.matches_iff d d').0 ed,
      ),
  λ e.
      rw
        (
          (text_key.matches_iff a a').1 (cc e),
          (text_key.matches_iff b b').1 (cc e),
          (ℤ_key.matches_iff c c').1 (cc e),
          (ℤ_key.matches_iff d d').1 (cc e),
        )
        refl,
)

pub settlement_identity_beq_iff :
    (a b : SettlementIdentity) → (settlement_identity_beq a b ≡ true) ↔ (a ≡ b)
settlement_identity_beq_iff (venue_settlement a) (venue_settlement b) = (
  λ h. ap venue_settlement ((text_key.matches_iff a b).0 h),
  λ e. (text_key.matches_iff a b).1 (cc e),
)
settlement_identity_beq_iff (venue_settlement a) (transport_settlement _ _ _ _) =
    (λ h. cc h, λ e. cc e)
settlement_identity_beq_iff (transport_settlement _ _ _ _) (venue_settlement a) =
    (λ h. cc h, λ e. cc e)
settlement_identity_beq_iff (transport_settlement a b c d) (transport_settlement a' b' c' d') = (
  λ h.
      let (ea, eb, ec, ed) = all_four (a == a') (b == b') (c == c') (d == d') h in
      cc (
        (text_key.matches_iff a a').0 ea,
        (text_key.matches_iff b b').0 eb,
        (ℤ_key.matches_iff c c').0 ec,
        (ℤ_key.matches_iff d d').0 ed,
      ),
  λ e.
      rw
        (
          (text_key.matches_iff a a').1 (cc e),
          (text_key.matches_iff b b').1 (cc e),
          (ℤ_key.matches_iff c c').1 (cc e),
          (ℤ_key.matches_iff d d').1 (cc e),
        )
        refl,
)

instance abbrev pub fill_identity_key : Key FillIdentity
fill_identity_key = record { matches = fill_identity_beq; matches_iff = fill_identity_beq_iff }

instance abbrev pub settlement_identity_key : Key SettlementIdentity
settlement_identity_key = record {
  matches = settlement_identity_beq;
  matches_iff = settlement_identity_beq_iff;
}

module _ ⦃D : Decimals⦄ where
  open D use {Decimal}

  pub data PmAccountEvent : Type 0 where
    -- identity, strategy, order, market, outcome, price, size, side, fee, liquidity and time
    account_fill :
        FillIdentity
        → Option String
        → String
        → String
        → Outcome
        → Decimal
        → Decimal
        → Side
        → Decimal
        → Liquidity
        → ℤ
        → PmAccountEvent
    account_ack : Option String → String → ℤ → PmAccountEvent
    account_cancelled : Option String → String → ℤ → PmAccountEvent
    account_rejected : Option String → String → String → ℤ → PmAccountEvent
    account_status : Option String → String → String → ℤ → PmAccountEvent
    -- identity, market, outcome, settled size, proceeds and time
    account_settlement :
        SettlementIdentity → String → Outcome → Decimal → Decimal → ℤ → PmAccountEvent
