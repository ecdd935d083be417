-- ===== src/Domain.antt =====
-- The value types that the crates share: identifiers (crates/pmkit-core), outcomes
-- (crates/pmkit-market), sides (crates/pmkit-book) and money (crates/pmkit-money).
use pmkit.Base.{◌≡◌, ◌↔◌, Bool, true, false, Key, arith}
use pmkit.Decimals.{Decimals}

pub data Side : Type 0 where
  buy sell : Side

pub data Outcome : Type 0 where
  up down : Outcome

abbrev pub opposite : Outcome → Outcome
opposite up = down
opposite down = up

abbrev pub side_beq : Side → Side → Bool
side_beq buy buy = true
side_beq sell sell = true
side_beq buy sell = false
side_beq sell buy = false

pub side_beq_iff : (a b : Side) → (side_beq a b ≡ true) ↔ (a ≡ b)
side_beq_iff a b = (λ h. ground arith, λ h. ground arith)

instance abbrev pub side_key : Key Side
side_key = record { matches = side_beq; matches_iff = side_beq_iff }

abbrev pub outcome_beq : Outcome → Outcome → Bool
outcome_beq up up = true
outcome_beq down down = true
outcome_beq up down = false
outcome_beq down up = false

pub outcome_beq_iff : (a b : Outcome) → (outcome_beq a b ≡ true) ↔ (a ≡ b)
outcome_beq_iff a b = (λ h. ground arith, λ h. ground arith)

instance abbrev pub outcome_key : Key Outcome
outcome_key = record { matches = outcome_beq; matches_iff = outcome_beq_iff }

-- `Money` is a newtype around a decimal number of USDC; its arithmetic is that of the number.
module _ ⦃D : Decimals⦄ where
  abbrev pub Money : Type 0
  Money = D.Decimal
