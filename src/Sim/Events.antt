-- ===== src/Sim/Events.antt =====
-- The state of the simulator (crates/pmkit-sim/src/lib.rs).
use pmkit.Live.Admission.{MarketLimits}
use pmkit.Decimals.{Decimals}
use pmkit.Domain.{outcome_beq, Outcome, outcome_beq_iff}
use pmkit.Math.Fees.{FeeModel}
use pmkit.Base.Dict.{Dict}
use pmkit.Event.{MarketEvent}
use pmkit.Exec.{PlaceOrder}
use pmkit.Book.{OrderBookL2}
use pmkit.Base.{
  ℤ, Key, ap, ℕ, true, Bool, String, ◌↔◌, text_key, List, ◌==◌, ◌&&◌, ◌≡◌, Option, arith,
}

-- The key of a book is a market and an outcome.
abbrev pub same_book : String × Outcome → String × Outcome → Bool
same_book (m, o) (n, q) = m == n && outcome_beq o q

pub same_book_iff : (a b : String × Outcome) → (same_book a b ≡ true) ↔ (a ≡ b)
same_book_iff (m, o) (n, q) = (
  λ h. ground (arith, text_key.matches_iff m n, outcome_beq_iff o q),
  λ e.
      ground
        (arith, text_key.matches_iff m n, outcome_beq_iff o q, ap (λ p. p.0) e, ap (λ p. p.1) e),
)

instance abbrev pub book_key : Key (String × Outcome)
book_key = record { matches = same_book; matches_iff = same_book_iff }

module _ ⦃D : Decimals⦄ where
  open D use {Decimal}

  -- `RestingOrder`, and `DelayedOrder` with the same fields
  pub record SimOrder : Type 0 where
    pub order_id : String
    pub order : PlaceOrder
    pub submitted_ms : ℤ
    pub active_at_ms : ℤ
    pub strategy : Option String

  pub record SimOpenOrder : Type 0 where
    pub order_id : String
    pub market : String
    pub strategy : Option String
    pub price : Decimal
    pub remaining_qty : Decimal

  pub record SimulationConfig : Type 0 where
    pub activation_latency_ms : ℤ
    pub maker_queue_ahead_bps : ℕ
    pub slippage_bps : ℕ
    pub market_impact_bps : ℕ
    pub fee_model : Option FeeModel
    pub market_limits : Option MarketLimits

  pub record SimEngine : Type 0 where
    pub books : Dict (String × Outcome) OrderBookL2
    pub resting : Dict String SimOrder
    pub delayed : List SimOrder
    pub pending_fills : List MarketEvent
    pub next_id : ℕ
    pub id_prefix : String
    pub fee_model : FeeModel
    pub config : SimulationConfig
