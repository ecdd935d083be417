-- ===== src/Wallet.antt =====
-- The reduction of canonical chain logs to a wallet (crates/pmkit-store/src/log.rs, wallet.rs and
-- wallet_reducer.rs). An address is its text in lower case, a chain its number.
use pmkit.Decimals.{Decimals}
use pmkit.Base.{List, Bool, ℕ, Option, String}
pub mod Reduce
pub mod Flows
pub mod Snapshot
pub mod Ranges
mod Tests

pub record CanonicalLogIdentity : Type 0 where
  pub chain_id : ℕ
  pub block_number : ℕ
  pub block_hash : String
  pub transaction_hash : String
  pub transaction_index : ℕ
  pub log_index : ℕ

pub data TradeSide : Type 0 where
  trade_buy trade_sell : TradeSide

pub record ChainCheckpoint : Type 0 where
  pub chain_id : ℕ
  pub block_number : ℕ
  pub block_hash : String

pub record WalletQuery : Type 0 where
  pub wallet : String
  pub from_block : Option ℕ
  pub to_block : Option ℕ

pub data WalletActivityKind : Type 0 where
  split_activity merge_activity redemption_activity trade_activity match_activity fee_activity :
      WalletActivityKind

module _ ⦃D : Decimals⦄ where
  open D use {Decimal}

  pub record OutcomeTokenAmount : Type 0 where
    pub asset_id : String
    pub amount : Decimal

  pub data ChainEvent : Type 0 where
    -- from, to and the amount
    collateral_transfer : String → String → Decimal → ChainEvent
    -- from, to, the asset and the amount
    outcome_transfer_single : String → String → String → Decimal → ChainEvent
    -- from, to and the transfers
    outcome_transfer_batch : String → String → List OutcomeTokenAmount → ChainEvent
    -- the wallet, the condition and the amount
    position_split : String → String → Decimal → ChainEvent
    positions_merge : String → String → Decimal → ChainEvent
    payout_redemption : String → String → Decimal → ChainEvent
    -- maker, taker, their assets, the maker's side, the amounts and the fee
    order_filled :
        String → String → String → String → TradeSide → Decimal → Decimal → Decimal → ChainEvent
    -- the trader, the asset and the amount
    orders_matched : String → String → Decimal → ChainEvent
    -- the payer, the recipient and the amount
    fee_charged : String → String → Decimal → ChainEvent

  pub record CanonicalChainLog : Type 0 where
    pub identity : CanonicalLogIdentity
    pub contract_address : String
    pub event : ChainEvent

  pub record WalletPosition : Type 0 where
    pub asset_id : String
    pub size : Decimal

  pub record WalletTrade : Type 0 where
    pub transaction_hash : String
    pub block_number : ℕ
    pub asset_id : String
    pub is_maker : Bool
    pub side : TradeSide
    pub size : Decimal
    pub counter_amount : Decimal
    pub fee : Decimal

  pub record WalletActivity : Type 0 where
    pub transaction_hash : String
    pub block_number : ℕ
    pub kind : WalletActivityKind
    pub condition_id : Option String
    pub asset_id : Option String
    pub amount : Decimal

  pub record WalletSnapshot : Type 0 where
    pub wallet : String
    pub canonical_tip : Option ChainCheckpoint
    pub collateral_balance : Decimal
    pub positions : List WalletPosition
    pub settled_collateral : Decimal
    pub trades : List WalletTrade
    pub activity : List WalletActivity
