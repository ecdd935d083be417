-- ===== src/Wallet/Reduce.antt =====
-- `reconstruct_wallet` (crates/pmkit-store/src/wallet_reducer.rs).
use pmkit.Accounting.Exposure.{or_zero}
use pmkit.Decimals.{Decimals, is_zero}
use pmkit.Base.Dict.{get, sort_by_key, insert, Dict}
use pmkit.Base.{
  leb, text_key, some, List, keep, ◌==◌, [], false, if◌then◌else◌, Bool, none, ℕ, ◌||◌, ◌∷◌, Option,
  String, ◌&&◌, true, not, ◌++◌, map,
}
use pmkit.Wallet.{
  OutcomeTokenAmount, WalletActivityKind, fee_activity, trade_sell, TradeSide, CanonicalLogIdentity,
  positions_merge, WalletTrade, match_activity, merge_activity, WalletQuery, outcome_transfer_batch,
  redemption_activity, payout_redemption, WalletSnapshot, position_split, trade_activity,
  orders_matched, outcome_transfer_single, ChainCheckpoint, fee_charged, ChainEvent, trade_buy,
  order_filled, WalletActivity, collateral_transfer, split_activity, CanonicalChainLog,
}

module _ ⦃D : Decimals⦄ where
  open D use {Decimal, dec_zero, add, sub}

  pub record ReconstructionState : Type 0 where
    pub wallet : String
    pub canonical_tip : Option ChainCheckpoint
    pub collateral_balance : Decimal
    pub positions : Dict String Decimal
    pub settled_collateral : Decimal
    pub trades : List WalletTrade
    pub activity : List WalletActivity

  abbrev pub new_wallet : String → ReconstructionState
  new_wallet wallet = record {
    wallet = wallet;
    canonical_tip = none;
    collateral_balance = dec_zero;
    positions = [];
    settled_collateral = dec_zero;
    trades = [];
    activity = [];
  }

  -- An amount that leaves one address for another, as one wallet sees it.
  abbrev pub transferred : String → String → String → Decimal → Decimal → Decimal
  transferred wallet from_address to_address amount balance =
      let left = if from_address == wallet then sub balance amount else balance in
      if to_address == wallet then add left amount else left

  unfoldable pub apply_collateral :
      String → String → Decimal → ReconstructionState → ReconstructionState
  apply_collateral from_address to_address amount s = record s {
    collateral_balance = transferred s.wallet from_address to_address amount s.collateral_balance;
  }

  unfoldable pub apply_wallet_position :
      String → String → String → Decimal → ReconstructionState → ReconstructionState
  apply_wallet_position from_address to_address asset_id amount s = record s {
    positions =
        insert asset_id
          (transferred s.wallet from_address to_address amount (or_zero (get asset_id s.positions)))
          s.positions;
  }

  unfoldable pub apply_transfers :
      String → String → List OutcomeTokenAmount → ReconstructionState → ReconstructionState
  unfolding apply_wallet_position
  apply_transfers from_address to_address [] s = s
  apply_transfers from_address to_address (transfer ∷ transfers) s =
      apply_transfers from_address to_address transfers
        (apply_wallet_position from_address to_address transfer.asset_id transfer.amount s)

  abbrev pub push_activity :
      CanonicalLogIdentity
      → WalletActivityKind
      → Option String
      → Option String
      → Decimal
      → ReconstructionState
      → ReconstructionState
  push_activity identity kind condition_id asset_id amount s = record s {
    activity =
        s.activity
        ++ record {
          transaction_hash = identity.transaction_hash;
          block_number = identity.block_number;
          kind = kind;
          condition_id = condition_id;
          asset_id = asset_id;
          amount = amount;
        }
          ∷ [];
  }

  -- The asset, the direction, the size and the counter amount of a fill, for its maker or its
  -- taker.
  abbrev pub trade_terms :
      Bool
      → TradeSide
      → String
      → String
      → Decimal
      → Decimal
      → String × TradeSide × Decimal × Decimal
  trade_terms true trade_buy maker_asset taker_asset maker_amount taker_amount =
      (taker_asset, trade_buy, taker_amount, maker_amount)
  trade_terms true trade_sell maker_asset taker_asset maker_amount taker_amount =
      (maker_asset, trade_sell, maker_amount, taker_amount)
  trade_terms false trade_buy maker_asset taker_asset maker_amount taker_amount =
      (taker_asset, trade_sell, taker_amount, maker_amount)
  trade_terms false trade_sell maker_asset taker_asset maker_amount taker_amount =
      (maker_asset, trade_buy, maker_amount, taker_amount)

  abbrev pub push_trade :
      CanonicalLogIdentity
      → Bool
      → Decimal
      → String × TradeSide × Decimal × Decimal
      → ReconstructionState
      → ReconstructionState
  push_trade identity is_maker fee (asset_id, side, size, counter_amount) s =
      push_activity identity trade_activity none (some asset_id) size (record s {
        trades =
            s.trades
            ++ record {
              transaction_hash = identity.transaction_hash;
              block_number = identity.block_number;
              asset_id = asset_id;
              is_maker = is_maker;
              side = side;
              size = size;
              counter_amount = counter_amount;
              fee = fee;
            }
              ∷ [];
      })

  -- An arm of the match with its guard on the wallet; a guard that fails ends in `_ => {}`.
  abbrev pub when_own :
      Bool → (ReconstructionState → ReconstructionState) → ReconstructionState → ReconstructionState
  when_own own f s = if own then f s else s

  unfoldable pub apply_chain_event :
      CanonicalLogIdentity → ChainEvent → ReconstructionState → ReconstructionState
  unfolding apply_collateral apply_transfers
  apply_chain_event identity (collateral_transfer from_address to_address amount) s =
      apply_collateral from_address to_address amount s
  apply_chain_event identity (outcome_transfer_single from_address to_address asset_id amount) s =
      apply_wallet_position from_address to_address asset_id amount s
  apply_chain_event identity (outcome_transfer_batch from_address to_address transfers) s =
      apply_transfers from_address to_address transfers s
  apply_chain_event identity (position_split stakeholder condition_id amount) s =
      when_own (stakeholder == s.wallet)
        (push_activity identity split_activity (some condition_id) none amount) s
  apply_chain_event identity (positions_merge stakeholder condition_id amount) s =
      when_own (stakeholder == s.wallet)
        (push_activity identity merge_activity (some condition_id) none amount) s
  apply_chain_event identity (payout_redemption redeemer condition_id payout) s =
      when_own (redeemer == s.wallet)
        (λ t.
          push_activity identity redemption_activity (some condition_id) none payout
            (record t { settled_collateral = add t.settled_collateral payout }))
        s
  apply_chain_event identity
        (order_filled made_by taken_by maker_asset taker_asset maker_side maker_amount taker_amount
          fee)
        s =
      when_own (made_by == s.wallet || taken_by == s.wallet)
        (push_trade identity (made_by == s.wallet) fee (
          trade_terms (made_by == s.wallet) maker_side maker_asset taker_asset maker_amount
            taker_amount))
        s
  apply_chain_event identity (orders_matched trader asset_id amount) s =
      when_own (trader == s.wallet)
        (push_activity identity match_activity none (some asset_id) amount) s
  apply_chain_event identity (fee_charged payer recipient amount) s =
      when_own (payer == s.wallet) (push_activity identity fee_activity none none amount) s

  unfoldable pub apply_wallet_log : CanonicalChainLog → ReconstructionState → ReconstructionState
  unfolding apply_chain_event
  apply_wallet_log log s = apply_chain_event log.identity log.event (record s {
    canonical_tip = some (record {
      chain_id = log.identity.chain_id;
      block_number = log.identity.block_number;
      block_hash = log.identity.block_hash;
    });
  })

  abbrev pub is_none_or_from : Option ℕ → ℕ → Bool
  is_none_or_from none block = true
  is_none_or_from (some start) block = leb start block

  abbrev pub is_none_or_to : Option ℕ → ℕ → Bool
  is_none_or_to none block = true
  is_none_or_to (some last) block = leb block last

  abbrev pub in_range : CanonicalChainLog → WalletQuery → Bool
  in_range log query =
      is_none_or_from query.from_block log.identity.block_number
      && is_none_or_to query.to_block log.identity.block_number

  abbrev pub is_nonzero : String × Decimal → Bool
  is_nonzero (_, size) = not (is_zero size)

  unfoldable pub finish : ReconstructionState → WalletSnapshot
  finish s = record {
    wallet = s.wallet;
    canonical_tip = s.canonical_tip;
    collateral_balance = s.collateral_balance;
    positions =
        map (λ (asset_id, size). record { asset_id = asset_id; size = size })
          (keep is_nonzero (sort_by_key s.positions));
    settled_collateral = s.settled_collateral;
    trades = s.trades;
    activity = s.activity;
  }

  -- The loop over the logs.
  unfoldable pub apply_logs :
      WalletQuery → List CanonicalChainLog → ReconstructionState → ReconstructionState
  unfolding apply_wallet_log
  apply_logs query [] s = s
  apply_logs query (log ∷ logs) s =
      apply_logs query logs (if in_range log query then apply_wallet_log log s else s)

  unfoldable pub reconstruct_wallet : WalletQuery → List CanonicalChainLog → WalletSnapshot
  unfolding apply_logs finish
  reconstruct_wallet query logs = finish (apply_logs query logs (new_wallet query.wallet))
