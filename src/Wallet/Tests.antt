-- ===== src/Wallet/Tests.antt =====
-- The theorems on wallets at a few logs over whole numbers.
use pmkit.Wallet.Flows.{asset_flow, collateral_flow, total_flow}
use pmkit.Wallet.{
  collateral_transfer, ChainEvent, WalletQuery, CanonicalChainLog, outcome_transfer_single,
}
use pmkit.Wallet.Snapshot.{listed, reconstruct_wallet_lem}
use pmkit.Wallet.Reduce.{
  finish, apply_wallet_log, apply_wallet_position, apply_chain_event, reconstruct_wallet,
  apply_collateral, apply_logs,
}
use pmkit.Wallet.Ranges.{up_to, reconstruct_wallet-split, after}
use pmkit.Base.Dict.{get, insert, sort_by_key}
use pmkit.Base.{
  text_key, find, ◌==◌, String, ℕ, List, none, ◌-ℤ◌, pos, [], ◌+ℤ◌, ◌∷◌, some, refl, ◌≡◌,
}
use pmkit.Decimals.Whole.{whole}

abbrev log_at : ℕ → ChainEvent → CanonicalChainLog
log_at block event = record {
  identity = record {
    chain_id = 137;
    block_number = block;
    block_hash = "0xb";
    transaction_hash = "0xt";
    transaction_index = 0;
    log_index = 0;
  };
  contract_address = "0xc";
  event = event;
}

abbrev logs : List CanonicalChainLog
logs =
    log_at 1 (collateral_transfer "0xother" "0xme" (pos 10))
    ∷ log_at 2 (outcome_transfer_single "0xother" "0xme" "token-b" (pos 3))
    ∷ log_at 2 (outcome_transfer_single "0xother" "0xme" "token-a" (pos 2))
    ∷ log_at 3 (outcome_transfer_single "0xme" "0xother" "token-b" (pos 3))
    ∷ log_at 4 (collateral_transfer "0xme" "0xother" (pos 4))
    ∷ []

abbrev query : WalletQuery
query = record { wallet = "0xme"; from_block = none; to_block = some 9 }

-- The position that is sold off is not listed.
one_position :
    let snapshot = reconstruct_wallet query logs in
    (snapshot.collateral_balance ≡ pos 6)
    × (snapshot.positions ≡ record { asset_id = "token-a"; size = pos 2 } ∷ [])
unfolding reconstruct_wallet finish apply_logs apply_wallet_log apply_chain_event apply_collateral
    apply_wallet_position get insert sort_by_key ◌+ℤ◌ ◌-ℤ◌
one_position = (refl, refl)

reconstruct_wallet_lem_example :
    let snapshot = reconstruct_wallet query logs in
    (snapshot.collateral_balance ≡ total_flow (collateral_flow "0xme") query logs)
    × ((asset : String)
        → find (λ p. p.asset_id == asset) snapshot.positions
          ≡ listed asset (total_flow (asset_flow "0xme" asset) query logs))
reconstruct_wallet_lem_example = reconstruct_wallet_lem query logs

reconstruct_wallet-split_example :
    (reconstruct_wallet query logs).collateral_balance
    ≡ (reconstruct_wallet (up_to 2 query) logs).collateral_balance
      +ℤ (reconstruct_wallet (after 2 query) logs).collateral_balance
reconstruct_wallet-split_example = reconstruct_wallet-split query 2 logs refl refl
