-- ===== src/Wallet/Ranges.antt =====
-- Cutting the range of a query (crates/pmkit-store/src/wallet_reducer.rs).
use pmkit.Decimals.{Decimals, dec_laws, add_zero}
use pmkit.Wallet.Flows.{total_flow, collateral_flow}
use pmkit.Wallet.{WalletQuery, ChainEvent, CanonicalChainLog}
use pmkit.Wallet.Snapshot.{reconstruct_wallet_lem, total_flow-skipped, total_flow-taken}
use pmkit.Wallet.Reduce.{in_range, reconstruct_wallet, is_none_or_from, is_none_or_to}
use pmkit.Base.{
  leb, arith, some, [], ◌≡◌, ◌&&◌, ℕ, true, ◌∙◌, sym, inl, Option, Bool-cases, ◌∷◌, inr, suc, ◌⊎◌,
  List, false, none, String,
}

module _ ⦃D : Decimals⦄ where
  open D use {Decimal, dec_zero, add}

  -- A query up to a block, and the query from the next one.
  abbrev pub up_to : ℕ → WalletQuery → WalletQuery
  up_to block query = record query { to_block = some block }

  abbrev pub after : ℕ → WalletQuery → WalletQuery
  after block query = record query { from_block = some (suc block) }

  -- A block is taken by one of them as it is by the whole, and by the other not.
  one_side :
      (start last : Option ℕ) (block number : ℕ)
      → is_none_or_from start block ≡ true
      → is_none_or_to last block ≡ true
      → (((is_none_or_from start number && is_none_or_to last number)
            ≡ (is_none_or_from start number && leb number block))
          × ((leb (suc block) number && is_none_or_to last number) ≡ false))
        ⊎ (((is_none_or_from start number && is_none_or_to last number)
              ≡ (leb (suc block) number && is_none_or_to last number))
            × ((is_none_or_from start number && leb number block) ≡ false))
  one_side none none block number below above = elim (Bool-cases (leb number block)) [
    | inl y ↦ inl (ground arith, ground arith)
    | inr n ↦ inr (ground arith, ground arith)
  ]
  one_side none (some last) block number below above = elim (Bool-cases (leb number block)) [
    | inl y ↦ inl (ground arith, ground arith)
    | inr n ↦ inr (ground arith, ground arith)
  ]
  one_side (some start) none block number below above = elim (Bool-cases (leb number block)) [
    | inl y ↦ inl (ground arith, ground arith)
    | inr n ↦ inr (ground arith, ground arith)
  ]
  one_side (some start) (some last) block number below above =
      elim (Bool-cases (leb number block)) [
        | inl y ↦ inl (ground arith, ground arith)
        | inr n ↦ inr (ground arith, ground arith)
      ]

  total_flow-split :
      (f : ChainEvent → Decimal) (wallet : String) (start last : Option ℕ) (block : ℕ)
      (logs : List CanonicalChainLog)
      → is_none_or_from start block ≡ true
      → is_none_or_to last block ≡ true
      → let query : WalletQuery = record { wallet = wallet; from_block = start; to_block = last } in
        total_flow f query logs
        ≡ add (total_flow f (up_to block query) logs) (total_flow f (after block query) logs)
  total_flow-split f wallet start last block [] below above = sym (add_zero dec_zero)
  total_flow-split f wallet start last block (log ∷ logs) below above =
      let rest = total_flow-split f wallet start last block logs below above in
      let query : WalletQuery = record { wallet = wallet; from_block = start; to_block = last } in
      elim (one_side start last block log.identity.block_number below above) [
        | inl (same, not_after) ↦ elim (Bool-cases (in_range log (up_to block query))) [
          | inl y ↦ omega (
            dec_laws,
            rest,
            total_flow-taken f query log logs (same ∙ y),
            total_flow-taken f (up_to block query) log logs y,
            total_flow-skipped f (after block query) log logs not_after,
          )
          | inr n ↦ omega (
            dec_laws,
            rest,
            total_flow-skipped f query log logs (same ∙ n),
            total_flow-skipped f (up_to block query) log logs n,
            total_flow-skipped f (after block query) log logs not_after,
          )
        ]
        | inr (same, not_before) ↦ elim (Bool-cases (in_range log (after block query))) [
          | inl y ↦ omega (
            dec_laws,
            rest,
            total_flow-taken f query log logs (same ∙ y),
            total_flow-taken f (after block query) log logs y,
            total_flow-skipped f (up_to block query) log logs not_before,
          )
          | inr n ↦ omega (
            dec_laws,
            rest,
            total_flow-skipped f query log logs (same ∙ n),
            total_flow-skipped f (after block query) log logs n,
            total_flow-skipped f (up_to block query) log logs not_before,
          )
        ]
      ]

  -- Cutting the range of a query at a block inside it cuts the collateral: what the logs up to the
  -- block give and what those after it give add up to what the whole range gives.
  pub reconstruct_wallet-split :
      (query : WalletQuery) (block : ℕ) (logs : List CanonicalChainLog)
      → is_none_or_from query.from_block block ≡ true
      → is_none_or_to query.to_block block ≡ true
      → (reconstruct_wallet query logs).collateral_balance
        ≡ add
            (reconstruct_wallet (up_to block query) logs).collateral_balance
            (reconstruct_wallet (after block query) logs).collateral_balance
  reconstruct_wallet-split query block logs below above =
      rw
        (
          (reconstruct_wallet_lem query logs).0,
          (reconstruct_wallet_lem (up_to block query) logs).0,
          (reconstruct_wallet_lem (after block query) logs).0,
        )
        (total_flow-split (collateral_flow query.wallet) query.wallet query.from_block
          query.to_block block logs below above)
