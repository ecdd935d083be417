-- ===== src/Wallet/Snapshot.antt =====
-- What the snapshot of a wallet says (crates/pmkit-store/src/wallet_reducer.rs).
use pmkit.Base.Dict.{get, sort_by_key, Dict, get-sort_by_key}
use pmkit.Accounting.Exposure.{or_zero}
use pmkit.Base.Distinct.{get-keep-none, sort_by_key-IsDistinct, get-keep, IsDistinct}
use pmkit.Wallet.{ChainEvent, WalletPosition, CanonicalChainLog, ChainCheckpoint, WalletQuery}
use pmkit.Wallet.Reduce.{
  finish, reconstruct_wallet, new_wallet, is_nonzero, apply_logs, in_range, apply_wallet_log,
  ReconstructionState,
}
use pmkit.Decimals.{eq→is_zero, is_zero, zero_add, Decimals, dec_laws, add_zero}
use pmkit.Wallet.Flows.{
  total_flow, collateral_flow, size_at, Flowed, apply_chain_event-Flowed, asset_flow,
}
use pmkit.Base.{
  false, find, text_key, refl, none, if◌then◌else◌, map, keep, ◌==◌, Option, true, ◌∙◌, List,
  String, [], sym, ◌∷◌, some, ◌≡◌, inl, inr, Bool-cases, ap,
}

module _ ⦃D : Decimals⦄ where
  open D use {Decimal, dec_zero, add}

  -- What the logs leave, from what the state had.
  record Reduced (query : WalletQuery) (logs : List CanonicalChainLog) (s t : ReconstructionState)
      : Type 0 where
    collateral :
        t.collateral_balance
        ≡ add s.collateral_balance (total_flow (collateral_flow s.wallet) query logs)
    sizes :
        (asset : String)
        → size_at asset t
          ≡ add (size_at asset s) (total_flow (asset_flow s.wallet asset) query logs)
    distinct : IsDistinct s.positions → IsDistinct t.positions

  apply_wallet_log-Flowed :
      (log : CanonicalChainLog) (s : ReconstructionState)
      → Flowed log.event s (apply_wallet_log log s)
  unfolding apply_wallet_log
  apply_wallet_log-Flowed log s =
      let tip : ChainCheckpoint = record {
        chain_id = log.identity.chain_id;
        block_number = log.identity.block_number;
        block_hash = log.identity.block_hash;
      } in
      let f =
        apply_chain_event-Flowed log.identity log.event (record s { canonical_tip = some tip }) in
      record {
        same_wallet = f.same_wallet;
        collateral = f.collateral;
        sizes = f.sizes;
        distinct = f.distinct;
      }

  pub total_flow-taken :
      (f : ChainEvent → Decimal) (query : WalletQuery) (log : CanonicalChainLog)
      (logs : List CanonicalChainLog)
      → in_range log query ≡ true
      → total_flow f query (log ∷ logs) ≡ add (f log.event) (total_flow f query logs)
  total_flow-taken f query log logs h = rw h refl

  pub total_flow-skipped :
      (f : ChainEvent → Decimal) (query : WalletQuery) (log : CanonicalChainLog)
      (logs : List CanonicalChainLog)
      → in_range log query ≡ false
      → total_flow f query logs ≡ total_flow f query (log ∷ logs)
  total_flow-skipped f query log logs h = rw h refl

  apply_logs-Reduced :
      (query : WalletQuery) (logs : List CanonicalChainLog) (s : ReconstructionState)
      → Reduced query logs s (apply_logs query logs s)
  unfolding apply_logs
  apply_logs-Reduced query [] s = record {
    collateral = sym (add_zero s.collateral_balance);
    sizes = λ asset. sym (add_zero (size_at asset s));
    distinct = λ h. h;
  }
  apply_logs-Reduced query (log ∷ logs) s = elim (Bool-cases (in_range log query)) [
    | inl taken ↦
        let t = apply_wallet_log log s in
        let f = apply_wallet_log-Flowed log s in
        let r = apply_logs-Reduced query logs t in
        rw taken (record {
          collateral = omega (
            dec_laws,
            f.collateral,
            r.collateral,
            ap (λ w. total_flow (collateral_flow w) query logs) f.same_wallet,
            total_flow-taken (collateral_flow s.wallet) query log logs taken,
          );
          sizes = λ asset. omega (
            dec_laws,
            f.sizes asset,
            r.sizes asset,
            ap (λ w. total_flow (asset_flow w asset) query logs) f.same_wallet,
            total_flow-taken (asset_flow s.wallet asset) query log logs taken,
          );
          distinct = λ h. r.distinct (f.distinct h);
        })
    | inr skipped ↦
        let r = apply_logs-Reduced query logs s in
        rw skipped (record {
          collateral =
              r.collateral
              ∙ ap (add s.collateral_balance)
                  (total_flow-skipped (collateral_flow s.wallet) query log logs skipped);
          sizes = λ asset.
              r.sizes asset
              ∙ ap (add (size_at asset s))
                  (total_flow-skipped (asset_flow s.wallet asset) query log logs skipped);
          distinct = r.distinct;
        })
  ]

  -- A position of the snapshot, from an entry of the map.
  abbrev position_at : String → Option Decimal → Option WalletPosition
  position_at asset none = none
  position_at asset (some size) = some (record { asset_id = asset; size = size })

  find-entries :
      (asset : String) (d : Dict String Decimal)
      → find
          (λ (p : WalletPosition). p.asset_id == asset)
          (map (λ (asset_id, size). record { asset_id = asset_id; size = size }) d)
        ≡ position_at asset (get asset d)
  unfolding get
  find-entries asset [] = refl
  find-entries asset ((k, v) ∷ d) = elim (Bool-cases (k == asset)) [
    | inl e ↦ rw e (
        ap (λ (j : String). some (record { asset_id = j; size = v }))
          ((text_key.matches_iff k asset).0 e))
    | inr e ↦ rw e (find-entries asset d)
  ]

  -- What the snapshot lists of an asset.
  abbrev pub listed : String → Decimal → Option WalletPosition
  listed asset size = if is_zero size then none else some (record { asset_id = asset; size = size })

  get-nonzero :
      (asset : String) (found : Option Decimal) (d : Dict String Decimal)
      → IsDistinct d
      → get asset d ≡ found
      → position_at asset (get asset (keep is_nonzero d)) ≡ listed asset (or_zero found)
  get-nonzero asset none d h e =
      ap (position_at asset) (get-keep-none is_nonzero asset d e)
      ∙ rw (eq→is_zero dec_zero refl) refl
  get-nonzero asset (some size) d h e =
      ap (position_at asset) (get-keep is_nonzero asset d size h e)
      ∙ elim (Bool-cases (is_zero size)) [ inl z ↦ rw z refl | inr nz ↦ rw nz refl ]

  -- The collateral of a snapshot is what came in less what went out in the logs that the query
  -- takes; for every asset it lists exactly the net size of its transfers, and no position when
  -- that is zero.
  pub reconstruct_wallet_lem :
      (query : WalletQuery) (logs : List CanonicalChainLog)
      → let snapshot = reconstruct_wallet query logs in
        (snapshot.collateral_balance ≡ total_flow (collateral_flow query.wallet) query logs)
        × ((asset : String)
            → find (λ p. p.asset_id == asset) snapshot.positions
              ≡ listed asset (total_flow (asset_flow query.wallet asset) query logs))
  unfolding reconstruct_wallet finish get
  reconstruct_wallet_lem query logs =
      let s = apply_logs query logs (new_wallet query.wallet) in
      let r = apply_logs-Reduced query logs (new_wallet query.wallet) in
      (
        r.collateral ∙ zero_add (total_flow (collateral_flow query.wallet) query logs),
        λ asset.
            find-entries asset (keep is_nonzero (sort_by_key s.positions))
            ∙ get-nonzero asset (get asset s.positions) (sort_by_key s.positions)
                (sort_by_key-IsDistinct s.positions (r.distinct tt))
                (get-sort_by_key asset s.positions)
            ∙ ap (listed asset)
                (r.sizes asset ∙ zero_add (total_flow (asset_flow query.wallet asset) query logs)),
      )
