-- ===== src/Wallet/Flows.antt =====
-- What the logs move for one wallet (crates/pmkit-store/src/wallet_reducer.rs).
use pmkit.Base.Dict.{get, get-insert}
use pmkit.Base.Distinct.{insert-IsDistinct, IsDistinct}
use pmkit.Decimals.{Decimals, add_zero, dec_laws}
use pmkit.Accounting.Exposure.{or_zero}
use pmkit.Wallet.{
  CanonicalLogIdentity, orders_matched, fee_charged, CanonicalChainLog, outcome_transfer_batch,
  WalletQuery, payout_redemption, collateral_transfer, ChainEvent, positions_merge,
  OutcomeTokenAmount, order_filled, position_split, outcome_transfer_single,
}
use pmkit.Wallet.Reduce.{
  apply_chain_event, apply_collateral, apply_wallet_position, ReconstructionState, in_range,
  apply_transfers, transferred,
}
use pmkit.Base.{
  either, ◌||◌, [], ◌≡◌, if◌then◌else◌, text_key, refl, ◌∙◌, String, sym, inl, inr, ap, ◌==◌, ◌∷◌,
  Bool-cases, List,
}

module _ ⦃D : Decimals⦄ where
  open D use {Decimal, dec_zero, add, sub, neg}

  -- What a transfer adds to the balance of a wallet: nothing when it is both ends.
  abbrev pub net_of : String → String → String → Decimal → Decimal
  net_of wallet from_address to_address amount =
      add (if from_address == wallet then neg amount else dec_zero)
        (if to_address == wallet then amount else dec_zero)

  -- What an event adds to the collateral, to an asset and to the settled collateral.
  abbrev pub collateral_flow : String → ChainEvent → Decimal
  collateral_flow wallet (collateral_transfer from_address to_address amount) =
      net_of wallet from_address to_address amount
  collateral_flow wallet (outcome_transfer_single _ _ _ _) = dec_zero
  collateral_flow wallet (outcome_transfer_batch _ _ _) = dec_zero
  collateral_flow wallet (position_split _ _ _) = dec_zero
  collateral_flow wallet (positions_merge _ _ _) = dec_zero
  collateral_flow wallet (payout_redemption _ _ _) = dec_zero
  collateral_flow wallet (order_filled _ _ _ _ _ _ _ _) = dec_zero
  collateral_flow wallet (orders_matched _ _ _) = dec_zero
  collateral_flow wallet (fee_charged _ _ _) = dec_zero

  abbrev pub asset_net : String → String → String → String → String → Decimal → Decimal
  asset_net wallet asset from_address to_address asset_id amount =
      if asset_id == asset then net_of wallet from_address to_address amount else dec_zero

  abbrev pub batch_flow : String → String → String → String → List OutcomeTokenAmount → Decimal
  batch_flow wallet asset from_address to_address [] = dec_zero
  batch_flow wallet asset from_address to_address (transfer ∷ transfers) =
      add (asset_net wallet asset from_address to_address transfer.asset_id transfer.amount)
        (batch_flow wallet asset from_address to_address transfers)

  abbrev pub asset_flow : String → String → ChainEvent → Decimal
  asset_flow wallet asset (collateral_transfer _ _ _) = dec_zero
  asset_flow wallet asset (outcome_transfer_single from_address to_address asset_id amount) =
      asset_net wallet asset from_address to_address asset_id amount
  asset_flow wallet asset (outcome_transfer_batch from_address to_address transfers) =
      batch_flow wallet asset from_address to_address transfers
  asset_flow wallet asset (position_split _ _ _) = dec_zero
  asset_flow wallet asset (positions_merge _ _ _) = dec_zero
  asset_flow wallet asset (payout_redemption _ _ _) = dec_zero
  asset_flow wallet asset (order_filled _ _ _ _ _ _ _ _) = dec_zero
  asset_flow wallet asset (orders_matched _ _ _) = dec_zero
  asset_flow wallet asset (fee_charged _ _ _) = dec_zero

  -- Over the logs that the query takes.
  abbrev pub total_flow : (ChainEvent → Decimal) → WalletQuery → List CanonicalChainLog → Decimal
  total_flow f query [] = dec_zero
  total_flow f query (log ∷ logs) =
      let rest = total_flow f query logs in
      if in_range log query then add (f log.event) rest else rest

  abbrev pub size_at : String → ReconstructionState → Decimal
  size_at asset s = or_zero (get asset s.positions)

  transferred_lem :
      (wallet from_address to_address : String) (amount balance : Decimal)
      → transferred wallet from_address to_address amount balance
        ≡ add balance (net_of wallet from_address to_address amount)
  transferred_lem wallet from_address to_address amount balance =
      elim (Bool-cases (from_address == wallet)) [
        | inl e ↦ elim (Bool-cases (to_address == wallet)) [
          | inl h ↦ rw (net_of, e, h) (omega dec_laws)
          | inr h ↦ rw (net_of, e, h) (omega dec_laws)
        ]
        | inr e ↦ elim (Bool-cases (to_address == wallet)) [
          | inl h ↦ rw (net_of, e, h) (omega dec_laws)
          | inr h ↦ rw (net_of, e, h) (omega dec_laws)
        ]
      ]

  -- What one event leaves.
  pub record Flowed (event : ChainEvent) (s t : ReconstructionState) : Type 0 where
    pub same_wallet : t.wallet ≡ s.wallet
    pub collateral :
        t.collateral_balance ≡ add s.collateral_balance (collateral_flow s.wallet event)
    pub sizes :
        (asset : String) → size_at asset t ≡ add (size_at asset s) (asset_flow s.wallet asset event)
    pub distinct : IsDistinct s.positions → IsDistinct t.positions

  size_at-position :
      (from_address to_address asset_id : String) (amount : Decimal) (asset : String)
      (s : ReconstructionState)
      → size_at asset (apply_wallet_position from_address to_address asset_id amount s)
        ≡ add (size_at asset s) (asset_net s.wallet asset from_address to_address asset_id amount)
  unfolding apply_wallet_position
  size_at-position from_address to_address asset_id amount asset s =
      let size = transferred s.wallet from_address to_address amount (size_at asset_id s) in
      elim (Bool-cases (asset_id == asset)) [
        | inl e ↦
            rw (get-insert asset_id asset size s.positions, e)
              (transferred_lem s.wallet from_address to_address amount (size_at asset_id s)
                ∙ ap (λ k. add (size_at k s) (net_of s.wallet from_address to_address amount))
                    ((text_key.matches_iff asset_id asset).0 e))
        | inr e ↦
            rw (get-insert asset_id asset size s.positions, e) (sym (add_zero (size_at asset s)))
      ]

  position_wallet :
      (from_address to_address : String) (transfer : OutcomeTokenAmount) (s : ReconstructionState)
      → (apply_wallet_position from_address to_address transfer.asset_id transfer.amount s).wallet
        ≡ s.wallet
  unfolding apply_wallet_position
  position_wallet from_address to_address transfer s = refl

  position_collateral :
      (from_address to_address : String) (transfer : OutcomeTokenAmount) (s : ReconstructionState)
      → (apply_wallet_position from_address to_address transfer.asset_id transfer.amount
          s).collateral_balance
        ≡ s.collateral_balance
  unfolding apply_wallet_position
  position_collateral from_address to_address transfer s = refl

  position-IsDistinct :
      (from_address to_address asset_id : String) (amount : Decimal) (s : ReconstructionState)
      → IsDistinct s.positions
      → IsDistinct (apply_wallet_position from_address to_address asset_id amount s).positions
  unfolding apply_wallet_position
  position-IsDistinct from_address to_address asset_id amount s h =
      insert-IsDistinct asset_id _ s.positions h

  -- What the transfers of a batch leave.
  record Batched (from_address to_address : String) (transfers : List OutcomeTokenAmount)
      (s t : ReconstructionState) : Type 0 where
    same_wallet : t.wallet ≡ s.wallet
    collateral : t.collateral_balance ≡ s.collateral_balance
    sizes :
        (asset : String)
        → size_at asset t
          ≡ add (size_at asset s) (batch_flow s.wallet asset from_address to_address transfers)
    distinct : IsDistinct s.positions → IsDistinct t.positions

  apply_transfers-Batched :
      (from_address to_address : String) (transfers : List OutcomeTokenAmount)
      (s : ReconstructionState)
      → Batched from_address to_address transfers s
          (apply_transfers from_address to_address transfers s)
  unfolding apply_transfers
  apply_transfers-Batched from_address to_address [] s = record {
    same_wallet = refl;
    collateral = refl;
    sizes = λ asset. sym (add_zero (size_at asset s));
    distinct = λ h. h;
  }
  apply_transfers-Batched from_address to_address (transfer ∷ transfers) s =
      let moved =
        apply_wallet_position from_address to_address transfer.asset_id transfer.amount s in
      let rest = apply_transfers-Batched from_address to_address transfers moved in
      record {
        same_wallet = rest.same_wallet ∙ position_wallet from_address to_address transfer s;
        collateral = rest.collateral ∙ position_collateral from_address to_address transfer s;
        sizes = λ asset. omega (
          dec_laws,
          rest.sizes asset,
          size_at-position from_address to_address transfer.asset_id transfer.amount asset s,
          ap (λ w. batch_flow w asset from_address to_address transfers)
              (position_wallet from_address to_address transfer s),
        );
        distinct = λ h.
            rest.distinct
              (position-IsDistinct from_address to_address transfer.asset_id transfer.amount s h);
      }

  unmoved :
      (event : ChainEvent) (s t : ReconstructionState)
      → collateral_flow s.wallet event ≡ dec_zero
      → ((asset : String) → asset_flow s.wallet asset event ≡ dec_zero)
      → t.wallet ≡ s.wallet
      → t.collateral_balance ≡ s.collateral_balance
      → t.positions ≡ s.positions
      → Flowed event s t
  unmoved event s t no_collateral no_asset wallet collateral positions = record {
    same_wallet = wallet;
    collateral =
        collateral
        ∙ sym (add_zero s.collateral_balance)
        ∙ ap (add s.collateral_balance) (sym no_collateral);
    sizes = λ asset.
        ap (λ d. or_zero (get asset d)) positions
        ∙ sym (add_zero (size_at asset s))
        ∙ ap (add (size_at asset s)) (sym (no_asset asset));
    distinct = λ h. rw positions h;
  }

  pub apply_chain_event-Flowed :
      (identity : CanonicalLogIdentity) (event : ChainEvent) (s : ReconstructionState)
      → Flowed event s (apply_chain_event identity event s)
  unfolding apply_chain_event apply_collateral apply_wallet_position
  apply_chain_event-Flowed identity (collateral_transfer from_address to_address amount) s =
      record {
        same_wallet = refl;
        collateral = transferred_lem s.wallet from_address to_address amount s.collateral_balance;
        sizes = λ asset. sym (add_zero (size_at asset s));
        distinct = λ h. h;
      }
  apply_chain_event-Flowed identity
        (outcome_transfer_single from_address to_address asset_id amount) s =
      record {
        same_wallet = refl;
        collateral = sym (add_zero s.collateral_balance);
        sizes = λ asset. size_at-position from_address to_address asset_id amount asset s;
        distinct = λ h. position-IsDistinct from_address to_address asset_id amount s h;
      }
  apply_chain_event-Flowed identity (outcome_transfer_batch from_address to_address transfers) s =
      let b = apply_transfers-Batched from_address to_address transfers s in
      record {
        same_wallet = b.same_wallet;
        collateral = b.collateral ∙ sym (add_zero s.collateral_balance);
        sizes = b.sizes;
        distinct = b.distinct;
      }
  apply_chain_event-Flowed identity (position_split stakeholder condition_id amount) s =
      let event = position_split stakeholder condition_id amount in
      either (Flowed event s) (stakeholder == s.wallet)
        (unmoved event s _ refl (λ asset. refl) refl refl refl)
        (unmoved event s s refl (λ asset. refl) refl refl refl)
  apply_chain_event-Flowed identity (positions_merge stakeholder condition_id amount) s =
      let event = positions_merge stakeholder condition_id amount in
      either (Flowed event s) (stakeholder == s.wallet)
        (unmoved event s _ refl (λ asset. refl) refl refl refl)
        (unmoved event s s refl (λ asset. refl) refl refl refl)
  apply_chain_event-Flowed identity (payout_redemption redeemer condition_id payout) s =
      let event = payout_redemption redeemer condition_id payout in
      either (Flowed event s) (redeemer == s.wallet)
        (unmoved event s _ refl (λ asset. refl) refl refl refl)
        (unmoved event s s refl (λ asset. refl) refl refl refl)
  apply_chain_event-Flowed identity
        (order_filled made_by taken_by maker_asset taker_asset maker_side maker_amount taker_amount
          fee)
        s =
      let event =
        order_filled made_by taken_by maker_asset taker_asset maker_side maker_amount taker_amount
          fee in
      either (Flowed event s) (made_by == s.wallet || taken_by == s.wallet)
        (unmoved event s _ refl (λ asset. refl) refl refl refl)
        (unmoved event s s refl (λ asset. refl) refl refl refl)
  apply_chain_event-Flowed identity (orders_matched trader asset_id amount) s =
      let event = orders_matched trader asset_id amount in
      either (Flowed event s) (trader == s.wallet)
        (unmoved event s _ refl (λ asset. refl) refl refl refl)
        (unmoved event s s refl (λ asset. refl) refl refl refl)
  apply_chain_event-Flowed identity (fee_charged payer recipient amount) s =
      let event = fee_charged payer recipient amount in
      either (Flowed event s) (payer == s.wallet)
        (unmoved event s _ refl (λ asset. refl) refl refl refl)
        (unmoved event s s refl (λ asset. refl) refl refl refl)
