-- ===== src/Risk/Durable/Safety.antt =====
-- What a stored record that is refused, that comes again or that is another portfolio's does
-- (crates/pmkit/src/live_risk.rs).
use pmkit.Decimals.{Decimals}
use pmkit.Risk.Updates.{apply_account_event}
use pmkit.Base.Replies.{panic, Reply, ok, err, map_ok}
use pmkit.Event.Account.{PmAccountEvent}
use pmkit.Risk.Durable.{Json, PmEnvelope, Read}
use pmkit.Risk.Durable.Restore.{
  owned_account_event, apply_durable_account_record, durable_account_event, apply_read,
}
use pmkit.Live.Admission.{RiskLimits}
use pmkit.Base.{
  join, ◌==◌, text_key, inr, Bool-cases, ◌∙◌, inl, Option-cases, ◌⊎◌, Option, Bool, ap, String,
  none, ◌≡◌, refl, some,
}
use pmkit.Risk.State.{corrupt, RiskStateError, LiveRiskState}
use pmkit.Risk.Repeats.{apply_account_event-again}

module _ ⦃D : Decimals⦄ (J : Json D.Decimal) where
  open D use {Decimal, dec_zero, less, at_most}
  open J use {Value, field, as_str}

  mapped_ok :
      {A : Type 0} (f : A → Unit {0}) (reply : Reply RiskStateError A)
      → map_ok f reply ≡ ok tt
      → (a : A) × (reply ≡ ok a)
  mapped_ok f (ok a) e = (a, refl)
  mapped_ok f (err x) e = cc e
  mapped_ok f panic e = cc e

  mapped_err :
      {A : Type 0} (f : A → Unit {0}) (reply : Reply RiskStateError A) (error : RiskStateError)
      → map_ok f reply ≡ err error
      → reply ≡ err error
  mapped_err f (ok a) error e = cc e
  mapped_err f (err x) error e = cc e
  mapped_err f panic error e = cc e

  apply_read-again :
      (read : Read J (Option PmAccountEvent)) (limits : RiskLimits) (s : LiveRiskState)
      → let (reply, s') = apply_read J read limits s in
        ((error : RiskStateError) → reply ≡ err error → s' ≡ s)
        × (reply ≡ ok tt → apply_read J read limits s' ≡ (ok tt, s'))
  apply_read-again (ok none) limits s = (λ error e. refl, λ e. refl)
  apply_read-again (ok (some event)) limits s =
      let (refused, again, _) = apply_account_event-again event limits s in
      (
        λ error e.
            refused error (mapped_err (λ u. tt) (apply_account_event event limits s).0 error e),
        λ e.
            let (is_new, was_ok) = mapped_ok (λ u. tt) (apply_account_event event limits s).0 e in
            ap (λ (r : Reply RiskStateError Bool × LiveRiskState). (map_ok (λ u. tt) r.0, r.1))
              (again is_new was_ok),
      )
  apply_read-again (err x) limits s = (λ error e. refl, λ e. cc e)
  apply_read-again panic limits s = (λ error e. refl, λ e. cc e)

  abbrev Owned : PmEnvelope J → String → Type 0
  Owned e portfolio =
      (owner : Value) × (field "portfolio" e.normalized ≡ some owner)
      × (as_str owner ≡ some portfolio)

  abbrev wrong_owner : String → String → RiskStateError
  wrong_owner text portfolio =
      corrupt (join "record owner " (join text (join " does not match " portfolio)))

  abbrev NotApplied : Read J (Option PmAccountEvent) → Type 0
  NotApplied read = (read ≡ ok none) ⊎ ((error : RiskStateError) × (read ≡ err error))

  owner_cases :
      (e : PmEnvelope J) (portfolio : String)
      → NotApplied (durable_account_event J e portfolio) ⊎ Owned e portfolio
  unfolding durable_account_event owned_account_event
  owner_cases e portfolio = elim (Option-cases (field "portfolio" e.normalized)) [
    | inl gone ↦ inl (inl (rw (gone, durable_account_event) refl))
    | inr (owner, there) ↦ elim (Option-cases (as_str owner)) [
      | inl no_text ↦ inl (
          inr (
            corrupt "portfolio is invalid",
            rw (there, no_text, durable_account_event, owned_account_event) refl,
          ))
      | inr (text, is_text) ↦ elim (Bool-cases (text == portfolio)) [
        | inl same ↦
            inr (owner, there, is_text ∙ ap some ((text_key.matches_iff text portfolio).0 same))
        | inr differ ↦ inl (
            inr (
              wrong_owner text portfolio,
              rw (there, is_text, differ, durable_account_event, owned_account_event) refl,
            ))
      ]
    ]
  ]

  -- A stored record of the account that is refused changes nothing, and one that was applied
  -- changes nothing when it is read again; a record changes the state only when it names the
  -- portfolio itself as its owner.
  pub apply_durable_account_record-again :
      (e : PmEnvelope J) (portfolio : String) (limits : RiskLimits) (s : LiveRiskState)
      → let (reply, s') = apply_durable_account_record J e portfolio limits s in
        ((error : RiskStateError) → reply ≡ err error → s' ≡ s)
        × (reply ≡ ok tt → apply_durable_account_record J e portfolio limits s' ≡ (ok tt, s'))
        × ((s' ≡ s)
            ⊎ ((owner : Value) × (field "portfolio" e.normalized ≡ some owner)
                × (as_str owner ≡ some portfolio)))
  unfolding apply_durable_account_record
  apply_durable_account_record-again e portfolio limits s =
      let (refused, again) = apply_read-again (durable_account_event J e portfolio) limits s in
      (refused, again, applied_owned (owner_cases e portfolio))
    where
      applied_owned :
          NotApplied (durable_account_event J e portfolio) ⊎ Owned e portfolio
          → ((apply_read J (durable_account_event J e portfolio) limits s).1 ≡ s)
            ⊎ Owned e portfolio
      applied_owned (inl (inl nothing)) = inl (ap (λ r. (apply_read J r limits s).1) nothing)
      applied_owned (inl (inr (error, failed))) = inl (ap (λ r. (apply_read J r limits s).1) failed)
      applied_owned (inr own) = inr own
