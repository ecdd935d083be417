-- ===== src/Risk/Durable/Amounts.antt =====
-- The amounts of a fill that is read from a stored record (crates/pmkit/src/live_risk.rs).
use pmkit.Risk.Durable.Restore.{owned_account_event, durable_account_event}
use pmkit.Decimals.{dec_laws, not_at_most→lt, not_less→le, Decimals, NonNeg, Less}
use pmkit.Base.Replies.{Reply, panic, ok, err}
use pmkit.Risk.Durable.{
  Read, durable_settlement, fill_amounts, decimal_field, PmEnvelope, Json, durable_fill,
}
use pmkit.Base.{
  true, if◌then◌else◌, Bool, false, Option-cases, Option, none, String, some, Bool-cases, inl,
  arith, inr, ℤ, ◌||◌, sym, ◌≡◌, ℕ, refl,
}
use pmkit.Event.Account.{
  account_ack, account_rejected, account_settlement, account_cancelled, account_fill,
  account_status, PmAccountEvent,
}
use pmkit.Risk.State.{corrupt}
use pmkit.Base.Results.{err_if, ◌>>=◌, ◌>>◌}

-- What every result that is not an error satisfies.
abbrev Holds : {E A : Type 0} → (A → Type 0) → Reply E A → Type 0
Holds {A = A} P r = (a : A) → r ≡ ok a → P a

every_next :
    {E A B : Type 0} (P : B → Type 0) (m : Reply E A) (f : A → Reply E B)
    → ((a : A) → m ≡ ok a → Holds P (f a))
    → Holds P (m >>= f)
every_next P (ok a) f h b e = h a refl b e
every_next P (err x) f h b e = cc e
every_next P panic f h b e = cc e

every_ok : {E A : Type 0} (P : A → Type 0) (a : A) → P a → Holds {E = E} P (ok a)
every_ok P a p b e = let same : a ≡ b = cc e in rw (sym same) p

every_if :
    {E A : Type 0} (P : A → Type 0) (b : Bool) (x y : Reply E A)
    → Holds P x
    → Holds P y
    → Holds P (if b then x else y)
every_if P true x y h k = h
every_if P false x y h k = k

every_then :
    {E A : Type 0} (P : A → Type 0) (m : Reply E (Unit {0})) (k : Reply E A)
    → Holds P k
    → Holds P (m >> k)
every_then P m k h = every_next P m (λ _. k) (λ a e. h)

every_err : {E A : Type 0} (P : A → Type 0) (x : E) → Holds P (err x)
every_err P x a e = cc e

module _ ⦃D : Decimals⦄ (J : Json D.Decimal) where
  open D use {Decimal, dec_zero, less, at_most}
  open J use {Value, field, as_str}

  -- A price and a fee that are not negative, and a size that is positive.
  abbrev AreInRange : Decimal × Decimal × Decimal → Type 0
  AreInRange (price, size, fee) = NonNeg price × Less dec_zero size × NonNeg fee

  fill_amounts-AreInRange : (payload : Value) → Holds AreInRange (fill_amounts J payload)
  fill_amounts-AreInRange payload =
      every_next AreInRange (decimal_field J payload "price") _ (λ price _.
        every_next AreInRange (decimal_field J payload "size") _ (λ size _.
          every_next AreInRange (decimal_field J payload "fee") _
            (λ fee _. checked price size fee)))
    where
      checked :
          (price size fee : Decimal)
          → Holds AreInRange (
              err_if
                (less price dec_zero || (at_most size dec_zero || less fee dec_zero))
                (corrupt "fill price, size, or fee is outside its valid range")
              >> ok (price, size, fee))
      checked price size fee a e =
          elim (Bool-cases (less price dec_zero || (at_most size dec_zero || less fee dec_zero))) [
            | inl bad ↦ cc (rw bad at e)
            | inr fine ↦
                let same : (price, size, fee) ≡ a = cc (rw fine at e) in
                rw (sym same) (
                  omega (dec_laws, not_less→le price dec_zero (ground (arith, fine))),
                  not_at_most→lt size dec_zero (ground (arith, fine)),
                  omega (dec_laws, not_less→le fee dec_zero (ground (arith, fine))),
                )
          ]

  abbrev pub HasValidAmounts : PmAccountEvent → Type 0
  HasValidAmounts (account_fill _ _ _ _ _ price size _ fee _ _) = AreInRange (price, size, fee)
  HasValidAmounts (account_ack _ _ _) = Unit
  HasValidAmounts (account_cancelled _ _ _) = Unit
  HasValidAmounts (account_rejected _ _ _ _) = Unit
  HasValidAmounts (account_status _ _ _ _) = Unit
  HasValidAmounts (account_settlement _ _ _ _ _ _) = Unit

  durable_fill-HasValidAmounts :
      (e : PmEnvelope J) (payload : Value) (version : ℕ) (ts : ℤ)
      → Holds HasValidAmounts (durable_fill J e payload version ts)
  unfolding durable_fill
  durable_fill-HasValidAmounts e payload version ts =
      search (every_next, every_ok, fill_amounts-AreInRange) depth 24

  durable_settlement-HasValidAmounts :
      (e : PmEnvelope J) (payload : Value) (version : ℕ) (ts : ℤ)
      → Holds HasValidAmounts (durable_settlement J e payload version ts)
  unfolding durable_settlement
  durable_settlement-HasValidAmounts e payload version ts = search (every_next, every_ok) depth 24

  abbrev pub AllValid : Option PmAccountEvent → Type 0
  AllValid none = Unit
  AllValid (some event) = HasValidAmounts event

  every_some :
      (r : Read J PmAccountEvent)
      → Holds HasValidAmounts r
      → Holds AllValid (r >>= λ event. ok (some event))
  every_some r h =
      every_next AllValid r (λ event. ok (some event))
        (λ event e. every_ok AllValid (some event) (h event e))

  owned_account_event-AllValid :
      (e : PmEnvelope J) (portfolio : String) (owner : Value)
      → Holds AllValid (owned_account_event J e portfolio owner)
  unfolding owned_account_event
  owned_account_event-AllValid e portfolio owner =
      search
        (
          every_some, every_if, every_then, every_next, every_err, every_ok,
          durable_fill-HasValidAmounts, durable_settlement-HasValidAmounts,
        )
        depth 30

  -- Every fill that a stored record of the account gives has a price and a fee that are not
  -- negative and a size that is positive, whatever the JSON holds.
  pub durable_account_event-AllValid :
      (e : PmEnvelope J) (portfolio : String) → Holds AllValid (durable_account_event J e portfolio)
  unfolding durable_account_event
  durable_account_event-AllValid e portfolio =
      elim (Option-cases (field "portfolio" e.normalized)) [
        | inl gone ↦ rw (gone, durable_account_event) (every_ok AllValid none tt)
        | inr (owner, there) ↦
            rw (there, durable_account_event) (owned_account_event-AllValid e portfolio owner)
      ]
