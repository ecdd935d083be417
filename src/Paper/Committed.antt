-- ===== src/Paper/Committed.antt =====
-- The notional that open buy orders hold back (crates/pmkit-paper/src/ledger.rs, `available_cash`).
use pmkit.Base.Distinct.{IsDistinct}
use pmkit.Paper.Events.{TrackedOrder}
use pmkit.Decimals.{dec_laws, Decimals}
use pmkit.Base.Dict.{get, Dict, insert, remove}
use pmkit.Paper.Orders.{committed, held_by}
use pmkit.Base.{text_key, inl, Bool-cases, [], ◌≡◌, String, ◌∷◌, none, inr, some, ap, refl, ◌==◌}

module _ ⦃D : Decimals⦄ where
  open D use {Decimal, dec_zero, add, sub, mul}

  -- An order that changes: the sum changes by the order alone.
  pub committed-insert :
      (k : String) (w v : TrackedOrder) (d : Dict String TrackedOrder)
      → get k d ≡ some v
      → add (committed (insert k w d)) (held_by v) ≡ add (committed d) (held_by w)
  unfolding get insert committed
  committed-insert k w v [] h = cc h
  committed-insert k w v ((j, x) ∷ d) h = elim (Bool-cases (j == k)) [
    | inl e ↦ rw e (hit (rw e at h))
    | inr e ↦ rw e (omega (dec_laws, committed-insert k w v d (rw e at h)))
  ]
    where
      hit :
          some x ≡ some v
          → add (add (held_by w) (committed d)) (held_by v)
            ≡ add (add (held_by x) (committed d)) (held_by w)
      hit same = let found : x ≡ v = cc same in rw found (omega dec_laws)

  remove-absent : {V : Type 0} (k : String) (d : Dict String V) → get k d ≡ none → remove k d ≡ d
  unfolding get remove
  remove-absent k [] h = refl
  remove-absent k ((j, x) ∷ d) h = elim (Bool-cases (j == k)) [
    | inl e ↦ cc (rw e at h)
    | inr e ↦ rw e (ap (λ r. (j, x) ∷ r) (remove-absent k d (rw e at h)))
  ]

  pub committed-remove :
      (k : String) (v : TrackedOrder) (d : Dict String TrackedOrder)
      → IsDistinct d
      → get k d ≡ some v
      → add (committed (remove k d)) (held_by v) ≡ committed d
  unfolding get remove committed
  committed-remove k v [] u h = cc h
  committed-remove k v ((j, x) ∷ d) (free, u) h = elim (Bool-cases (j == k)) [
    | inl e ↦
        let found : x ≡ v = cc (rw e at h) in
        rw (e, remove-absent k d (rw ((text_key.matches_iff j k).0 e) at free), found)
          (omega dec_laws)
    | inr e ↦ rw e (omega (dec_laws, committed-remove k v d u (rw e at h)))
  ]
