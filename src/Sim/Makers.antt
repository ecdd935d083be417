-- ===== src/Sim/Makers.antt =====
-- The loop over the crossed makers (crates/pmkit-sim/src/lib.rs, `check_resting_fills`).
use pmkit.Event.{MarketEvent, maker}
use pmkit.Sim.Updates.{maker_fill, left_over, fill_with}
use pmkit.Book.{OrderBookL2}
use pmkit.Sim.Fills.{filled-append, placed_qty, open_of, open_qty, filled}
use pmkit.Math.Fees.{fee_of, fee_order}
use pmkit.Base.Dict.{get, Dict, get-remove, insert, get-insert, remove}
use pmkit.Decimals.{dec_laws, is_zero→eq, Decimals, is_zero}
use pmkit.Base.{
  true, List, ◌⊎◌, ◌++◌, Bool, [], ◌∷◌, false, ◌==◌, sym, some, if◌then◌else◌, String, ◌≡◌,
  text_key, inr, ◌∙◌, none, refl, Bool-cases, inl, ap,
}
use pmkit.Sim.Events.{SimOrder, SimEngine, book_key}

module _ ⦃D : Decimals⦄ where
  open D use {Decimal, dec_zero, add, sub}

  -- The key of an order that rests is its identity.
  abbrev pub IsKeyed : Dict String SimOrder → Type 0
  IsKeyed d = (k : String) (o : SimOrder) → get k d ≡ some o → o.order_id ≡ k

  pub insert-IsKeyed :
      (k : String) (v : SimOrder) (d : Dict String SimOrder)
      → v.order_id ≡ k
      → IsKeyed d
      → IsKeyed (insert k v d)
  insert-IsKeyed k v d e h j o found = elim (Bool-cases (k == j)) [
    | inl same ↦
        let here : v ≡ o = cc (rw same at (sym (get-insert k j v d) ∙ found)) in
        ap (λ x. x.order_id) (sym here) ∙ e ∙ (text_key.matches_iff k j).0 same
    | inr other_key ↦ h j o (rw other_key at (sym (get-insert k j v d) ∙ found))
  ]

  pub remove-IsKeyed : (k : String) (d : Dict String SimOrder) → IsKeyed d → IsKeyed (remove k d)
  remove-IsKeyed k d h j o found = elim (Bool-cases (k == j)) [
    | inl same ↦ cc (rw same at (sym (get-remove k j d) ∙ found))
    | inr other_key ↦ h j o (rw other_key at (sym (get-remove k j d) ∙ found))
  ]

  -- Open and filled quantity of an order while it is out of `resting`: nothing is lost.
  abbrev pub before : String → String → SimOrder → SimEngine → Decimal
  before id order_id o s =
      if order_id == id then add o.order.qty (filled id s.pending_fills) else placed_qty id s

  open_qty-insert :
      (id order_id : String) (o : SimOrder) (s : SimEngine)
      → open_of (get id (insert order_id o s.resting))
        ≡ (if order_id == id then o.order.qty else open_qty id s)
  open_qty-insert id order_id o s = elim (Bool-cases (order_id == id)) [
    | inl e ↦ rw (get-insert order_id id o s.resting, e) refl
    | inr e ↦ rw (get-insert order_id id o s.resting, e) refl
  ]

  reinserted :
      (id order_id : String) (o : SimOrder) (s : SimEngine)
      → placed_qty id (record s { resting = insert order_id o s.resting }) ≡ before id order_id o s
  reinserted id order_id o s =
      ap (λ q. add q (filled id s.pending_fills)) (open_qty-insert id order_id o s)
      ∙ chosen (order_id == id)
    where
      chosen :
          (b : Bool)
          → add (if b then o.order.qty else open_qty id s) (filled id s.pending_fills)
            ≡ (if b then add o.order.qty (filled id s.pending_fills) else placed_qty id s)
      chosen true = refl
      chosen false = refl

  -- A fill that is emitted adds to what is filled of its order.
  filled-emitted :
      (id order_id : String) (o : SimOrder) (book : OrderBookL2) (qty fee : Decimal)
      (events : List MarketEvent)
      → o.order_id ≡ order_id
      → filled id (events ++ maker_fill o book qty fee ∷ [])
        ≡ add (filled id events) (if order_id == id then qty else dec_zero)
  filled-emitted id order_id o book qty fee events key =
      filled-append id events (maker_fill o book qty fee)
      ∙ ap (λ k. add (filled id events) (if k == id then qty else dec_zero)) key

  pub fill_with-placed_qty :
      (id order_id : String) (o : SimOrder) (book : OrderBookL2) (qty : Decimal) (s : SimEngine)
      → o.order_id ≡ order_id
      → get order_id s.resting ≡ none
      → placed_qty id (fill_with order_id o book qty s) ≡ before id order_id o s
  unfolding fill_with fee_order
  fill_with-placed_qty id order_id o book qty s key absent = elim (Bool-cases (is_zero qty)) [
    | inl z ↦ rw z (reinserted id order_id o s)
    | inr nz ↦ elim (Bool-cases (is_zero (sub o.order.qty qty))) [
      | inl all ↦
          rw (nz, all) (ap (add (open_qty id s)) emission ∙ whole (Bool-cases (order_id == id)) all)
      | inr part ↦
          rw (nz, part)
            (ap (λ q. add (open_of (get id (insert order_id (left_over o qty) s.resting))) q)
                emission
              ∙ ap
                  (λ q.
                    add q
                      (add (filled id s.pending_fills) (if order_id == id then qty else dec_zero)))
                  (open_qty-insert id order_id (left_over o qty) s)
              ∙ split (Bool-cases (order_id == id)))
    ]
  ]
    where
      fee : Decimal
      fee = fee_of s.fee_model qty o.order.price maker

      emission :
          filled id (s.pending_fills ++ maker_fill o book qty fee ∷ [])
          ≡ add (filled id s.pending_fills) (if order_id == id then qty else dec_zero)
      emission = filled-emitted id order_id o book qty fee s.pending_fills key

      whole :
          ((order_id == id) ≡ true) ⊎ ((order_id == id) ≡ false)
          → is_zero (sub o.order.qty qty) ≡ true
          → add
              (open_qty id s)
              (add (filled id s.pending_fills) (if order_id == id then qty else dec_zero))
            ≡ before id order_id o s
      whole (inl e) all =
          let gone : open_qty id s ≡ dec_zero =
            ap (λ k. open_of (get k s.resting)) (sym ((text_key.matches_iff order_id id).0 e))
            ∙ ap open_of absent in
          rw e (omega (dec_laws, gone, is_zero→eq _ all))
      whole (inr e) all = rw e (omega dec_laws)

      split :
          ((order_id == id) ≡ true) ⊎ ((order_id == id) ≡ false)
          → add
              (if order_id == id then sub o.order.qty qty else open_qty id s)
              (add (filled id s.pending_fills) (if order_id == id then qty else dec_zero))
            ≡ before id order_id o s
      split (inl e) = rw e (omega dec_laws)
      split (inr e) = rw e (omega dec_laws)
