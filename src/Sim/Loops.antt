-- ===== src/Sim/Loops.antt =====
-- The whole loop over the crossed makers, and the invariant of its state
-- (crates/pmkit-sim/src/lib.rs, `check_resting_fills`).
use pmkit.Accounting.Positions.{same_key}
use pmkit.Math.Fees.{fee_order}
use pmkit.Book.{OrderBookL2}
use pmkit.Decimals.{Decimals, is_zero}
use pmkit.Base.Distinct.{insert-IsDistinct, remove-IsDistinct, IsDistinct}
use pmkit.Sim.Fills.{open_of, placed_qty, filled}
use pmkit.Domain.{Outcome}
use pmkit.Sim.Updates.{
  left_over, fill_all, fill_with, fill_found, is_filled_by, fill_resting, fill_quantity, ids_of,
  check_fills,
}
use pmkit.Base.Dict.{get, Dict, insert, remove, get-insert, get-remove}
use pmkit.Sim.Makers.{fill_with-placed_qty, before, IsKeyed, insert-IsKeyed, remove-IsKeyed}
use pmkit.Base.{
  inr, [], ◌==◌, ap, ◌∙◌, true, keep, refl, inl, Bool-cases, List, some, text_key, String, none,
  ◌≡◌, ◌⊎◌, sym, ◌∷◌, ==-refl, Option, false,
}
use pmkit.Sim.Events.{SimEngine, SimOrder, book_key}

module _ ⦃D : Decimals⦄ where
  open D use {Decimal, dec_zero, add, sub}

  -- Where an order goes after it was taken out: nowhere, or back under its key.
  abbrev Returned : String → SimOrder → Dict String SimOrder → Dict String SimOrder → Type 0
  Returned order_id o d d' =
      (d' ≡ d) ⊎ ((o' : SimOrder) × (o'.order_id ≡ o.order_id) × (d' ≡ insert order_id o' d))

  -- What the loops over the makers leave alone.
  abbrev pub SameOutside : SimEngine → SimEngine → Type 0
  SameOutside s s' = s' ≡ record s { resting = s'.resting; pending_fills = s'.pending_fills }

  fill_with-Returned :
      (order_id : String) (o : SimOrder) (book : OrderBookL2) (qty : Decimal) (s : SimEngine)
      → let s' = fill_with order_id o book qty s in
        SameOutside s s' × Returned order_id o s.resting s'.resting
  unfolding fill_with fee_order
  fill_with-Returned order_id o book qty s = elim (Bool-cases (is_zero qty)) [
    | inl z ↦ rw z (refl, inr (o, refl, refl))
    | inr nz ↦ elim (Bool-cases (is_zero (sub o.order.qty qty))) [
      | inl all ↦ rw (nz, all) (refl, inl refl)
      | inr part ↦ rw (nz, part) (refl, inr (left_over o qty, refl, refl))
    ]
  ]

  -- The invariant of the orders that rest.
  pub record IsOrderly (d : Dict String SimOrder) : Type 0 where
    pub keyed : IsKeyed d
    pub distinct : IsDistinct d

  -- One round, and the loop: the orders stay orderly, no key appears, no quantity is lost.
  pub record Keeps (s s' : SimEngine) : Type 0 where
    pub outside : SameOutside s s'
    pub orderly : IsOrderly s'.resting
    pub absent : (id : String) → get id s.resting ≡ none → get id s'.resting ≡ none
    pub conserved : (id : String) → placed_qty id s' ≡ placed_qty id s

  Returned-IsOrderly :
      (order_id : String) (o : SimOrder) (d d' : Dict String SimOrder)
      → o.order_id ≡ order_id
      → IsOrderly d
      → Returned order_id o d d'
      → IsOrderly d'
  Returned-IsOrderly order_id o d d' key h (inl same) = rw same h
  Returned-IsOrderly order_id o d d' key h (inr (o', same_key, same)) = rw same (record {
    keyed = insert-IsKeyed order_id o' d (same_key ∙ key) h.keyed;
    distinct = insert-IsDistinct order_id o' d h.distinct;
  })

  Returned-absent :
      (order_id id : String) (o : SimOrder) (d d' : Dict String SimOrder)
      → Returned order_id o d d'
      → (order_id == id) ≡ false
      → get id d ≡ none
      → get id d' ≡ none
  Returned-absent order_id id o d d' (inl same) ne h = rw same h
  Returned-absent order_id id o d d' (inr (o', _, same)) ne h =
      rw (same, get-insert order_id id o' d, ne) h

  Keeps-refl : (s : SimEngine) → IsOrderly s.resting → Keeps s s
  Keeps-refl s h = record {
    outside = refl;
    orderly = h;
    absent = λ id free. free;
    conserved = λ id. refl;
  }

  fill_found-Keeps :
      (found : Option SimOrder) (order_id : String) (book : OrderBookL2) (s : SimEngine)
      → get order_id s.resting ≡ found
      → IsOrderly s.resting
      → Keeps s (fill_found found order_id book s)
  fill_found-Keeps none order_id book s e h = Keeps-refl s h
  fill_found-Keeps (some o) order_id book s e h =
      let key = h.keyed order_id o e in
      let qty = fill_quantity s.config o book in
      let taken = record s { resting = remove order_id s.resting } in
      let gone : get order_id taken.resting ≡ none =
        get-remove order_id order_id s.resting ∙ rw (==-refl order_id) refl in
      let orderly : IsOrderly taken.resting = record {
        keyed = remove-IsKeyed order_id s.resting h.keyed;
        distinct = remove-IsDistinct order_id s.resting h.distinct;
      } in
      let (outside, returned) = fill_with-Returned order_id o book qty taken in
      record {
        outside = outside;
        orderly = Returned-IsOrderly order_id o taken.resting _ key orderly returned;
        absent = λ id free. elim (Bool-cases (order_id == id)) [
          | inl same ↦ cc (e, free, (text_key.matches_iff order_id id).0 same)
          | inr ne ↦
              Returned-absent order_id id o taken.resting _ returned ne
                (get-remove order_id id s.resting ∙ rw (ne, free) refl)
        ];
        conserved = λ id.
            fill_with-placed_qty id order_id o book qty taken key gone
            ∙ put_back id (Bool-cases (order_id == id));
      }
    where
      put_back :
          (id : String)
          → ((order_id == id) ≡ true) ⊎ ((order_id == id) ≡ false)
          → before id order_id o (record s { resting = remove order_id s.resting })
            ≡ placed_qty id s
      put_back id (inl same) =
          let there : get id s.resting ≡ some o =
            sym (ap (λ (k : String). get k s.resting) ((text_key.matches_iff order_id id).0 same))
            ∙ e in
          rw same
            (sym (ap (λ (f : Option SimOrder). add (open_of f) (filled id s.pending_fills)) there))
      put_back id (inr ne) =
          let there : get id (remove order_id s.resting) ≡ get id s.resting =
            get-remove order_id id s.resting ∙ rw ne refl in
          rw ne (ap (λ (f : Option SimOrder). add (open_of f) (filled id s.pending_fills)) there)

  Keeps-trans : (s t u : SimEngine) → Keeps s t → Keeps t u → Keeps s u
  Keeps-trans s t u h k = record {
    outside =
        k.outside
        ∙ ap (λ (x : SimEngine). record x { resting = u.resting; pending_fills = u.pending_fills })
            h.outside;
    orderly = k.orderly;
    absent = λ id free. k.absent id (h.absent id free);
    conserved = λ id. k.conserved id ∙ h.conserved id;
  }

  pub fill_all-Keeps :
      (order_ids : List String) (book : OrderBookL2) (s : SimEngine)
      → IsOrderly s.resting
      → Keeps s (fill_all order_ids book s)
  unfolding fill_all fill_resting
  fill_all-Keeps [] book s h = Keeps-refl s h
  fill_all-Keeps (order_id ∷ order_ids) book s h =
      let first_round = fill_found-Keeps (get order_id s.resting) order_id book s refl h in
      let after = fill_resting order_id book s in
      Keeps-trans s after (fill_all order_ids book after) first_round
        (fill_all-Keeps order_ids book after first_round.orderly)

  pub check_fills-Keeps :
      (found : Option OrderBookL2) (market : String) (outcome : Outcome) (s : SimEngine)
      → IsOrderly s.resting
      → Keeps s (check_fills found market outcome s)
  check_fills-Keeps none market outcome s h = Keeps-refl s h
  check_fills-Keeps (some book) market outcome s h =
      fill_all-Keeps (ids_of (keep (is_filled_by market outcome book) s.resting)) book s h
