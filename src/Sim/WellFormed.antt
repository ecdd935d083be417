-- ===== src/Sim/WellFormed.antt =====
-- The invariant of the simulator's orders, and the calls that give out no identity
-- (crates/pmkit-sim/src/lib.rs).
use pmkit.Sim.Makers.{remove-IsKeyed}
use pmkit.Base.Distinct.{remove-IsDistinct}
use pmkit.Sim.Expiry.{update_book-bookkeeping}
use pmkit.Base.Dict.{Dict, get-remove, remove, get}
use pmkit.Paper.Ledger.{order_id_text}
use pmkit.Book.{OrderBookL2}
use pmkit.Sim.Loops.{IsOrderly}
use pmkit.Sim.Engine.{remove_first}
use pmkit.Decimals.{Decimals}
use pmkit.Sim.Updates.{cancel_delayed, cancel_found, update_book, cancel_all, has_id}
use pmkit.Base.{
  refl, [], ◌∙◌, Bool-cases, List, Bool, ◌==◌, sym, ◌∷◌, Option-cases, inr, inl, text_key,
  show_injective, String, none, Option, join_cancel, ◌<◌, ◌≡◌, arith, some, find, ℕ, show,
}
use pmkit.Domain.{Outcome}
use pmkit.Sim.Events.{SimOrder, SimEngine}

module _ ⦃D : Decimals⦄ where
  open D use {Decimal}

  -- An identity that the engine has given out.
  abbrev pub Minted : SimEngine → String → Type 0
  Minted s id = (n : ℕ) × (n < s.next_id) × (id ≡ order_id_text s.id_prefix n)

  -- Identities are keys, were given out, and are of orders that rest or of delayed ones, not both.
  pub record IsWellFormed (s : SimEngine) : Type 0 where
    pub orderly : IsOrderly s.resting
    pub resting_minted : (id : String) (o : SimOrder) → get id s.resting ≡ some o → Minted s id
    pub delayed_minted :
        (id : String) (o : SimOrder) → find (has_id id) s.delayed ≡ some o → Minted s id
    pub apart :
        (id : String) (o : SimOrder) → get id s.resting ≡ some o → find (has_id id) s.delayed ≡ none

  order_id_text_injective :
      (prefix : String) (m n : ℕ) → order_id_text prefix m ≡ order_id_text prefix n → m ≡ n
  unfolding order_id_text
  order_id_text_injective prefix m n e =
      show_injective m n (join_cancel "-" (show m) (show n) (join_cancel prefix _ _ e))

  pub unused_id : (s : SimEngine) → ¬ Minted s (order_id_text s.id_prefix s.next_id)
  unused_id s (n, below, e) =
      omega (arith, order_id_text_injective s.id_prefix s.next_id n e, below)

  -- What a call may do to the numbers, the resting and the delayed orders without minting.
  pub record Narrows (s s' : SimEngine) : Type 0 where
    pub same_prefix : s'.id_prefix ≡ s.id_prefix
    pub same_number : s'.next_id ≡ s.next_id
    pub orderly : IsOrderly s'.resting
    pub resting_before :
        (id : String) (o : SimOrder) → get id s'.resting ≡ some o → ¬ (get id s.resting ≡ none)
    pub delayed_before :
        (id : String) → find (has_id id) s.delayed ≡ none → find (has_id id) s'.delayed ≡ none

  pub Narrows-refl : (s : SimEngine) → IsOrderly s.resting → Narrows s s
  Narrows-refl s h = record {
    same_prefix = refl;
    same_number = refl;
    orderly = h;
    resting_before = λ id o there gone. cc (there, gone);
    delayed_before = λ id free. free;
  }

  pub Narrows-IsWellFormed : (s s' : SimEngine) → IsWellFormed s → Narrows s s' → IsWellFormed s'
  Narrows-IsWellFormed s s' w n = record {
    orderly = n.orderly;
    resting_minted = λ id o there. elim (Option-cases (get id s.resting)) [
      | inl gone ↦ elim (n.resting_before id o there gone) [ ]
      | inr (o0, there0) ↦ rw (n.same_prefix, n.same_number) (w.resting_minted id o0 there0)
    ];
    delayed_minted = λ id o there. elim (Option-cases (find (has_id id) s.delayed)) [
      | inl gone ↦ cc (there, n.delayed_before id gone)
      | inr (o0, there0) ↦ rw (n.same_prefix, n.same_number) (w.delayed_minted id o0 there0)
    ];
    apart = λ id o there. elim (Option-cases (get id s.resting)) [
      | inl gone ↦ elim (n.resting_before id o there gone) [ ]
      | inr (o0, there0) ↦ n.delayed_before id (w.apart id o0 there0)
    ];
  }

  pub update_book-Narrows :
      (market : String) (outcome : Outcome) (book : OrderBookL2) (s : SimEngine)
      → IsOrderly s.resting
      → Narrows s (update_book market outcome book s)
  update_book-Narrows market outcome book s h =
      let (orderly, (same_prefix, same_number), absent, free) =
        update_book-bookkeeping market outcome book s h in
      record {
        same_prefix = same_prefix;
        same_number = same_number;
        orderly = orderly;
        resting_before = λ id o there gone. cc (there, absent id gone);
        delayed_before = free;
      }

  find-remove_first-none :
      (p t : SimOrder → Bool) (orders : List SimOrder)
      → find p orders ≡ none
      → find p (remove_first t orders) ≡ none
  find-remove_first-none p t [] free = refl
  find-remove_first-none p t (o ∷ orders) free = elim (Bool-cases (p o)) [
    | inl e ↦ cc (rw e at free)
    | inr e ↦ elim (Bool-cases (t o)) [
      | inl y ↦ rw y (rw e at free)
      | inr n ↦ rw (n, e) (find-remove_first-none p t orders (rw e at free))
    ]
  ]

  removed_before :
      (order_id id : String) (o : SimOrder) (d : Dict String SimOrder)
      → get id (remove order_id d) ≡ some o
      → ¬ (get id d ≡ none)
  removed_before order_id id o d there gone = elim (Bool-cases (order_id == id)) [
    | inl e ↦ cc (rw e at (sym (get-remove order_id id d) ∙ there))
    | inr e ↦ cc (gone, rw e at (sym (get-remove order_id id d) ∙ there))
  ]

  cancel_delayed-Narrows :
      (found : Option SimOrder) (order_id : String) (s : SimEngine)
      → IsOrderly s.resting
      → Narrows s (cancel_delayed found order_id s).1
  cancel_delayed-Narrows none order_id s h = Narrows-refl s h
  cancel_delayed-Narrows (some o) order_id s h = record {
    same_prefix = refl;
    same_number = refl;
    orderly = h;
    resting_before = λ id v there gone. cc (there, gone);
    delayed_before = λ id free. find-remove_first-none (has_id id) (has_id order_id) s.delayed free;
  }

  pub cancel_found-Narrows :
      (found : Option SimOrder) (order_id : String) (s : SimEngine)
      → IsOrderly s.resting
      → Narrows s (cancel_found found order_id s).1
  cancel_found-Narrows none order_id s h =
      cancel_delayed-Narrows (find (has_id order_id) s.delayed) order_id s h
  cancel_found-Narrows (some o) order_id s h = record {
    same_prefix = refl;
    same_number = refl;
    orderly = record {
      keyed = remove-IsKeyed order_id s.resting h.keyed;
      distinct = remove-IsDistinct order_id s.resting h.distinct;
    };
    resting_before = λ id v there gone. removed_before order_id id v s.resting there gone;
    delayed_before = λ id free. free;
  }

  pub cancel_all-IsWellFormed : (s : SimEngine) → IsWellFormed (cancel_all s).1
  unfolding cancel_all get
  cancel_all-IsWellFormed s = record {
    orderly = record { keyed = λ k o there. cc there; distinct = tt };
    resting_minted = λ id o there. cc there;
    delayed_minted = λ id o there. cc there;
    apart = λ id o there. refl;
  }
