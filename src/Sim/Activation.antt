-- ===== src/Sim/Activation.antt =====
-- What the activation of delayed orders does to the state (crates/pmkit-sim/src/lib.rs,
-- `activate_delayed`).
use pmkit.Base.Dict.{get}
use pmkit.Sim.Engine.{submit_taker}
use pmkit.Decimals.{Decimals}
use pmkit.Sim.Fills.{submit_taker-keeps, filled}
use pmkit.Domain.{Outcome}
use pmkit.Base.{
  find-keep-none, text_key, false, ◌∙◌, sym, some, ◌==◌, Option, ℤ, inl, [], ◌≡◌, List, Bool-cases,
  Bool, ◌∷◌, String, not, inr, refl, ap, keep, none, find,
}
use pmkit.Sim.Events.{book_key, SimOrder, SimEngine}
use pmkit.Sim.Updates.{activate_at, activate_delayed, activate_all, has_id, is_due}
use pmkit.Book.{OrderBookL2}

module _ ⦃D : Decimals⦄ where
  open D use {Decimal, dec_zero, add, sub}

  -- The orders that the book does not activate.
  abbrev pub is_waiting : String → Outcome → ℤ → SimOrder → Bool
  is_waiting market outcome now_ms o = not (is_due market outcome now_ms o)

  pub activate_all-remaining :
      (market : String) (outcome : Outcome) (now_ms : ℤ) (orders : List SimOrder) (s : SimEngine)
      → (activate_all market outcome now_ms orders s).0
        ≡ keep (is_waiting market outcome now_ms) orders
  unfolding activate_all
  activate_all-remaining market outcome now_ms [] s = refl
  activate_all-remaining market outcome now_ms (o ∷ orders) s =
      elim (Bool-cases (is_due market outcome now_ms o)) [
        | inl due ↦ rw due (activate_all-remaining market outcome now_ms orders _)
        | inr not_due ↦
            rw not_due (ap (λ r. o ∷ r) (activate_all-remaining market outcome now_ms orders s))
      ]

  pub record OnlyFills (s s' : SimEngine) (orders : List SimOrder) : Type 0 where
    pub outside : s' ≡ record s { pending_fills = s'.pending_fills }
    pub others :
        (id : String)
        → find (has_id id) orders ≡ none
        → filled id s'.pending_fills ≡ filled id s.pending_fills

  pub activate_all-OnlyFills :
      (market : String) (outcome : Outcome) (now_ms : ℤ) (orders : List SimOrder) (s : SimEngine)
      → OnlyFills s (activate_all market outcome now_ms orders s).1 orders
  unfolding activate_all
  activate_all-OnlyFills market outcome now_ms [] s = record {
    outside = refl;
    others = λ id free. refl;
  }
  activate_all-OnlyFills market outcome now_ms (o ∷ orders) s =
      let after = (submit_taker o.order_id o.order o.submitted_ms now_ms s).1 in
      let (same, kept) = submit_taker-keeps o.order_id o.order o.submitted_ms now_ms s in
      elim (Bool-cases (is_due market outcome now_ms o)) [
        | inl due ↦
            let rest = activate_all-OnlyFills market outcome now_ms orders after in
            rw due (record {
              outside =
                  rest.outside
                  ∙ ap
                      (λ (x : SimEngine). record x {
                        pending_fills =
                            (activate_all market outcome now_ms orders after).1.pending_fills;
                      })
                      same;
              others = λ id free.
                  let (ne, free_rest) = not_first id free in rest.others id free_rest ∙ kept id ne;
            })
        | inr not_due ↦
            let rest = activate_all-OnlyFills market outcome now_ms orders s in
            rw not_due (record {
              outside = rest.outside;
              others = λ id free. rest.others id (not_first id free).1;
            })
      ]
    where
      not_first :
          (id : String)
          → find (has_id id) (o ∷ orders) ≡ none
          → ((o.order_id == id) ≡ false) × (find (has_id id) orders ≡ none)
      not_first id free = elim (Bool-cases (o.order_id == id)) [
        | inl e ↦ cc (rw e at free)
        | inr e ↦ (e, rw e at free)
      ]

  -- What `activate_delayed` leaves.
  pub record Activated (market : String) (outcome : Outcome) (s s' : SimEngine) : Type 0 where
    pub resting_same : s'.resting ≡ s.resting
    pub books_same : s'.books ≡ s.books
    pub numbers_same : (s'.id_prefix ≡ s.id_prefix) × (s'.next_id ≡ s.next_id)
    pub not_delayed :
        (id : String) → find (has_id id) s.delayed ≡ none → find (has_id id) s'.delayed ≡ none
    pub others :
        (id : String)
        → find (has_id id) s.delayed ≡ none
        → filled id s'.pending_fills ≡ filled id s.pending_fills
    pub waiting :
        (book : OrderBookL2)
        → get ⦃e = book_key⦄ (market, outcome) s.books ≡ some book
        → s'.delayed ≡ keep (is_waiting market outcome book.timestamp_ms) s.delayed

  activate_at-Activated :
      (found : Option OrderBookL2) (market : String) (outcome : Outcome) (s : SimEngine)
      → get ⦃e = book_key⦄ (market, outcome) s.books ≡ found
      → Activated market outcome s (activate_at found market outcome s)
  activate_at-Activated none market outcome s e = record {
    resting_same = refl;
    books_same = refl;
    numbers_same = (refl, refl);
    not_delayed = λ id free. free;
    others = λ id free. refl;
    waiting = λ book there. cc (e, there);
  }
  activate_at-Activated (some found_book) market outcome s e =
      let emptied = record s { delayed = [] } in
      let run = activate_all-OnlyFills market outcome found_book.timestamp_ms s.delayed emptied in
      record {
        resting_same = ap (λ (x : SimEngine). x.resting) run.outside;
        books_same = ap (λ (x : SimEngine). x.books) run.outside;
        numbers_same = (
          ap (λ (x : SimEngine). x.id_prefix) run.outside,
          ap (λ (x : SimEngine). x.next_id) run.outside,
        );
        not_delayed = λ id free.
            ap (find (has_id id))
              (activate_all-remaining market outcome found_book.timestamp_ms s.delayed emptied)
            ∙ find-keep-none (is_waiting market outcome found_book.timestamp_ms) (has_id id)
                s.delayed free;
        others = run.others;
        waiting = λ book there.
            let same : found_book ≡ book = cc (sym e ∙ there) in
            rw (sym same)
              (activate_all-remaining market outcome found_book.timestamp_ms s.delayed emptied);
      }

  pub activate_delayed-Activated :
      (market : String) (outcome : Outcome) (s : SimEngine)
      → Activated market outcome s (activate_delayed market outcome s)
  unfolding activate_delayed
  activate_delayed-Activated market outcome s =
      activate_at-Activated (get ⦃e = book_key⦄ (market, outcome) s.books) market outcome s refl
