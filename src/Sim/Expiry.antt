-- ===== src/Sim/Expiry.antt =====
-- What a new book means for an order that rests (crates/pmkit-sim/src/lib.rs, `update_book`).
use pmkit.Base.Distinct.{get-keep, get-keep-none, keep-IsDistinct}
use pmkit.Decimals.{dec_laws, Decimals}
use pmkit.Sim.Activation.{is_waiting, activate_delayed-Activated}
use pmkit.Sim.Loops.{IsOrderly, check_fills-Keeps}
use pmkit.Base.Dict.{get-insert, get, insert}
use pmkit.Base.{
  false, ==-refl, Bool, [], ◌∷◌, not, List, inl, true, keep, find-keep-none, some, sym, Option,
  Bool-cases, refl, inr, text_key, ◌≡◌, find, String, ◌∙◌, ap, none,
}
use pmkit.Sim.Engine.{is_live, value_is_live, expire_orders}
use pmkit.Domain.{Outcome}
use pmkit.Sim.Fills.{open_qty, open_of, filled, placed_qty}
use pmkit.Sim.Updates.{
  check_fills, is_due, check_resting_fills, activate_delayed, update_book, has_id,
}
use pmkit.Sim.Events.{SimOrder, SimEngine, book_key}
use pmkit.Book.{OrderBookL2}

module _ ⦃D : Decimals⦄ where
  open D use {Decimal, dec_zero, add, sub}

  -- The state when `update_book` has stored the book and dropped the orders that are past.
  abbrev stored : String → Outcome → OrderBookL2 → SimEngine → SimEngine
  stored market outcome book s =
      expire_orders market outcome book.timestamp_ms
        (record s { books = insert ⦃e = book_key⦄ (market, outcome) book s.books })

  -- The two loops of `update_book` after that.
  record Settled (s s' : SimEngine) : Type 0 where
    orderly : IsOrderly s'.resting
    absent : (id : String) → get id s.resting ≡ none → get id s'.resting ≡ none
    numbers_same : (s'.id_prefix ≡ s.id_prefix) × (s'.next_id ≡ s.next_id)
    still_not_delayed :
        (id : String) → find (has_id id) s.delayed ≡ none → find (has_id id) s'.delayed ≡ none
    conserved :
        (id : String) → find (has_id id) s.delayed ≡ none → placed_qty id s' ≡ placed_qty id s

  loops-Settled :
      (market : String) (outcome : Outcome) (s : SimEngine)
      → IsOrderly s.resting
      → Settled s (check_resting_fills market outcome (activate_delayed market outcome s))
  unfolding check_resting_fills
  loops-Settled market outcome s h =
      let active = activate_delayed market outcome s in
      let a = activate_delayed-Activated market outcome s in
      let k =
        check_fills-Keeps (get ⦃e = book_key⦄ (market, outcome) active.books) market outcome active
          (rw a.resting_same h) in
      record {
        orderly = k.orderly;
        absent = λ id free. k.absent id (rw a.resting_same free);
        numbers_same = (
          ap (λ (x : SimEngine). x.id_prefix) k.outside ∙ a.numbers_same.0,
          ap (λ (x : SimEngine). x.next_id) k.outside ∙ a.numbers_same.1,
        );
        still_not_delayed = λ id free.
            ap (λ (x : SimEngine). find (has_id id) x.delayed) k.outside ∙ a.not_delayed id free;
        conserved = λ id free.
            k.conserved id
            ∙ ap (λ q. add q (filled id active.pending_fills))
                (ap (λ r. open_of (get id r)) a.resting_same)
            ∙ ap (add (open_qty id s)) (a.others id free);
      }

  stored-IsOrderly :
      (market : String) (outcome : Outcome) (book : OrderBookL2) (s : SimEngine)
      → IsOrderly s.resting
      → IsOrderly (stored market outcome book s).resting
  unfolding expire_orders
  stored-IsOrderly market outcome book s h = record {
    keyed = λ k o there. h.keyed k o (still k (get k s.resting) o refl there);
    distinct =
        keep-IsDistinct (value_is_live market outcome book.timestamp_ms) s.resting h.distinct;
  }
    where
      still :
          (k : String) (before : Option SimOrder) (o : SimOrder)
          → get k s.resting ≡ before
          → get k (keep (value_is_live market outcome book.timestamp_ms) s.resting) ≡ some o
          → get k s.resting ≡ some o
      still k none o e there =
          cc (there, get-keep-none (value_is_live market outcome book.timestamp_ms) k s.resting e)
      still k (some v) o e there =
          let kept =
            get-keep (value_is_live market outcome book.timestamp_ms) k s.resting v h.distinct e in
          elim (Bool-cases (is_live market outcome book.timestamp_ms v)) [
            | inl y ↦ e ∙ sym (rw y at kept) ∙ there
            | inr n ↦ cc (rw n at kept, there)
          ]

  update_book-Settled :
      (market : String) (outcome : Outcome) (book : OrderBookL2) (s : SimEngine)
      → IsOrderly s.resting
      → Settled (stored market outcome book s) (update_book market outcome book s)
  unfolding update_book
  update_book-Settled market outcome book s h =
      loops-Settled market outcome (stored market outcome book s)
        (stored-IsOrderly market outcome book s h)

  not_delayed :
      (market : String) (outcome : Outcome) (book : OrderBookL2) (s : SimEngine) (id : String)
      → find (has_id id) s.delayed ≡ none
      → find (has_id id) (stored market outcome book s).delayed ≡ none
  unfolding expire_orders
  not_delayed market outcome book s id free =
      find-keep-none (is_live market outcome book.timestamp_ms) (has_id id) s.delayed free

  -- A new book leaves the orders that rest under keys that differ and are the orders' identities;
  -- what is open of an order that rests and is not past at the book's time, and what is filled of
  -- it, still add up to the same quantity.
  pub update_book-placed_qty :
      (market : String) (outcome : Outcome) (book : OrderBookL2) (s : SimEngine)
      → IsOrderly s.resting
      → IsOrderly (update_book market outcome book s).resting
        × ((id : String) (o : SimOrder)
            → get id s.resting ≡ some o
            → find (has_id id) s.delayed ≡ none
            → is_live market outcome book.timestamp_ms o ≡ true
            → placed_qty id (update_book market outcome book s) ≡ placed_qty id s)
  unfolding expire_orders
  update_book-placed_qty market outcome book s h =
      let after = update_book-Settled market outcome book s h in
      (
        after.orderly,
        λ id o there free alive.
            let kept =
              get-keep (value_is_live market outcome book.timestamp_ms) id s.resting o h.distinct
                there in
            after.conserved id (not_delayed market outcome book s id free)
            ∙ ap (λ f. add (open_of f) (filled id s.pending_fills))
                ((rw alive at kept) ∙ sym there),
      )

  -- An order that rests and is past at the time of a new book of its market is gone after it, and
  -- the book fills nothing of it.
  pub update_book-expired :
      (market : String) (outcome : Outcome) (book : OrderBookL2) (s : SimEngine) (id : String)
      (o : SimOrder)
      → IsOrderly s.resting
      → get id s.resting ≡ some o
      → find (has_id id) s.delayed ≡ none
      → is_live market outcome book.timestamp_ms o ≡ false
      → let s' = update_book market outcome book s in
        (get id s'.resting ≡ none) × (filled id s'.pending_fills ≡ filled id s.pending_fills)
  unfolding expire_orders
  update_book-expired market outcome book s id o h there free past =
      let after = update_book-Settled market outcome book s h in
      let s' = update_book market outcome book s in
      let kept =
        get-keep (value_is_live market outcome book.timestamp_ms) id s.resting o h.distinct there in
      let gone : get id (stored market outcome book s).resting ≡ none = rw past at kept in
      let gone_after = after.absent id gone in
      let same = after.conserved id (not_delayed market outcome book s id free) in
      let none_left : open_qty id s' ≡ dec_zero = ap open_of gone_after in
      let none_before : open_qty id (stored market outcome book s) ≡ dec_zero = ap open_of gone in
      (gone_after, omega (dec_laws, none_left, none_before, same))

  check_fills-delayed :
      (found : Option OrderBookL2) (market : String) (outcome : Outcome) (s : SimEngine)
      → IsOrderly s.resting
      → (check_fills found market outcome s).delayed ≡ s.delayed
  check_fills-delayed found market outcome s h =
      ap (λ (x : SimEngine). x.delayed) (check_fills-Keeps found market outcome s h).outside

  -- The orders that a new book leaves delayed are those that are neither past nor due at its time,
  -- or of another market; so an order of the book's market whose activation time has come is not
  -- delayed any more.
  pub update_book-delayed :
      (market : String) (outcome : Outcome) (book : OrderBookL2) (s : SimEngine)
      → IsOrderly s.resting
      → let s' = update_book market outcome book s in
        (s'.delayed
          ≡ keep
              (is_waiting market outcome book.timestamp_ms)
              (keep (is_live market outcome book.timestamp_ms) s.delayed))
        × (find (is_due market outcome book.timestamp_ms) s'.delayed ≡ none)
  unfolding update_book check_resting_fills expire_orders
  update_book-delayed market outcome book s h =
      let start = stored market outcome book s in
      let active = activate_delayed market outcome start in
      let a = activate_delayed-Activated market outcome start in
      let left : (update_book market outcome book s).delayed
          ≡ keep (is_waiting market outcome book.timestamp_ms)
              (keep (is_live market outcome book.timestamp_ms) s.delayed) =
        check_fills-delayed (get ⦃e = book_key⦄ (market, outcome) active.books) market outcome
          active (rw a.resting_same (stored-IsOrderly market outcome book s h))
        ∙ a.waiting book stored_book in
      (
        left,
        ap (find (is_due market outcome book.timestamp_ms)) left
            ∙ none_due (is_due market outcome book.timestamp_ms)
                (keep (is_live market outcome book.timestamp_ms) s.delayed),
      )
    where
      stored_book :
          get ⦃e = book_key⦄
            (market, outcome)
            (insert ⦃e = book_key⦄ (market, outcome) book s.books)
          ≡ some book
      stored_book =
          get-insert ⦃e = book_key⦄ (market, outcome) (market, outcome) book s.books
          ∙ rw (==-refl ⦃key = book_key⦄ (market, outcome)) refl

      none_due :
          (t : SimOrder → Bool) (orders : List SimOrder)
          → find t (keep (λ o. not (t o)) orders) ≡ none
      none_due t [] = refl
      none_due t (o ∷ orders) = elim (Bool-cases (t o)) [
        | inl y ↦ rw y (none_due t orders)
        | inr n ↦ rw (n, n) (none_due t orders)
      ]

  -- What a new book leaves of the numbers and of the orders, however much it fills.
  pub update_book-bookkeeping :
      (market : String) (outcome : Outcome) (book : OrderBookL2) (s : SimEngine)
      → IsOrderly s.resting
      → let s' = update_book market outcome book s in
        IsOrderly s'.resting
        × ((s'.id_prefix ≡ s.id_prefix) × (s'.next_id ≡ s.next_id))
        × ((id : String) → get id s.resting ≡ none → get id s'.resting ≡ none)
        × ((id : String) → find (has_id id) s.delayed ≡ none → find (has_id id) s'.delayed ≡ none)
  unfolding expire_orders
  update_book-bookkeeping market outcome book s h =
      let after = update_book-Settled market outcome book s h in
      (
        after.orderly,
        after.numbers_same,
        λ id free.
            after.absent id
              (get-keep-none (value_is_live market outcome book.timestamp_ms) id s.resting free),
        λ id free. after.still_not_delayed id (not_delayed market outcome book s id free),
      )
