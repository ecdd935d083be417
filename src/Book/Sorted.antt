-- ===== src/Book/Sorted.antt =====
-- The helpers that scan all levels, on books whose levels are sorted (crates/pmkit-book).
use pmkit.Base.{
  ◌≡◌, none, refl, ap, if◌then◌else◌, some, List, Option, Bool-cases, ◌∷◌, inr, inl, [],
}
use pmkit.Decimals.{Leq, Decimals, dec_laws, dec_eq, not_at_most→lt, at_most→le, parts_of_eq}
use pmkit.Book.{
  first, OrderBookL2, on_both, best_ask as top_ask, best_bid as top_bid, spread as top_spread,
}
use pmkit.Book.Levels.{price_of, min_level, max_level, best_ask, best_bid, spread}

module _ ⦃D : Decimals⦄ where
  open D use {Decimal, sub, at_most}

  -- Asks with the lowest price first, bids with the highest price first.
  abbrev pub IsAscending : List (Decimal × Decimal) → Type 0
  IsAscending [] = Unit
  IsAscending (level ∷ []) = Unit
  IsAscending (level ∷ next_level ∷ levels) =
      Leq level.0 next_level.0 × IsAscending (next_level ∷ levels)

  abbrev pub IsDescending : List (Decimal × Decimal) → Type 0
  IsDescending [] = Unit
  IsDescending (level ∷ []) = Unit
  IsDescending (level ∷ next_level ∷ levels) =
      Leq next_level.0 level.0 × IsDescending (next_level ∷ levels)

  min_level-first :
      (levels : List (Decimal × Decimal))
      → IsAscending levels
      → price_of (min_level levels) ≡ price_of (first levels)
  unfolding min_level
  min_level-first [] h = refl
  min_level-first (level ∷ []) h = refl
  min_level-first (level ∷ next_level ∷ levels) (below, h) =
      chosen (min_level (next_level ∷ levels)) (min_level-first (next_level ∷ levels) h)
    where
      chosen :
          (found : Option (Decimal × Decimal))
          → price_of found ≡ some next_level.0
          → price_of (elim found [
            | none ↦ some level
            | some o ↦ if at_most level.0 o.0 then some level else some o
          ])
            ≡ some level.0
      chosen none e = refl
      chosen (some o) e = elim (Bool-cases (at_most level.0 o.0)) [
        | inl y ↦ rw y refl
        | inr n ↦ rw n (
            ap some (
              dec_eq o.0 level.0 (
                omega (
                  dec_laws,
                  below,
                  not_at_most→lt level.0 o.0 n,
                  parts_of_eq o.0 next_level.0 (cc e),
                ))))
      ]

  max_level-first :
      (levels : List (Decimal × Decimal))
      → IsDescending levels
      → price_of (max_level levels) ≡ price_of (first levels)
  unfolding max_level
  max_level-first [] h = refl
  max_level-first (level ∷ []) h = refl
  max_level-first (level ∷ next_level ∷ levels) (below, h) =
      chosen (max_level (next_level ∷ levels)) (max_level-first (next_level ∷ levels) h)
    where
      chosen :
          (found : Option (Decimal × Decimal))
          → price_of found ≡ some next_level.0
          → price_of (elim found [
            | none ↦ some level
            | some o ↦ if at_most level.0 o.0 then some o else some level
          ])
            ≡ some level.0
      chosen none e = refl
      chosen (some o) e = elim (Bool-cases (at_most level.0 o.0)) [
        | inl y ↦ rw y (
            ap some (
              dec_eq o.0 level.0 (
                omega (
                  dec_laws,
                  below,
                  at_most→le level.0 o.0 y,
                  parts_of_eq o.0 next_level.0 (cc e),
                ))))
        | inr n ↦ rw n refl
      ]

  on_both_prices :
      (f : Decimal → Decimal → Decimal) (b b' a a' : Option (Decimal × Decimal))
      → price_of b ≡ price_of b'
      → price_of a ≡ price_of a'
      → on_both f b a ≡ on_both f b' a'
  on_both_prices f none none a a' e h = refl
  on_both_prices f none (some _) a a' e h = cc e
  on_both_prices f (some _) none a a' e h = cc e
  on_both_prices f (some _) (some _) none none e h = refl
  on_both_prices f (some _) (some _) none (some _) e h = cc h
  on_both_prices f (some _) (some _) (some _) none e h = cc h
  on_both_prices f (some b) (some b') (some a) (some a') e h = cc (e, h)

  -- On a book with its best levels first, the helpers that scan all levels
  -- and the methods that read the first level give the same best prices and the same spread.
  pub best_levels_agree :
      (book : OrderBookL2)
      → IsAscending book.asks
      → IsDescending book.bids
      → (best_ask book ≡ price_of (top_ask book))
        × (best_bid book ≡ price_of (top_bid book))
        × (spread book ≡ top_spread book)
  unfolding best_ask best_bid spread top_ask top_bid top_spread
  best_levels_agree book asks bids =
      let a = min_level-first book.asks asks in
      let b = max_level-first book.bids bids in
      (a, b, on_both_prices (λ bid ask. sub ask bid) _ _ _ _ b a)
