-- ===== src/Accounting/Marks.antt =====
-- Marking to market: `unrealized_pnl` and `equity` of crates/pmkit-accounting/src/lib.rs.
use pmkit.Accounting.Exposure.{total}
use pmkit.Accounting.{
  sum, equity, PortfolioLedger, unrealized_pnl, Mark, unrealized_at, LedgerPosition, value_at,
  sum_from, is_mark_of,
}
use pmkit.Accounting.Balance.{book_value}
use pmkit.Base.{List, some, ◌∷◌, find, ◌≢◌, refl, Option, none, map, [], ◌≡◌}
use pmkit.Accounting.Positions.{cost, basis}
use pmkit.Decimals.{IsUnrounded, sub-mul, dec_laws, Decimals}

module _ ⦃D : Decimals⦄ where
  open D use {Decimal, dec_zero, add, sub, mul}

  -- Every position has a mark.
  abbrev pub IsMarked : List Mark → List LedgerPosition → Type 0
  IsMarked marks [] = Unit
  IsMarked marks (p ∷ ps) = (find (is_mark_of p) marks ≢ none) × IsMarked marks ps

  -- The products of a position with its average and with its mark need no rounding.
  abbrev pub IsExactMark : LedgerPosition → Option Mark → Type 0
  IsExactMark p none = Unit
  IsExactMark p (some m) = IsUnrounded m.price p.quantity × IsUnrounded p.average_entry p.quantity

  abbrev pub AreExactMarks : List Mark → List LedgerPosition → Type 0
  AreExactMarks marks [] = Unit
  AreExactMarks marks (p ∷ ps) = IsExactMark p (find (is_mark_of p) marks) × AreExactMarks marks ps

  sum_from-add :
      (xs : List Decimal) (total : Decimal) → sum_from total xs ≡ add total (sum_from dec_zero xs)
  unfolding sum_from
  sum_from-add [] total = omega dec_laws
  sum_from-add (x ∷ xs) total =
      omega (dec_laws, sum_from-add xs (add total x), sum_from-add xs (add dec_zero x))

  pub sum-cons : (x : Decimal) (xs : List Decimal) → sum (x ∷ xs) ≡ add x (sum xs)
  unfolding sum sum_from
  sum-cons x xs = omega (dec_laws, sum_from-add xs (add dec_zero x))

  pub sum-nil : sum [] ≡ dec_zero
  unfolding sum
  sum-nil = refl

  abbrev values : List Mark → List LedgerPosition → List Decimal
  values marks = map (λ p. value_at p (find (is_mark_of p) marks))

  abbrev profits : List Mark → List LedgerPosition → List Decimal
  profits marks = map (λ p. unrealized_at p (find (is_mark_of p) marks))

  -- The value of a marked position is what it cost with what it has gained.
  value-split :
      (p : LedgerPosition) (m : Option Mark)
      → m ≢ none
      → IsExactMark p m
      → value_at p m ≡ add (cost p) (unrealized_at p m)
  value-split p none h x = absurd (h refl)
  value-split p (some m) h (x, y) = omega (dec_laws, sub-mul m.price p.average_entry p.quantity x y)

  values-split :
      (marks : List Mark) (ps : List LedgerPosition)
      → IsMarked marks ps
      → AreExactMarks marks ps
      → sum (values marks ps) ≡ add (basis ps) (sum (profits marks ps))
  unfolding basis
  values-split marks [] h x = omega (dec_laws, sum-nil)
  values-split marks (p ∷ ps) (hp, hs) (xp, xs) = omega (
    dec_laws,
    values-split marks ps hs xs,
    value-split p (find (is_mark_of p) marks) hp xp,
    sum-cons (value_at p (find (is_mark_of p) marks)) (values marks ps),
    sum-cons (unrealized_at p (find (is_mark_of p) marks)) (profits marks ps),
  )

  -- Where every position has a mark, and the products of the positions with their averages and with
  -- their marks need no rounding, equity is the cash, what the positions cost and the profit that
  -- is not realized yet. So it is the book value less the fees, with all the profit, realized or
  -- not.
  pub equity-split :
      (marks : List Mark) (l : PortfolioLedger)
      → IsMarked marks l.positions
      → AreExactMarks marks l.positions
      → (equity marks l ≡ add (add l.cash (basis l.positions)) (unrealized_pnl marks l))
        × (equity marks l
            ≡ add (sub (book_value l) l.fees) (add l.realized_pnl (unrealized_pnl marks l)))
  unfolding equity unrealized_pnl book_value
  equity-split marks l h x = (
    omega (dec_laws, values-split marks l.positions h x),
    omega (dec_laws, values-split marks l.positions h x),
  )
