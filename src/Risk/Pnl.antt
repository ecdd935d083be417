-- ===== src/Risk/Pnl.antt =====
-- The profit and loss that `refresh_marks` gives and the one that `daily_pnl` reads back
-- (crates/pmkit/src/live_risk.rs).
use pmkit.Live.Admission.{RiskLimits}
use pmkit.Book.{Position}
use pmkit.Risk.Updates.{pnl_of_markets, daily_pnl, pnl_of_list}
use pmkit.Base.Dict.{Dict, get, contains_key}
use pmkit.Decimals.{parts_of_eq, not_at_most→lt, dec_laws, Leq, at_most→le, is_zero, Decimals}
use pmkit.Risk.State.{
  LiveRiskState, net_pnl, refresh_marks, is_breach, mark_markets, mark_positions, mark_list, Marks,
}
use pmkit.Base.{
  ◌⊎◌, ◌||◌, some, ap, true, arith, Option, ◌∙◌, ◌↔◌, none, Bool, inl, Bool-cases, ◌≡◌, inr, ◌∷◌,
  List, Option-cases, refl, [], String,
}
use pmkit.Sim.Events.{book_key}

module _ ⦃D : Decimals⦄ where
  open D use {Decimal, dec_zero, add, sub, mul, neg, at_most}

  mark_list-pnl :
      (marks : Marks) (market : String) (positions : List Position) (so_far : Decimal)
      → let (positions', found) = mark_list marks market positions so_far in
        pnl_of_list marks market positions' so_far ≡ found
  unfolding mark_list pnl_of_list contains_key
  mark_list-pnl marks market [] so_far = refl
  mark_list-pnl marks market (p ∷ positions) so_far = elim (Bool-cases (is_zero p.qty)) [
    | inl z ↦ rw (z, mark_list, pnl_of_list) (rw z (mark_list-pnl marks market positions so_far))
    | inr nz ↦ elim (Option-cases (get ⦃e = book_key⦄ (market, p.outcome) marks)) [
      | inl gone ↦ rw (nz, gone, mark_list, pnl_of_list) (rw (nz, gone, contains_key) refl)
      | inr (mark, there) ↦
          rw (nz, there, mark_list, pnl_of_list)
            (rw (nz, there, contains_key)
              (mark_list-pnl marks market positions
                (add so_far (mul p.qty (sub mark p.avg_entry)))))
    ]
  ]

  mark_markets-pnl :
      (marks : Marks) (d : Dict String (List Position)) (so_far : Decimal)
      → let (d', found) = mark_markets marks d so_far in pnl_of_markets marks d' so_far ≡ found
  unfolding mark_markets pnl_of_markets
  mark_markets-pnl marks [] so_far = refl
  mark_markets-pnl marks ((market, positions) ∷ d) so_far =
      let here = mark_list-pnl marks market positions so_far in
      elim (Option-cases (mark_list marks market positions so_far).1) [
        | inl gone ↦ rw (gone, mark_markets, pnl_of_markets) (rw (here ∙ gone) refl)
        | inr (after, there) ↦
            rw (there, mark_markets, pnl_of_markets)
              (rw (here ∙ there) (mark_markets-pnl marks d after))
      ]

  -- Whatever the positions and the marks are, `daily_pnl` reads back after a refresh exactly what
  -- the refresh gave, none included, and the loss is marked as breached exactly when it was before
  -- or that profit and loss is at most the negated limit.
  pub refresh_marks-daily_pnl :
      (limits : RiskLimits) (s : LiveRiskState)
      → let (given, s') = refresh_marks limits s in
        (daily_pnl s' ≡ given)
        × ((s'.loss_breached ≡ true) ↔ (
            (s.loss_breached ≡ true)
            ⊎ ((pnl : Decimal) × (given ≡ some pnl) × Leq pnl (neg limits.max_loss))))
  unfolding refresh_marks mark_positions daily_pnl
  refresh_marks-daily_pnl limits s =
      let read = mark_markets-pnl s.marks s.positions_by_market dec_zero in
      (
        ap (net_pnl s) read,
        breached (net_pnl s (mark_positions s.positions_by_market s.marks).1) s.loss_breached,
      )
    where
      breached :
          (given : Option Decimal) (b : Bool)
          → ((is_breach given limits || b) ≡ true)
            ↔ ((b ≡ true) ⊎ ((pnl : Decimal) × (given ≡ some pnl) × Leq pnl (neg limits.max_loss)))
      breached none b = (λ h. inl h, λ h. elim h [ inl y ↦ y | inr (pnl, e, _) ↦ cc e ])
      breached (some pnl) b = (
        λ h. elim (Bool-cases (at_most pnl (neg limits.max_loss))) [
          | inl y ↦ inr (pnl, refl, at_most→le pnl (neg limits.max_loss) y)
          | inr n ↦ inl (rw n at h)
        ],
        λ h. elim h [
          | inl y ↦ ground (arith, y)
          | inr (low, e, below) ↦ elim (Bool-cases (at_most pnl (neg limits.max_loss))) [
            | inl y ↦ rw y refl
            | inr n ↦ absurd (
                omega (
                  dec_laws,
                  not_at_most→lt pnl (neg limits.max_loss) n,
                  parts_of_eq pnl low (cc e),
                  below,
                ))
          ]
        ],
      )
