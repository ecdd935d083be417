-- ===== src/Accounting/Exposure.antt =====
-- `aggregate_exposure` of crates/pmkit-accounting/src/lib.rs: marked positions and open-order
-- reservations, in total, by market and by strategy.
use pmkit.Base.Dict.{sort_by_key, insert_sorted, get-sort_by_key, get, get-insert, Dict, insert}
use pmkit.Base.{
  foldl, text_less, ◌∙◌, ap, sym, refl, none, inr, some, ◌∷◌, ◌≡◌, Bool-cases, String, inl, Option,
  [], text_key, if◌then◌else◌, List, ◌==◌,
}
use pmkit.Decimals.{dec_laws, Decimals}

module _ ⦃D : Decimals⦄ where
  open D use {Decimal, dec_zero, add}

  pub record PositionExposure : Type 0 where
    pub market : String
    pub notional : Decimal

  pub record ExposureReservation : Type 0 where
    pub market : String
    pub strategy : String
    pub notional : Decimal

  -- The three totals while the two loops run; the two maps go from a name to a notional.
  pub record Totals : Type 0 where
    pub portfolio_notional : Decimal
    pub market_notionals : Dict String Decimal
    pub strategy_notionals : Dict String Decimal

  abbrev pub or_zero : Option Decimal → Decimal
  or_zero none = dec_zero
  or_zero (some d) = d

  -- `*map.entry(key).or_insert(Decimal::ZERO) += notional`
  unfoldable pub bump : String → Decimal → Dict String Decimal → Dict String Decimal
  bump key notional d = insert key (add (or_zero (get key d)) notional) d

  unfoldable pub add_position_exposure : Totals → PositionExposure → Totals
  unfolding bump
  add_position_exposure t p = record t {
    portfolio_notional = add t.portfolio_notional p.notional;
    market_notionals = bump p.market p.notional t.market_notionals;
  }

  unfoldable pub add_reservation : Totals → ExposureReservation → Totals
  unfolding bump
  add_reservation t r = record {
    portfolio_notional = add t.portfolio_notional r.notional;
    market_notionals = bump r.market r.notional t.market_notionals;
    strategy_notionals = bump r.strategy r.notional t.strategy_notionals;
  }

  abbrev pub no_exposure : Totals
  no_exposure = record {
    portfolio_notional = dec_zero;
    market_notionals = [];
    strategy_notionals = [];
  }

  -- The two loops of `aggregate_exposure`.
  unfoldable pub totals : List PositionExposure → List ExposureReservation → Totals
  unfolding add_position_exposure add_reservation
  totals positions reservations =
      foldl add_reservation (foldl add_position_exposure no_exposure positions) reservations

  pub record PortfolioExposure : Type 0 where
    pub portfolio_notional : Decimal
    pub market_notionals : Dict String Decimal
    pub strategy_notionals : Dict String Decimal

  unfoldable pub aggregate_exposure :
      List PositionExposure → List ExposureReservation → PortfolioExposure
  unfolding totals
  aggregate_exposure positions reservations =
      let t = totals positions reservations in
      record {
        portfolio_notional = t.portfolio_notional;
        market_notionals = sort_by_key t.market_notionals;
        strategy_notionals = sort_by_key t.strategy_notionals;
      }

  -- The sum of the values of a map.
  unfoldable pub total : Dict String Decimal → Decimal
  total [] = dec_zero
  total ((k, v) ∷ d) = add v (total d)

  total-insert :
      (k : String) (v : Decimal) (d : Dict String Decimal)
      → add (total (insert k v d)) (or_zero (get k d)) ≡ add (total d) v
  unfolding total insert get
  total-insert k v [] = omega dec_laws
  total-insert k v ((j, w) ∷ d) = elim (Bool-cases (j == k)) [
    | inl e ↦ rw e (omega dec_laws)
    | inr e ↦ rw e (omega (dec_laws, total-insert k v d))
  ]

  pub total-bump :
      (k : String) (v : Decimal) (d : Dict String Decimal) → total (bump k v d) ≡ add (total d) v
  unfolding bump
  total-bump k v d = omega (dec_laws, total-insert k (add (or_zero (get k d)) v) d)

  -- What positions and reservations of one market add up to.
  unfoldable pub market_total : String → List PositionExposure → List ExposureReservation → Decimal
  market_total m [] [] = dec_zero
  market_total m [] (r ∷ rs) =
      add (if r.market == m then r.notional else dec_zero) (market_total m [] rs)
  market_total m (p ∷ ps) rs =
      add (if p.market == m then p.notional else dec_zero) (market_total m ps rs)

  unfoldable pub strategy_total : String → List ExposureReservation → Decimal
  strategy_total s [] = dec_zero
  strategy_total s (r ∷ rs) =
      add (if r.strategy == s then r.notional else dec_zero) (strategy_total s rs)

  get-bump :
      (k j : String) (v : Decimal) (d : Dict String Decimal)
      → or_zero (get j (bump k v d)) ≡ add (or_zero (get j d)) (if k == j then v else dec_zero)
  unfolding bump
  get-bump k j v d = elim (Bool-cases (k == j)) [
    | inl e ↦ rw (get-insert k j (add (or_zero (get k d)) v) d, e, (text_key.matches_iff k j).0 e)
    | inr e ↦ rw (get-insert k j (add (or_zero (get k d)) v) d, e) (omega dec_laws)
  ]

  total-insert_sorted :
      (k : String) (v : Decimal) (d : Dict String Decimal)
      → total (insert_sorted k v d) ≡ add v (total d)
  unfolding total insert_sorted
  total-insert_sorted k v [] = refl
  total-insert_sorted k v ((j, w) ∷ d) = elim (Bool-cases (text_less j k)) [
    | inl e ↦ rw e (omega (dec_laws, total-insert_sorted k v d))
    | inr e ↦ rw e
  ]

  total-sort_by_key : (d : Dict String Decimal) → total (sort_by_key d) ≡ total d
  unfolding total sort_by_key
  total-sort_by_key [] = refl
  total-sort_by_key ((k, v) ∷ d) =
      total-insert_sorted k v (sort_by_key d) ∙ ap (add v) (total-sort_by_key d)

  -- The total so far is the sum over the markets, and stays so.
  abbrev IsBalanced : Totals → Type 0
  IsBalanced t = t.portfolio_notional ≡ total t.market_notionals

  positions-IsBalanced :
      (ps : List PositionExposure) (t : Totals)
      → IsBalanced t
      → IsBalanced (foldl add_position_exposure t ps)
  unfolding add_position_exposure
  positions-IsBalanced [] t h = h
  positions-IsBalanced (p ∷ ps) t h =
      positions-IsBalanced ps (add_position_exposure t p)
        (omega (dec_laws, total-bump p.market p.notional t.market_notionals))

  reservations-IsBalanced :
      (rs : List ExposureReservation) (t : Totals)
      → IsBalanced t
      → IsBalanced (foldl add_reservation t rs)
  unfolding add_reservation
  reservations-IsBalanced [] t h = h
  reservations-IsBalanced (r ∷ rs) t h =
      reservations-IsBalanced rs (add_reservation t r)
        (omega (dec_laws, total-bump r.market r.notional t.market_notionals))

  -- What the two loops add to the entry of a market and of a strategy.
  positions-market :
      (m : String) (ps : List PositionExposure) (t : Totals)
      → or_zero (get m (foldl add_position_exposure t ps).market_notionals)
        ≡ add (or_zero (get m t.market_notionals)) (market_total m ps [])
  unfolding add_position_exposure market_total
  positions-market m [] t = omega dec_laws
  positions-market m (p ∷ ps) t = omega (
    dec_laws,
    positions-market m ps (add_position_exposure t p),
    get-bump p.market m p.notional t.market_notionals,
  )

  positions-strategy :
      (ps : List PositionExposure) (t : Totals)
      → (foldl add_position_exposure t ps).strategy_notionals ≡ t.strategy_notionals
  unfolding add_position_exposure
  positions-strategy [] t = refl
  positions-strategy (p ∷ ps) t = positions-strategy ps (add_position_exposure t p)

  reservations-market :
      (m : String) (rs : List ExposureReservation) (t : Totals)
      → or_zero (get m (foldl add_reservation t rs).market_notionals)
        ≡ add (or_zero (get m t.market_notionals)) (market_total m [] rs)
  unfolding add_reservation market_total
  reservations-market m [] t = omega dec_laws
  reservations-market m (r ∷ rs) t = omega (
    dec_laws,
    reservations-market m rs (add_reservation t r),
    get-bump r.market m r.notional t.market_notionals,
  )

  reservations-strategy :
      (s : String) (rs : List ExposureReservation) (t : Totals)
      → or_zero (get s (foldl add_reservation t rs).strategy_notionals)
        ≡ add (or_zero (get s t.strategy_notionals)) (strategy_total s rs)
  unfolding add_reservation strategy_total
  reservations-strategy s [] t = omega dec_laws
  reservations-strategy s (r ∷ rs) t = omega (
    dec_laws,
    reservations-strategy s rs (add_reservation t r),
    get-bump r.strategy s r.notional t.strategy_notionals,
  )

  market_total-split :
      (m : String) (ps : List PositionExposure) (rs : List ExposureReservation)
      → market_total m ps rs ≡ add (market_total m ps []) (market_total m [] rs)
  unfolding market_total
  market_total-split m [] rs = omega dec_laws
  market_total-split m (p ∷ ps) rs = omega (dec_laws, market_total-split m ps rs)

  market_entry :
      (m : String) (ps : List PositionExposure) (rs : List ExposureReservation)
      → or_zero (get m (totals ps rs).market_notionals) ≡ market_total m ps rs
  unfolding totals get
  market_entry m ps rs = omega (
    dec_laws,
    reservations-market m rs (foldl add_position_exposure no_exposure ps),
    positions-market m ps no_exposure,
    market_total-split m ps rs,
  )

  strategy_entry :
      (s : String) (ps : List PositionExposure) (rs : List ExposureReservation)
      → or_zero (get s (totals ps rs).strategy_notionals) ≡ strategy_total s rs
  unfolding totals get
  strategy_entry s ps rs = omega (
    dec_laws,
    reservations-strategy s rs (foldl add_position_exposure no_exposure ps),
    ap (λ d. or_zero (get s d)) (positions-strategy ps no_exposure),
  )

  -- The entry of each market is the sum of its positions and reservations, the entry of each
  -- strategy that of its reservations, and the portfolio's notional is the sum over the markets.
  pub aggregate_exposure_lem :
      (ps : List PositionExposure) (rs : List ExposureReservation)
      → let view = aggregate_exposure ps rs in
        (view.portfolio_notional ≡ total view.market_notionals)
        × ((m : String) → or_zero (get m view.market_notionals) ≡ market_total m ps rs)
        × ((s : String) → or_zero (get s view.strategy_notionals) ≡ strategy_total s rs)
  unfolding aggregate_exposure
  aggregate_exposure_lem ps rs = (
    reservations-IsBalanced rs (foldl add_position_exposure no_exposure ps)
          (positions-IsBalanced ps no_exposure (unfold total in refl))
        ∙ sym (total-sort_by_key _),
    (λ m. rw (get-sort_by_key m (totals ps rs).market_notionals) (market_entry m ps rs)),
    (λ s. rw (get-sort_by_key s (totals ps rs).strategy_notionals) (strategy_entry s ps rs)),
  )
