-- ===== src/Base/Dict.antt =====
-- A map with `insert`, `get`, `remove` and the order in which its keys came in. The order in which
-- a `HashMap` is iterated is not specified; the code that iterates sorts or sums what it reads.
use Prim.Native.String.{String}
use pmkit.Base.Texts.{text_less, text_less→ne}
use pmkit.Base.Tests.{text_key, Key, ◌==◌, if◌then◌else◌}
use mathlib.Core.Path.{◌≡◌, refl}
use mathlib.Core.Bool.{Bool, true, false}
use mathlib.Core.Option.{Option, none, some}
use mathlib.Core.List.{List, [], ◌∷◌}
use native.Mathlib.Omega.{arith}

abbrev pub Dict {ℓ κ} : Type ℓ → Type κ → Type (ℓ ⊔ κ)
Dict K V = List (K × V)

module _ {ℓ κ} {K : Type ℓ} {V : Type κ} ⦃e : Key K⦄ where
  unfoldable pub get : K → Dict K V → Option V
  get k [] = none
  get k ((j, v) ∷ d) = if j == k then some v else get k d

  unfoldable pub insert : K → V → Dict K V → Dict K V
  insert k v [] = (k, v) ∷ []
  insert k v ((j, w) ∷ d) = let rest = insert k v d in if j == k then (j, v) ∷ d else (j, w) ∷ rest

  unfoldable pub remove : K → Dict K V → Dict K V
  remove k [] = []
  remove k ((j, v) ∷ d) = let rest = remove k d in if j == k then rest else (j, v) ∷ rest

  unfoldable pub contains_key : K → Dict K V → Bool
  unfolding get
  contains_key k d = elim (get k d) [ none ↦ false | some _ ↦ true ]

  pub get-insert :
      (k j : K) (v : V) (d : Dict K V) → get j (insert k v d) ≡ (if k == j then some v else get j d)
  unfolding get insert
  get-insert k j v [] = refl
  get-insert k j v ((i, w) ∷ d) =
      ground (arith, e.matches_iff k j, e.matches_iff i k, e.matches_iff i j, get-insert k j v d)

  pub get-remove :
      (k j : K) (d : Dict K V) → get j (remove k d) ≡ (if k == j then none else get j d)
  unfolding get remove
  get-remove k j [] = ground arith
  get-remove k j ((i, w) ∷ d) =
      ground (arith, e.matches_iff k j, e.matches_iff i k, e.matches_iff i j, get-remove k j d)

-- `into_iter().collect()` and `sort_by_key` on the name, which is stable.
module _ {ℓ} {V : Type ℓ} where
  unfoldable pub insert_sorted : String → V → Dict String V → Dict String V
  insert_sorted k v [] = (k, v) ∷ []
  insert_sorted k v ((j, w) ∷ d) =
      let rest = insert_sorted k v d in if text_less j k then (j, w) ∷ rest else (k, v) ∷ (j, w) ∷ d

  unfoldable pub sort_by_key : Dict String V → Dict String V
  unfolding insert_sorted
  sort_by_key [] = []
  sort_by_key ((k, v) ∷ d) = insert_sorted k v (sort_by_key d)

  pub get-insert_sorted :
      (k j : String) (v : V) (d : Dict String V)
      → get j (insert_sorted k v d) ≡ (if k == j then some v else get j d)
  unfolding get insert_sorted
  get-insert_sorted k j v [] = refl
  get-insert_sorted k j v ((i, w) ∷ d) = ground (
    arith,
    text_less→ne i k,
    text_key.matches_iff k j,
    text_key.matches_iff i k,
    text_key.matches_iff i j,
    get-insert_sorted k j v d,
  )

  -- Sorting changes no entry.
  pub get-sort_by_key : (j : String) (d : Dict String V) → get j (sort_by_key d) ≡ get j d
  unfolding get sort_by_key
  get-sort_by_key j [] = refl
  get-sort_by_key j ((k, v) ∷ d) = rw (get-insert_sorted k j v (sort_by_key d), get-sort_by_key j d)
