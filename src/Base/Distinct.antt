-- ===== src/Base/Distinct.antt =====
-- Dictionaries whose keys differ, as those of a `HashMap` do.
use Prim.Native.String.{String}
use mathlib.Core.Path.{◌≡◌, refl, ap}
use mathlib.Core.Logic.{inl, inr}
use mathlib.Core.Bool.{Bool, true, false}
use mathlib.Core.Option.{none, some}
use mathlib.Core.List.{[], ◌∷◌}
use native.Mathlib.Omega.{arith}
use pmkit.Base.Tests.{text_key, ◌==◌, if◌then◌else◌, Bool-cases}
use pmkit.Base.Lists.{keep}
use pmkit.Base.Dict.{
  Dict, get, insert, remove, get-insert, get-remove, insert_sorted, get-insert_sorted, sort_by_key,
  get-sort_by_key,
}
use pmkit.Base.Texts.{text_less}
use mathlib.Core.Path.{◌∙◌}

-- Keys that differ, as those of a `HashMap` do.
abbrev pub IsDistinct : {V : Type 0} → Dict String V → Type 0
IsDistinct [] = Unit
IsDistinct ((k, _) ∷ d) = (get k d ≡ none) × IsDistinct d

pub insert-IsDistinct :
    {V : Type 0} (k : String) (v : V) (d : Dict String V) → IsDistinct d → IsDistinct (insert k v d)
unfolding insert
insert-IsDistinct k v [] h = (unfold get in refl, tt)
insert-IsDistinct k v ((j, w) ∷ d) (hj, h) = elim (Bool-cases (j == k)) [
  | inl e ↦ rw e (hj, h)
  | inr e ↦ rw e (rw (get-insert k j v d, swapped j k e) hj, insert-IsDistinct k v d h)
]
  where
    swapped : (j k : String) → (j == k) ≡ false → (k == j) ≡ false
    swapped j k e = ground (arith, text_key.matches_iff j k, text_key.matches_iff k j)

pub remove-IsDistinct :
    {V : Type 0} (k : String) (d : Dict String V) → IsDistinct d → IsDistinct (remove k d)
unfolding remove
remove-IsDistinct k [] h = tt
remove-IsDistinct k ((j, w) ∷ d) (hj, h) = elim (Bool-cases (j == k)) [
  | inl e ↦ rw e (remove-IsDistinct k d h)
  | inr e ↦ rw e (rw (get-remove k j d) (free (k == j)), remove-IsDistinct k d h)
]
  where
    free : (b : Bool) → (if b then none else get j d) ≡ none
    free true = refl
    free false = hj

pub get-keep-none :
    {V : Type 0} (t : String × V → Bool) (k : String) (d : Dict String V)
    → get k d ≡ none
    → get k (keep t d) ≡ none
unfolding get
get-keep-none t k [] h = refl
get-keep-none t k ((j, w) ∷ d) h = elim (Bool-cases (j == k)) [
  | inl e ↦ cc (rw e at h)
  | inr e ↦ elim (Bool-cases (t (j, w))) [
    | inl y ↦ rw (y, e) (get-keep-none t k d (rw e at h))
    | inr n ↦ rw n (get-keep-none t k d (rw e at h))
  ]
]

-- An entry that the test keeps is still there, one that it drops is gone.
pub get-keep :
    {V : Type 0} (t : String × V → Bool) (k : String) (d : Dict String V) (v : V)
    → IsDistinct d
    → get k d ≡ some v
    → get k (keep t d) ≡ (if t (k, v) then some v else none)
unfolding get
get-keep t k [] v u h = cc h
get-keep t k ((j, w) ∷ d) v (free, u) h = elim (Bool-cases (j == k)) [
  | inl e ↦
      let key : j ≡ k = (text_key.matches_iff j k).0 e in
      let val : w ≡ v = cc (rw e at h) in
      elim (Bool-cases (t (k, v))) [
        | inl y ↦ let kept : t (j, w) ≡ true = rw (key, val) y in rw (kept, y, e) (ap some val)
        | inr n ↦
            let gone : t (j, w) ≡ false = rw (key, val) n in
            rw (gone, n) (get-keep-none t k d (rw key at free))
      ]
  | inr e ↦ elim (Bool-cases (t (j, w))) [
    | inl y ↦ rw (y, e) (get-keep t k d v u (rw e at h))
    | inr n ↦ rw n (get-keep t k d v u (rw e at h))
  ]
]

pub keep-IsDistinct :
    {V : Type 0} (t : String × V → Bool) (d : Dict String V) → IsDistinct d → IsDistinct (keep t d)
keep-IsDistinct t [] u = tt
keep-IsDistinct t ((j, w) ∷ d) (free, u) = elim (Bool-cases (t (j, w))) [
  | inl y ↦ rw y (get-keep-none t j d free, keep-IsDistinct t d u)
  | inr n ↦ rw n (keep-IsDistinct t d u)
]

insert_sorted-IsDistinct :
    {V : Type 0} (k : String) (v : V) (d : Dict String V)
    → get k d ≡ none
    → IsDistinct d
    → IsDistinct (insert_sorted k v d)
unfolding insert_sorted get
insert_sorted-IsDistinct k v [] free h = (refl, tt)
insert_sorted-IsDistinct k v ((j, w) ∷ d) free (hj, h) = elim (Bool-cases (j == k)) [
  | inl same ↦ cc (rw same at free)
  | inr differ ↦
      let rest : get k d ≡ none = rw differ at free in
      elim (Bool-cases (text_less j k)) [
        | inl less ↦ rw less (
          rw (get-insert_sorted k j v d, swapped j k differ) hj,
          insert_sorted-IsDistinct k v d rest h,
        )
        | inr less ↦ rw less (free, (hj, h))
      ]
]
  where
    swapped : (j k : String) → (j == k) ≡ false → (k == j) ≡ false
    swapped j k e = ground (arith, text_key.matches_iff j k, text_key.matches_iff k j)

pub sort_by_key-IsDistinct :
    {V : Type 0} (d : Dict String V) → IsDistinct d → IsDistinct (sort_by_key d)
unfolding sort_by_key
sort_by_key-IsDistinct [] h = tt
sort_by_key-IsDistinct ((k, v) ∷ d) (free, h) =
    insert_sorted-IsDistinct k v (sort_by_key d) (get-sort_by_key k d ∙ free)
      (sort_by_key-IsDistinct d h)
