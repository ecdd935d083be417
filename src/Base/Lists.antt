-- ===== src/Base/Lists.antt =====
-- Lists over the native numbers, and predicates on lists by recursion.
use Prim.Native.Nat.{ℕ, suc, ◌+◌}
use mathlib.Core.Path.{◌≡◌, refl, ap}
use mathlib.Core.Logic.{inl, inr}
use mathlib.Core.Bool.{Bool, true, false}
use mathlib.Core.Option.{Option, none, some}
use mathlib.Core.List.{List, [], ◌∷◌, ◌++◌}
use native.Mathlib.Omega.{arith}
use pmkit.Base.Tests.{if◌then◌else◌, Bool-cases}

module _ {ℓ} {A : Type ℓ} where
  abbrev pub length : List A → ℕ
  length [] = 0
  length (x ∷ xs) = suc (length xs)

  -- `iter().find(p)`.
  abbrev pub find : (A → Bool) → List A → Option A
  find p [] = none
  find p (x ∷ xs) = if p x then some x else find p xs

  -- `iter().filter(p)`, and `retain(p)`.
  abbrev pub keep : (A → Bool) → List A → List A
  keep p [] = []
  keep p (x ∷ xs) = let rest = keep p xs in if p x then x ∷ rest else rest

  -- `iter_mut().find(p)` with a write through the reference that it returns.
  abbrev pub update_first : (A → Bool) → (A → A) → List A → List A
  update_first p f [] = []
  update_first p f (x ∷ xs) = let rest = update_first p f xs in if p x then f x ∷ xs else x ∷ rest

  pub length-append : (xs ys : List A) → length (xs ++ ys) ≡ length xs + length ys
  length-append [] ys = omega arith
  length-append (x ∷ xs) ys = omega (arith, length-append xs ys)

  abbrev pub map_found : (A → A) → Option A → Option A
  map_found f none = none
  map_found f (some x) = some (f x)

  pub find-update_first_self :
      (t : A → Bool) (f : A → A) (xs : List A)
      → ((x : A) → t (f x) ≡ t x)
      → find t (update_first t f xs) ≡ map_found f (find t xs)
  find-update_first_self t f [] h = refl
  find-update_first_self t f (x ∷ xs) h = elim (Bool-cases (t x)) [
    | inl e ↦ rw (e, h x, e)
    | inr e ↦ rw (e, e) (find-update_first_self t f xs h)
  ]

  pub find-update_first_other :
      (t u : A → Bool) (f : A → A) (xs : List A)
      → ((x : A) → u (f x) ≡ u x)
      → ((x : A) → t x ≡ true → u x ≡ false)
      → find u (update_first t f xs) ≡ find u xs
  find-update_first_other t u f [] h d = refl
  find-update_first_other t u f (x ∷ xs) h d = elim (Bool-cases (t x)) [
    | inl e ↦ rw (e, h x, d x e)
    | inr e ↦ rw e (ap (λ r. if u x then some x else r) (find-update_first_other t u f xs h d))
  ]

  pub find-update_first-none :
      (t u : A → Bool) (f : A → A) (xs : List A)
      → ((x : A) → u (f x) ≡ u x)
      → find u xs ≡ none
      → find u (update_first t f xs) ≡ none
  find-update_first-none t u f [] h e = refl
  find-update_first-none t u f (x ∷ xs) h e = elim (Bool-cases (u x)) [
    | inl ux ↦ cc (rw ux at e)
    | inr ux ↦ elim (Bool-cases (t x)) [
      | inl tx ↦ rw (tx, h x, ux) (rw ux at e)
      | inr tx ↦ rw (tx, ux) (find-update_first-none t u f xs h (rw ux at e))
    ]
  ]

  pub find-keep-none : (t u : A → Bool) (xs : List A) → find u xs ≡ none → find u (keep t xs) ≡ none
  find-keep-none t u [] e = refl
  find-keep-none t u (x ∷ xs) e = elim (Bool-cases (u x)) [
    | inl ux ↦ cc (rw ux at e)
    | inr ux ↦ elim (Bool-cases (t x)) [
      | inl tx ↦ rw (tx, ux) (find-keep-none t u xs (rw ux at e))
      | inr tx ↦ rw tx (find-keep-none t u xs (rw ux at e))
    ]
  ]

  pub update_first-none :
      (t : A → Bool) (f : A → A) (xs : List A) → find t xs ≡ none → update_first t f xs ≡ xs
  update_first-none t f [] e = refl
  update_first-none t f (x ∷ xs) e = elim (Bool-cases (t x)) [
    | inl tx ↦ cc (rw tx at e)
    | inr tx ↦ rw tx (ap (λ r. x ∷ r) (update_first-none t f xs (rw tx at e)))
  ]

  pub find-append_none :
      (t : A → Bool) (xs ys : List A) → find t xs ≡ none → find t (xs ++ ys) ≡ find t ys
  find-append_none t [] ys h = refl
  find-append_none t (x ∷ xs) ys h = elim (Bool-cases (t x)) [
    | inl e ↦ cc (rw e at h)
    | inr e ↦ rw e (find-append_none t xs ys (rw e at h))
  ]

  pub find-append_some :
      (t : A → Bool) (xs ys : List A) (a : A) → find t xs ≡ some a → find t (xs ++ ys) ≡ some a
  find-append_some t [] ys a h = cc
  find-append_some t (x ∷ xs) ys a h = elim (Bool-cases (t x)) [
    | inl e ↦ rw e (rw e at h)
    | inr e ↦ rw e (find-append_some t xs ys a (rw e at h))
  ]

  -- What is found passes the test.
  pub find_sound : (t : A → Bool) (xs : List A) (a : A) → find t xs ≡ some a → t a ≡ true
  find_sound t [] a h = cc
  find_sound t (x ∷ xs) a h = elim (Bool-cases (t x)) [
    | inl e ↦ ground (arith, e)
    | inr e ↦ find_sound t xs a (rw e at h)
  ]
