-- ===== src/Base/Replies.antt =====
-- Methods that change `self` and may fail. A method that returns `Err` keeps what it has written so
-- far, so the state comes back beside the error too. `panic` is a panic of the Rust code, after
-- which the state is not looked at again.
use mathlib.Core.Path.{◌≡◌, refl, ap}
use mathlib.Core.Option.{Option, none, some}
use mathlib.Core.Bool.{Bool}
use mathlib.Core.Logic.{◌⊎◌, inl, inr}
use pmkit.Base.Tests.{if◌then◌else◌}

pub data Reply {ℓ κ} (E : Type ℓ) (A : Type κ) : Type (ℓ ⊔ κ) where
  ok : A → Reply E A
  err : E → Reply E A
  panic : Reply E A

-- `Result::map_err`, as `?` applies it by `From`.
abbrev pub map_err {ℓ} : {E F A : Type ℓ} → (E → F) → Reply E A → Reply F A
map_err f (ok a) = ok a
map_err f (err e) = err (f e)
map_err f panic = panic

-- `Result::map`
abbrev pub map_ok {ℓ} : {E A B : Type ℓ} → (A → B) → Reply E A → Reply E B
map_ok f (ok a) = ok (f a)
map_ok f (err e) = err e
map_ok f panic = panic

abbrev pub Method {ℓ} : Type ℓ → Type ℓ → Type ℓ → Type ℓ
Method S E A = S → Reply E A × S

module _ {ℓ} {S E A : Type ℓ} where
  abbrev pub pure : A → Method S E A
  pure a s = (ok a, s)

  abbrev pub raise : E → Method S E A
  raise e s = (err e, s)

  abbrev pub lift : Reply E A → Method S E A
  lift r s = (r, s)

  abbrev pub gets : (S → A) → Method S E A
  gets f s = (ok (f s), s)

  abbrev pub or_raise : Option A → E → Method S E A
  or_raise none e = raise e
  or_raise (some a) _ = pure a

module _ {ℓ} {S E A B : Type ℓ} where
  abbrev pub next : Reply E A → (A → Method S E B) → Method S E B
  next (ok a) f s = f a s
  next (err e) f s = (err e, s)
  next panic f s = (panic, s)

  infixl 5 ◌>>=◌
  abbrev pub ◌>>=◌ : Method S E A → (A → Method S E B) → Method S E B
  ◌>>=◌ m f s = let (r, s') = m s in next r f s'

infixl 5 ◌>>◌
abbrev pub ◌>>◌ : {S E B : Type 0} → Method S E (Unit {0}) → Method S E B → Method S E B
m >> k = m >>= λ _. k

abbrev pub raise_if : {S E : Type 0} → Bool → E → Method S E (Unit {0})
raise_if c e s = (if c then err e else ok tt, s)

abbrev pub modify : {S E : Type 0} → (S → S) → Method S E (Unit {0})
modify f s = (ok tt, f s)

-- Inversion of a chain that succeeds.
pub next-eq-ok :
    {S E A : Type 0} (r : Reply E (Unit {0}) × S) (f : Unit {0} → Method S E A) (a : A) (s : S)
    → next r.0 f r.1 ≡ (ok a, s)
    → (s' : S) × (r ≡ (ok tt, s')) × (f tt s' ≡ (ok a, s))
next-eq-ok (ok u, s') f a s h = (s', refl, h)
next-eq-ok (err e, s') f a s h = cc (ap (λ p. p.0) h)
next-eq-ok (panic, s') f a s h = cc (ap (λ p. p.0) h)

-- Inversion of a chain that is refused.
pub next-eq-err :
    {S E A : Type 0} (r : Reply E (Unit {0}) × S) (f : Unit {0} → Method S E A) (e : E) (s : S)
    → next r.0 f r.1 ≡ (err e, s)
    → (r ≡ (err e, s)) ⊎ ((s' : S) × (r ≡ (ok tt, s')) × (f tt s' ≡ (err e, s)))
next-eq-err (ok u, s') f e s h = inr (s', refl, h)
next-eq-err (err x, s') f e s h = inl (cc (ap (λ p. p.0) h, ap (λ p. p.1) h))
next-eq-err (panic, s') f e s h = cc (ap (λ p. p.0) h)
