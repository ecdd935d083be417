-- ===== src/Base/Results.antt =====
-- Chains of `?` in functions that change nothing.
use mathlib.Core.Option.{Option, none, some}
use mathlib.Core.Bool.{Bool}
use pmkit.Base.Tests.{if◌then◌else◌}
use pmkit.Base.Replies.{Reply, ok, err, panic}

module _ {ℓ} {E A B : Type ℓ} where
  infixl 5 ◌>>=◌
  abbrev pub ◌>>=◌ : Reply E A → (A → Reply E B) → Reply E B
  ok a >>= f = f a
  err e >>= f = err e
  panic >>= f = panic

module _ {ℓ} {E A : Type ℓ} where
  -- `ok_or_else`
  abbrev pub ok_or : Option A → E → Reply E A
  ok_or none e = err e
  ok_or (some a) e = ok a

-- `if c { return Err(e) }`
abbrev pub err_if : {E : Type 0} → Bool → E → Reply E (Unit {0})
err_if c e = if c then err e else ok tt

infixl 5 ◌>>◌
abbrev pub ◌>>◌ : {E B : Type 0} → Reply E (Unit {0}) → Reply E B → Reply E B
m >> k = m >>= λ _. k
