-- ===== src/Base/Texts.antt =====
-- Text as the standard library compares, joins and prints it.
use Prim.Native.Nat.{Ordering, ℕ, zero, suc, ◌+◌, ◌-◌, ◌*◌, ◌/◌, ◌%◌, ◌<◌}
use Prim.Native.Char.{Char, code}
use Prim.Native.String.{String, compare}
use mathlib.Core.Path.{◌≡◌, refl, sym, ap, ◌∙◌}
use mathlib.Core.Bool.{Bool, true, false}
use mathlib.Core.Logic.{inl, inr}
use native.Mathlib.Omega.{arith}
use pmkit.Base.Tests.{◌==◌, text_key, ltb, Bool-cases, if◌then◌else◌}

-- `<` on texts, by which `sort_by_key` orders.
abbrev pub text_less : String → String → Bool
text_less a b = elim (compare a b) [ Ordering.lt ↦ true | _ ↦ false ]

pub text_less→ne : (a b : String) → text_less a b ≡ true → (a == b) ≡ false
text_less→ne a b h = ground arith

-- One text after the other, as the pieces of a `format!`.
unfoldable pub join : String → String → String
join String.[] t = t
join (String.◌∷◌ c s) t = String.◌∷◌ c (join s t)

pub join_cancel : (s a b : String) → join s a ≡ join s b → a ≡ b
unfolding join
join_cancel String.[] a b h = h
join_cancel (String.◌∷◌ c s) a b h = join_cancel s a b (cc)

digit : ℕ → Char
digit zero = "0"
digit (suc zero) = "1"
digit (suc (suc zero)) = "2"
digit (suc (suc (suc zero))) = "3"
digit (suc (suc (suc (suc zero)))) = "4"
digit (suc (suc (suc (suc (suc zero))))) = "5"
digit (suc (suc (suc (suc (suc (suc zero)))))) = "6"
digit (suc (suc (suc (suc (suc (suc (suc zero))))))) = "7"
digit (suc (suc (suc (suc (suc (suc (suc (suc zero)))))))) = "8"
digit (suc (suc (suc (suc (suc (suc (suc (suc (suc n))))))))) = "9"

code-digit : (n : ℕ) → n < 10 → code (digit n) ≡ n + 48
unfolding digit
code-digit zero h = refl
code-digit (suc zero) h = refl
code-digit (suc (suc zero)) h = refl
code-digit (suc (suc (suc zero))) h = refl
code-digit (suc (suc (suc (suc zero)))) h = refl
code-digit (suc (suc (suc (suc (suc zero))))) h = refl
code-digit (suc (suc (suc (suc (suc (suc zero)))))) h = refl
code-digit (suc (suc (suc (suc (suc (suc (suc zero))))))) h = refl
code-digit (suc (suc (suc (suc (suc (suc (suc (suc zero)))))))) h = refl
code-digit (suc (suc (suc (suc (suc (suc (suc (suc (suc n))))))))) h = omega arith

-- The last digit goes in front of what is printed already. The fuel is never used up: a number has
-- no more digits than its value, and one.
print : ℕ → ℕ → String → String
print zero n rest = rest
print (suc fuel) n rest =
    let more = print fuel (n / 10) (String.◌∷◌ (digit (n % 10)) rest) in
    if ltb n 10 then String.◌∷◌ (digit n) rest else more

-- The decimal digits of a number.
unfoldable pub show : ℕ → String
unfolding print digit
show n = print (suc n) n ""

read : ℕ → String → ℕ
read n String.[] = n
read n (String.◌∷◌ c s) = read (n * 10 + (code c - 48)) s

read-print : (fuel n : ℕ) (rest : String) → n < fuel → read 0 (print fuel n rest) ≡ read n rest
unfolding read print
read-print zero n rest h = elim h [ ]
read-print (suc fuel) n rest h = elim (Bool-cases (ltb n 10)) [
  | inl e ↦ rw e (ap (λ k. read k rest) (ground (arith, code-digit n)))
  | inr e ↦ rw e (
      read-print fuel (n / 10) _ (ground arith)
      ∙ ap (λ k. read k rest) (ground (arith, code-digit (n % 10))))
]

-- Different numbers have different prints.
pub show_injective : (m n : ℕ) → show m ≡ show n → m ≡ n
unfolding show read
show_injective m n h =
    sym (read-print (suc m) m "" (omega arith))
    ∙ ap (read 0) h
    ∙ read-print (suc n) n "" (omega arith)

show_forty_two : show 42 ≡ "42"
unfolding show
show_forty_two = refl
