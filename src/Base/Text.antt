-- ===== src/Base/Text.antt =====
-- Tests on texts, and the string functions of JavaScript that the services call, at ASCII texts.
use Prim.Native.Nat.{ℕ, ◌+◌}
use Prim.Native.Char.{Char}
use Prim.Native.String.{String, slice, ◌++◌}
use mathlib.Core.Path.{◌≡◌, refl}
use mathlib.Core.Logic.{◌≢◌}
use mathlib.Core.Bool.{Bool, true, false}
use mathlib.Core.Option.{none, some}
use native.Mathlib.Omega.{arith}
use text.Mathlib.Text.{◌==◌, find?}
use text.Mathlib.TextEquality.{eq_iff}
use order_orchestrator.Base.Tests.{if◌then◌else◌}

-- `a === b` on strings.
abbrev pub str_eq : String → String → Bool
str_eq s t = s == t

-- `${a}${b}`
abbrev pub text_append : String → String → String
text_append s t = s ++ t

-- `s.includes(t)`
abbrev pub includes : String → String → Bool
includes s t = elim (find? s t) [ none ↦ false | some _ ↦ true ]

upper_char : Char → String
upper_char c = elim (find? "abcdefghijklmnopqrstuvwxyz" (String.◌∷◌ c String.[])) [
  | none ↦ String.◌∷◌ c String.[]
  | some i ↦ slice "ABCDEFGHIJKLMNOPQRSTUVWXYZ" i (i + 1)
]

-- `s.toUpperCase()`
unfoldable pub to_upper : String → String
unfolding upper_char
to_upper String.[] = ""
to_upper (String.◌∷◌ c s) = upper_char c ++ to_upper s

-- `s.slice(0, n)`
abbrev pub slice_to : String → ℕ → String
slice_to s n = slice s 0 n

to_upper_test : to_upper (slice_to "0190a3f7-77aa" 8) ≡ "0190A3F7"
unfolding to_upper
to_upper_test = refl

pub str_eq_refl : (s : String) → str_eq s s ≡ true
str_eq_refl s = (eq_iff s s).1 refl

pub str_eq_of_ne : (s t : String) → s ≢ t → str_eq s t ≡ false
str_eq_of_ne s t h = ground (arith, eq_iff s t)

-- A test of a text against itself passes, and against another text fails.
module _ {ℓ} {A : Type ℓ} where
  pub if_same : (s : String) (a b : A) → (if str_eq s s then a else b) ≡ a
  if_same s a b = ground (arith, eq_iff s s)

  pub if_other : (s t : String) (a b : A) → s ≢ t → (if str_eq s t then a else b) ≡ b
  if_other s t a b h = ground (arith, eq_iff s t)
