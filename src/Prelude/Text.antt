-- ===== src/Prelude/Text.antt =====
-- C strings as the list of their bytes before the terminating zero.
use Prim.Native.Char.{code}
use Prim.Native.String.{String}
use Prim.Native.Nat.{ℕ, ◌-◌}
use mathlib.Core.Path.{◌≡◌, refl}
use mathlib.Core.Logic.{◌↔◌}
use mathlib.Core.Bool.{Bool, true, false, ◌&&◌}
use mathlib.Core.List.{List, [], ◌∷◌}
use native.Mathlib.Omega.{arith}
use retrace.Prelude.Tests.{◌==◌}
use retrace.Prelude.Lists.{take}

abbrev pub CStr : Type 0
CStr = List ℕ

-- The code points of a literal: its bytes, for the ASCII literals of the source.
abbrev pub codes : String → CStr
codes String.[] = []
codes (String.◌∷◌ c s) = code c ∷ codes s

-- `strcmp(a, b) == 0`
unfoldable pub str_eq : CStr → CStr → Bool
str_eq [] [] = true
str_eq [] (_ ∷ _) = false
str_eq (_ ∷ _) [] = false
str_eq (x ∷ xs) (y ∷ ys) = x == y && str_eq xs ys

pub str_eq_refl : (a : CStr) → str_eq a a ≡ true
unfolding str_eq
str_eq_refl [] = refl
str_eq_refl (x ∷ xs) = ground (arith, str_eq_refl xs)

pub str_eq→≡ : (a b : CStr) → str_eq a b ≡ true → a ≡ b
unfolding str_eq
str_eq→≡ [] [] h = refl
str_eq→≡ [] (y ∷ ys) h = cc
str_eq→≡ (x ∷ xs) [] h = cc
str_eq→≡ (x ∷ xs) (y ∷ ys) h = ground (arith, str_eq→≡ xs ys)

pub str_eq_iff : (a b : CStr) → (str_eq a b ≡ true) ↔ (a ≡ b)
str_eq_iff a b = (str_eq→≡ a b, λ e. rw e (str_eq_refl b))

pub str_eq_comm : (a b : CStr) → str_eq a b ≡ str_eq b a
unfolding str_eq
str_eq_comm [] [] = refl
str_eq_comm [] (y ∷ ys) = refl
str_eq_comm (x ∷ xs) [] = refl
str_eq_comm (x ∷ xs) (y ∷ ys) = ground (arith, str_eq_comm xs ys)

-- `snprintf(dst, cap, "%s", s)` into an array of `cap` bytes.
abbrev pub fit : ℕ → CStr → CStr
fit cap s = take (cap - 1) s
