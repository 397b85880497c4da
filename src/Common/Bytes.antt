-- ===== src/Common/Bytes.antt =====
-- Strings as lists of bytes, and their comparison.
use Prim.Native.Nat.{ℕ}
use mathlib.Core.Path.{◌≡◌, refl, sym, ◌∙◌}
use mathlib.Core.Logic.{◌↔◌, inl, inr}
use mathlib.Core.Bool.{Bool, true, false, ◌&&◌}
use mathlib.Core.List.{List, [], ◌∷◌}
use native.Mathlib.Omega.{arith}
use mmog.Common.Tests.{◌==◌, Bool-cases, false≢true}

abbrev pub Bytes : Type 0
Bytes = List ℕ

-- `equalStringObjects`
unfoldable pub equal_strings : Bytes → Bytes → Bool
equal_strings [] [] = true
equal_strings [] (b ∷ ys) = false
equal_strings (a ∷ xs) [] = false
equal_strings (a ∷ xs) (b ∷ ys) = a == b && equal_strings xs ys

pub equal_strings_iff : (a b : Bytes) → (equal_strings a b ≡ true) ↔ (a ≡ b)
unfolding equal_strings
equal_strings_iff [] [] = (λ e. refl, λ e. refl)
equal_strings_iff [] (b ∷ ys) = (λ e. cc, λ e. cc)
equal_strings_iff (a ∷ xs) [] = (λ e. cc, λ e. cc)
equal_strings_iff (a ∷ xs) (b ∷ ys) = grind (arith, equal_strings_iff xs ys)

pub equal_strings_sym : (a b : Bytes) → equal_strings a b ≡ equal_strings b a
equal_strings_sym a b = elim (Bool-cases (equal_strings a b)) [
  | inl e ↦ elim (Bool-cases (equal_strings b a)) [
    | inl f ↦ e ∙ sym f
    | inr f ↦
        absurd (false≢true (sym f ∙ (equal_strings_iff b a).1 (sym ((equal_strings_iff a b).0 e))))
  ]
  | inr e ↦ elim (Bool-cases (equal_strings b a)) [
    | inr f ↦ e ∙ sym f
    | inl f ↦
        absurd (false≢true (sym e ∙ (equal_strings_iff a b).1 (sym ((equal_strings_iff b a).0 f))))
  ]
]
