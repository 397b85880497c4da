-- ===== src/Glob/Classes.antt =====
-- Negated classes.
use mmog.Common.{ℕ, ◌≡◌, ◌≢◌, refl, arith, not, Bool, true, false, some, List, [], ◌∷◌, ◌==◌, ℤ}
use mmog.Common.Bytes.{Bytes}
use mmog.Glob.{
  strip, is_empty, one, same, class_loop, nothing, read_class, item, match_loop, behind,
  stringmatchlen,
}
use mmog.Glob.Tokens.{Token, stars, single, matches, tokens_loop, tokens}

module _ (tolower : ℤ → ℤ) (nocase : Bool) where
  one_character :
      (x : ℕ)
      → (x == b'\\') ≡ false
      → (x == b']') ≡ false
      → class_loop tolower nocase (x ∷ b']' ∷ b'*' ∷ []) nothing
        ≡ some ((λ c. same tolower nocase x c), b'*' ∷ [])
  unfolding class_loop
  one_character x no_escape no_end =
      let last : class_loop tolower nocase (b']' ∷ b'*' ∷ []) (λ c. same tolower nocase x c)
          ≡ some ((λ c. same tolower nocase x c), b'*' ∷ []) =
        refl in
      rw (no_escape, no_end) last

  pub negated_item :
      (p q : Bytes) (m : ℕ → Bool)
      → class_loop tolower nocase p nothing ≡ some (m, q)
      → item tolower nocase b'[' (b'^' ∷ p) ≡ one (λ c. not (m c)) q
  unfolding item read_class
  negated_item p q m e = rw (e, read_class) refl

  -- The pattern `[^x]*`, for a character x but a backslash, a bracket or a zero byte, matches the empty
  -- string, although its tokens do not: the zero byte behind the string counts as a character.
  pub stringmatchlen-negated :
      (x : ℕ)
      → nocase ≡ false
      → x ≢ b'\\'
      → x ≢ b']'
      → x ≢ 0
      → (stringmatchlen tolower nocase (b'[' ∷ b'^' ∷ x ∷ b']' ∷ b'*' ∷ []) [] ≡ some true)
        × ((ts : List Token) × (tokens tolower nocase (b'[' ∷ b'^' ∷ x ∷ b']' ∷ b'*' ∷ [])
              ≡ some ts)
            × (matches ts [] ≡ false))
  unfolding stringmatchlen tokens tokens_loop matches match_loop behind same strip is_empty item
  stringmatchlen-negated x exact a b c =
      let i =
        negated_item _ (b'*' ∷ []) (λ c. same tolower nocase x c)
          (one_character x (ground arith) (ground arith)) in
      let no_zero : (x == 0) ≡ false = ground arith in
      (
        rw (i, match_loop, exact, no_zero) refl,
        (single (λ c. not (same tolower nocase x c)) ∷ stars ∷ [], rw (i, tokens_loop) refl, refl),
      )
