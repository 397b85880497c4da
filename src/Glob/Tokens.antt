-- ===== src/Glob/Tokens.antt =====
-- What a pattern means: a sequence of tokens, and how these match a string.
use mmog.Common.{
  ℕ, zero, suc, ◌≤◌, ◌≡◌, refl, sym, ap, arith, inl, inr, ◌&&◌, ◌||◌, not, Bool, true, false,
  Option, none, some, List, [], ◌∷◌, length, ◌==◌, ℤ, Bool-cases,
}
use mmog.Common.Bytes.{Bytes}
use mmog.Glob.{
  strip, Item, star, any, one, astray, try_suffixes, class_loop, read_class, read_escaped, item,
}

pub data Token : Type 0 where
  stars : Token
  single : (ℕ → Bool) → Token

-- Whether a test holds for a suffix of a string.
unfoldable pub some_suffix : (Bytes → Bool) → Bytes → Bool
some_suffix f [] = f []
some_suffix f (c ∷ s) = f (c ∷ s) || some_suffix f s

-- Whether the tokens match the whole string.
unfoldable pub matches : List Token → Bytes → Bool
matches [] [] = true
matches [] (c ∷ s) = false
matches (stars ∷ ts) s = some_suffix (matches ts) s
matches (single accepts ∷ ts) [] = false
matches (single accepts ∷ ts) (c ∷ s) = accepts c && matches ts s

abbrev pub every : ℕ → Bool
every c = true

abbrev pub prepend : Token → Option (List Token) → Option (List Token)
prepend t none = none
prepend t (some ts) = some (t ∷ ts)

module _ (tolower : ℤ → ℤ) (nocase : Bool) where
  -- The tokens of a pattern: none if a class of it ends in a backslash.
  unfoldable pub tokens_loop : ℕ → Bytes → Option (List Token)
  tokens_loop zero p = none
  tokens_loop (suc fuel) [] = some []
  tokens_loop (suc fuel) (x ∷ p) = elim (item tolower nocase x p) [
    | star q ↦ prepend stars (tokens_loop fuel q)
    | any q ↦ prepend (single every) (tokens_loop fuel q)
    | one accepts q ↦ prepend (single accepts) (tokens_loop fuel q)
    | astray ↦ none
  ]

  unfoldable pub tokens : Bytes → Option (List Token)
  tokens p = tokens_loop (suc (length p)) p

pub strip-strip : (p : Bytes) → strip (strip p) ≡ strip p
unfolding strip
strip-strip [] = refl
strip-strip (x ∷ p) = ground (arith, strip-strip p)

-- Without the stars that it begins with, a pattern is empty or begins with something else.
abbrev pub Stripped : Bytes → Type 0
Stripped [] = Unit
Stripped (x ∷ p) = (x == b'*') ≡ false

pub strip-Stripped : (p : Bytes) → Stripped (strip p)
unfolding strip
strip-Stripped [] = tt
strip-Stripped (x ∷ p) = elim (Bool-cases (x == b'*')) [
  | inl e ↦ rw e (strip-Stripped p)
  | inr e ↦ rw e e
]

pub length-strip : (p : Bytes) → length (strip p) ≤ length p
unfolding strip
length-strip [] = omega arith
length-strip (x ∷ p) = ground (arith, length-strip p)

pub some_suffix-matches : (s : Bytes) → some_suffix (matches []) s ≡ true
unfolding some_suffix matches
some_suffix-matches [] = refl
some_suffix-matches (c ∷ s) = some_suffix-matches s

-- The suffixes that are not empty are all, where the empty one does not fit.
pub try_suffixes_lem :
    (m : Bytes → Option Bool) (g : Bytes → Bool) (s : Bytes)
    → g [] ≡ false
    → ((c : ℕ) (t : Bytes) → m (c ∷ t) ≡ some (g (c ∷ t)))
    → try_suffixes m s ≡ some (some_suffix g s)
unfolding try_suffixes some_suffix
try_suffixes_lem m g [] e h = ap some (sym e)
try_suffixes_lem m g (c ∷ s) e h = elim (Bool-cases (g (c ∷ s))) [
  | inl fits ↦ rw (h c s, try_suffixes, fits) refl
  | inr differs ↦ rw (h c s, try_suffixes, differs) (try_suffixes_lem m g s e h)
]

abbrev pub is_star : Item → Bool
is_star (star q) = true
is_star (any q) = false
is_star (one accepts q) = false
is_star astray = false

module _ (tolower : ℤ → ℤ) (nocase : Bool) where
  read_class_no_star : (p : Bytes) → is_star (read_class tolower nocase p) ≡ false
  unfolding read_class
  read_class_no_star [] = refl
  read_class_no_star (x ∷ p) = elim (Bool-cases (x == b'^')) [
    | inl e ↦ rw (e, is_star, read_class) (by_result (class_loop tolower nocase p _))
    | inr e ↦ rw (e, is_star, read_class) (by_result' (class_loop tolower nocase (x ∷ p) _))
  ]
    where
      by_result :
          (r : Option ((ℕ → Bool) × Bytes))
          → is_star (elim r [ none ↦ astray | some r ↦ one (λ c. not (r.0 c)) r.1 ]) ≡ false
      by_result none = refl
      by_result (some r) = refl

      by_result' :
          (r : Option ((ℕ → Bool) × Bytes))
          → is_star (elim r [ none ↦ astray | some r ↦ one r.0 r.1 ]) ≡ false
      by_result' none = refl
      by_result' (some r) = refl

  read_escaped_no_star : (p : Bytes) → is_star (read_escaped tolower nocase p) ≡ false
  unfolding read_escaped
  read_escaped_no_star [] = refl
  read_escaped_no_star (x ∷ p) = refl

  pub item_no_star :
      (x : ℕ) (p : Bytes) → (x == b'*') ≡ false → is_star (item tolower nocase x p) ≡ false
  unfolding item
  item_no_star x p e = rw e (elim (Bool-cases (x == b'?')) [
    | inl a ↦ rw a refl
    | inr a ↦ rw a (elim (Bool-cases (x == b'[')) [
      | inl b ↦ rw b (read_class_no_star p)
      | inr b ↦ rw b (elim (Bool-cases (x == b'\\')) [
        | inl c ↦ rw c (read_escaped_no_star p)
        | inr c ↦ rw c refl
      ])
    ])
  ])

  pub item_star : (x : ℕ) (p q : Bytes) → item tolower nocase x p ≡ star q → q ≡ strip p
  unfolding item
  item_star x p q e = elim (Bool-cases (x == b'*')) [
    | inl a ↦ cc (rw a at e)
    | inr a ↦ absurd (cc (ap is_star e, item_no_star x p a))
  ]
