-- ===== src/Glob.antt =====
-- redis-stable/src/util.c: `stringmatchlen`, which matches a string with a pattern. Both are followed by
-- a zero byte, as the strings of redis-stable/src/sds.c are; a result of none is a read behind that byte.
-- `tolower` is a parameter.
pub mod Tokens
pub mod Loop
pub mod Classes
pub mod Grammar
pub mod Written
mod Tests
use mmog.Common.{
  ℕ, zero, suc, ◌-◌, ◌&&◌, ◌||◌, not, Bool, true, false, Option, none, some, List, [], ◌∷◌, length,
  get_or, ltb, ◌==◌, if◌then◌else◌, ℤ, pos, negsuc, leb_ℤ, eqb_ℤ,
}
use mmog.Common.Bytes.{Bytes}

-- A `char`, which is signed.
unfoldable pub char : ℕ → ℤ
char c = if ltb c 128 then pos c else negsuc (255 - c)

-- The pattern without the `*` that it begins with.
unfoldable pub strip : Bytes → Bytes
strip [] = []
strip (x ∷ p) = if x == b'*' then strip p else x ∷ p

unfoldable pub is_empty : Bytes → Bool
is_empty [] = true
is_empty (x ∷ p) = false

-- How a pattern begins, and the pattern behind that: with stars, with `?`, or with something that takes
-- some characters. A class that ends in a backslash leads behind the pattern.
pub data Item : Type 0 where
  star : Bytes → Item
  any : Bytes → Item
  one : (ℕ → Bool) → Bytes → Item
  astray : Item

-- A string that has been passed: `stringLen` is negative.
unfoldable pub behind : Bytes → Option Bool
behind [] = some false
behind (x ∷ p) =
    let rest = behind p in
    if x == b'*'
    then (if is_empty (strip p) then some true else none)
    else if x == b'?'
    then rest
    else none

-- The loop over `string`, which tries the rest of the pattern on each suffix that is not empty.
unfoldable pub try_suffixes : (Bytes → Option Bool) → Bytes → Option Bool
try_suffixes f [] = some false
try_suffixes f (c ∷ s) = elim (f (c ∷ s)) [
  | none ↦ none
  | some true ↦ some true
  | some false ↦ try_suffixes f s
]

-- The end of a round, where a character of the string has been taken.
abbrev pub advance : (Bytes → Option Bool) → Bytes → Bytes → Option Bool
advance f q [] = some (is_empty (strip q))
advance f q (c ∷ s) = f (c ∷ s)

-- `match = 0`
abbrev pub nothing : ℕ → Bool
nothing c = false

module _ (tolower : ℤ → ℤ) (nocase : Bool) where
  -- A single character of the pattern.
  unfoldable pub same : ℕ → ℕ → Bool
  same x c = if nocase then eqb_ℤ (tolower (char x)) (tolower (char c)) else x == c

  -- A range of a class.
  unfoldable pub in_class_range : ℕ → ℕ → ℕ → Bool
  in_class_range start end c =
      let swap = leb_ℤ (char start) (char end) in
      let low = if swap then char start else char end in
      let high = if swap then char end else char start in
      if nocase
      then leb_ℤ (tolower low) (tolower (char c)) && leb_ℤ (tolower (char c)) (tolower high)
      else leb_ℤ low (char c) && leb_ℤ (char c) high

  -- The loop over a class: the characters for which `match` is set, and the pattern behind the class.
  unfoldable pub class_loop : Bytes → (ℕ → Bool) → Option ((ℕ → Bool) × Bytes)
  class_loop [] match = some (match, [])
  class_loop (x ∷ []) match =
      if x == b'\\'
      then none
      else if x == b']'
      then some (match, [])
      else some ((λ c. match c || same x c), [])
  class_loop (x ∷ y ∷ []) match =
      let after_escape = class_loop [] (λ c. match c || y == c) in
      let after_one = class_loop (y ∷ []) (λ c. match c || same x c) in
      if x == b'\\' then after_escape else if x == b']' then some (match, y ∷ []) else after_one
  class_loop (x ∷ y ∷ z ∷ p) match =
      let after_escape = class_loop (z ∷ p) (λ c. match c || y == c) in
      let after_range = class_loop p (λ c. match c || in_class_range x z c) in
      let after_one = class_loop (y ∷ z ∷ p) (λ c. match c || same x c) in
      if x == b'\\'
      then after_escape
      else if x == b']'
      then some (match, y ∷ z ∷ p)
      else if y == b'-'
      then after_range
      else after_one

  -- The branch for `[`.
  unfoldable pub read_class : Bytes → Item
  read_class [] = one nothing []
  read_class (x ∷ p) = elim (x == b'^') [
    | true ↦ elim (class_loop p nothing) [ none ↦ astray | some r ↦ one (λ c. not (r.0 c)) r.1 ]
    | false ↦ elim (class_loop (x ∷ p) nothing) [ none ↦ astray | some r ↦ one r.0 r.1 ]
  ]

  -- The branch for a backslash.
  unfoldable pub read_escaped : Bytes → Item
  read_escaped [] = one (same b'\\') []
  read_escaped (x ∷ p) = one (same x) p

  -- The `switch` on the first character.
  unfoldable pub item : ℕ → Bytes → Item
  item x p =
      if x == b'*'
      then star (strip p)
      else if x == b'?'
      then any p
      else if x == b'['
      then read_class p
      else if x == b'\\'
      then read_escaped p
      else one (same x) p

  -- The loop of `stringmatchlen`, on fuel.
  unfoldable pub match_loop : ℕ → Bytes → Bytes → Option Bool
  match_loop zero p s = none
  match_loop (suc fuel) [] s = some (is_empty s)
  match_loop (suc fuel) (x ∷ p) s = elim (item x p) [
    | star q ↦ if is_empty q then some true else try_suffixes (match_loop fuel q) s
    | any q ↦ elim s [ [] ↦ some false | c ∷ t ↦ advance (match_loop fuel q) q t ]
    | one accepts q ↦
        if accepts (get_or s 0 0)
        then elim s [ [] ↦ behind q | c ∷ t ↦ advance (match_loop fuel q) q t ]
        else some false
    | astray ↦ none
  ]

  -- `stringmatchlen`
  unfoldable pub stringmatchlen : Bytes → Bytes → Option Bool
  stringmatchlen pattern string = match_loop (suc (length pattern)) pattern string
