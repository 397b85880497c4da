-- ===== src/Glob/Grammar.antt =====
-- Patterns as they are meant, written out, and what they match.
use mmog.Common.{
  ℕ, ◌-◌, ◌≡◌, refl, ◌&&◌, ◌||◌, not, Bool, true, false, List, [], ◌∷◌, ltb, ◌==◌, if◌then◌else◌, ℤ,
  pos, negsuc, leb_ℤ, eqb_ℤ,
}
use mmog.Common.Bytes.{Bytes}
use mmog.Glob.{char, same, in_class_range}
use mmog.Glob.Tokens.{some_suffix}

-- A member of a class: a character, a character behind a backslash, or a range.
pub data Member : Type 0 where
  lone : ℕ → Member
  quoted : ℕ → Member
  range : ℕ → ℕ → Member

-- A part of a pattern: `*`, or what takes one character, which is `?`, a character, a character behind
-- a backslash, or a class, which may be negated.
pub data Taker : Type 0 where
  any_one : Taker
  plain : ℕ → Taker
  escaped : ℕ → Taker
  class : Bool → List Member → Taker

pub data Word : Type 0 where
  anything : Word
  takes : Taker → Word

-- A class from its first member on, and what follows the class.
unfoldable pub class_text : List Member → Bytes → Bytes
class_text [] rest = b']' ∷ rest
class_text (lone c ∷ ms) rest = c ∷ class_text ms rest
class_text (quoted c ∷ ms) rest = b'\\' ∷ c ∷ class_text ms rest
class_text (range a b ∷ ms) rest = a ∷ b'-' ∷ b ∷ class_text ms rest

unfoldable pub taker_text : Taker → Bytes → Bytes
taker_text any_one rest = b'?' ∷ rest
taker_text (plain c) rest = c ∷ rest
taker_text (escaped c) rest = b'\\' ∷ c ∷ rest
taker_text (class true ms) rest = b'[' ∷ b'^' ∷ class_text ms rest
taker_text (class false ms) rest = b'[' ∷ class_text ms rest

-- The pattern written out.
unfoldable pub text : List Word → Bytes
text [] = []
text (anything ∷ ws) = b'*' ∷ text ws
text (takes t ∷ ws) = taker_text t (text ws)

-- Characters that mean themselves.
abbrev pub IsPlain : ℕ → Type 0
IsPlain c =
    ((c == b'*') ≡ false) × ((c == b'?') ≡ false) × ((c == b'[') ≡ false) × ((c == b'\\') ≡ false)

abbrev pub IsPlainMember : ℕ → Type 0
IsPlainMember c =
    ((c == b'\\') ≡ false) × ((c == b']') ≡ false) × ((c == b'-') ≡ false) × ((c == b'^') ≡ false)

abbrev pub ArePlainMembers : List Member → Type 0
ArePlainMembers [] = Unit
ArePlainMembers (lone c ∷ ms) = IsPlainMember c × ArePlainMembers ms
ArePlainMembers (quoted c ∷ ms) = ArePlainMembers ms
ArePlainMembers (range a b ∷ ms) = IsPlainMember a × ArePlainMembers ms

-- Only what stands alone in a pattern is written without a backslash.
abbrev pub IsWritten : List Word → Type 0
IsWritten [] = Unit
IsWritten (anything ∷ ws) = IsWritten ws
IsWritten (takes any_one ∷ ws) = IsWritten ws
IsWritten (takes (plain c) ∷ ws) = IsPlain c × IsWritten ws
IsWritten (takes (escaped c) ∷ ws) = IsWritten ws
IsWritten (takes (class b ms) ∷ ws) = ArePlainMembers ms × IsWritten ws

-- The number that a `char` of eight bits with a sign stands for.
abbrev pub signed : ℕ → ℤ
signed c = if ltb c 128 then pos c else negsuc (255 - c)

module _ (tolower : ℤ → ℤ) where
  -- Characters in order, as they are or in lower case.
  abbrev pub at_most : Bool → ℤ → ℤ → Bool
  at_most false a b = leb_ℤ a b
  at_most true a b = leb_ℤ (tolower a) (tolower b)

  abbrev pub alike : Bool → ℕ → ℕ → Bool
  alike false x c = x == c
  alike true x c = eqb_ℤ (tolower (signed x)) (tolower (signed c))

  -- Whether a member takes a character. The ends of a range may stand in either order.
  unfoldable pub has : Bool → Member → ℕ → Bool
  has nocase (lone x) c = alike nocase x c
  has nocase (quoted x) c = x == c
  has nocase (range a b) c =
      if leb_ℤ (signed a) (signed b)
      then at_most nocase (signed a) (signed c) && at_most nocase (signed c) (signed b)
      else at_most nocase (signed b) (signed c) && at_most nocase (signed c) (signed a)

  unfoldable pub some_has : Bool → List Member → ℕ → Bool
  some_has nocase [] c = false
  some_has nocase (m ∷ ms) c = has nocase m c || some_has nocase ms c

  unfoldable pub accepts : Bool → Taker → ℕ → Bool
  accepts nocase any_one c = true
  accepts nocase (plain x) c = alike nocase x c
  accepts nocase (escaped x) c = alike nocase x c
  accepts nocase (class true ms) c = not (some_has nocase ms c)
  accepts nocase (class false ms) c = some_has nocase ms c

  -- Whether a pattern means a whole string.
  unfoldable pub means : Bool → List Word → Bytes → Bool
  means nocase [] [] = true
  means nocase [] (c ∷ s) = false
  means nocase (anything ∷ ws) s = some_suffix (means nocase ws) s
  means nocase (takes t ∷ ws) [] = false
  means nocase (takes t ∷ ws) (c ∷ s) = accepts nocase t c && means nocase ws s

  module _ (nocase : Bool) where
    pub same-alike : (x c : ℕ) → same tolower nocase x c ≡ alike nocase x c
    unfolding same char
    same-alike x c = by_case nocase
      where
        by_case :
            (b : Bool)
            → (if b then eqb_ℤ (tolower (signed x)) (tolower (signed c)) else x == c) ≡ alike b x c
        by_case true = refl
        by_case false = refl

    pub range-has : (a b c : ℕ) → in_class_range tolower nocase a b c ≡ has nocase (range a b) c
    unfolding in_class_range has char
    range-has a b c = by_case nocase (leb_ℤ (signed a) (signed b))
      where
        by_case :
            (n swap : Bool)
            → (if n
                then leb_ℤ (tolower (if swap then signed a else signed b)) (tolower (signed c))
                  && leb_ℤ (tolower (signed c)) (tolower (if swap then signed b else signed a))
                else leb_ℤ (if swap then signed a else signed b) (signed c)
                  && leb_ℤ (signed c) (if swap then signed b else signed a))
              ≡ (if swap
                  then at_most n (signed a) (signed c) && at_most n (signed c) (signed b)
                  else at_most n (signed b) (signed c) && at_most n (signed c) (signed a))
        by_case true true = refl
        by_case true false = refl
        by_case false true = refl
        by_case false false = refl
