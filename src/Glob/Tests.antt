-- ===== src/Glob/Tests.antt =====
-- Some patterns; `tolower` leaves every character here.
use mmog.Common.{◌≡◌, refl, arith, true, false, some, List, [], ◌∷◌, ℤ}
use mmog.Common.Bytes.{Bytes}
use mmog.Glob.{
  stringmatchlen, match_loop, item, same, class_loop, read_class, strip, is_empty, in_class_range,
  char, try_suffixes,
}
use mmog.Glob.Tokens.{Token, matches, tokens}
use mmog.Glob.Grammar.{
  lone, quoted, range, any_one, plain, escaped, class, Word, anything, takes, class_text,
  taker_text, text, IsWritten, has, some_has, accepts, means,
}
use mmog.Glob.Written.{stringmatchlen-text}
use mmog.Glob.Classes.{stringmatchlen-negated}

abbrev same_case : ℤ → ℤ
same_case c = c

-- h[a-e]*?o
abbrev pattern_text : Bytes
pattern_text = b'h' ∷ b'[' ∷ b'a' ∷ b'-' ∷ b'e' ∷ b']' ∷ b'*' ∷ b'?' ∷ b'o' ∷ []

abbrev hello : Bytes
hello = b'h' ∷ b'e' ∷ b'l' ∷ b'l' ∷ b'o' ∷ []

-- \*o
abbrev escaped_text : Bytes
escaped_text = b'\\' ∷ b'*' ∷ b'o' ∷ []

-- The same pattern by its parts, and then one with a negated class and a star that is no wildcard.
abbrev pattern_words : List Word
pattern_words =
    takes (plain b'h')
    ∷ takes (class false (range b'a' b'e' ∷ []))
    ∷ anything
    ∷ takes any_one
    ∷ takes (plain b'o')
    ∷ []

abbrev quoted_words : List Word
quoted_words = takes (class true (lone b'a' ∷ quoted b']' ∷ [])) ∷ takes (escaped b'*') ∷ []

pattern_words-IsWritten : IsWritten pattern_words
pattern_words-IsWritten =
    ((refl, refl, refl, refl), (((refl, refl, refl, refl), tt), ((refl, refl, refl, refl), tt)))

pattern_words_text : text pattern_words ≡ pattern_text
unfolding text taker_text class_text
pattern_words_text = refl

stringmatchlen-text_example :
    stringmatchlen same_case false (text pattern_words) hello
    ≡ some (means same_case false pattern_words hello)
stringmatchlen-text_example =
    stringmatchlen-text same_case false pattern_words hello pattern_words-IsWritten (omega arith)

-- Written out with its backslashes, the other pattern is matched by "x*", and so it means.
quoted_matches : means same_case false quoted_words (b'x' ∷ b'*' ∷ []) ≡ true
unfolding means accepts some_has has
quoted_matches = refl

-- The pattern matches, and the code finds it.
hello_matches : stringmatchlen same_case false pattern_text hello ≡ some true
unfolding stringmatchlen match_loop item same read_class class_loop in_class_range char is_empty
    strip try_suffixes
hello_matches = refl

stringmatchlen-negated_example :
    (stringmatchlen same_case false (b'[' ∷ b'^' ∷ b'a' ∷ b']' ∷ b'*' ∷ []) [] ≡ some true)
    × ((ts : List Token) × (tokens same_case false (b'[' ∷ b'^' ∷ b'a' ∷ b']' ∷ b'*' ∷ [])
          ≡ some ts)
        × (matches ts [] ≡ false))
stringmatchlen-negated_example =
    stringmatchlen-negated same_case false b'a' refl (ground arith) (ground arith) (ground arith)
