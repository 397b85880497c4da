-- ===== src/Glob/Written.antt =====
-- `stringmatchlen` on patterns that are written out.
use mmog.Common.{
  ℕ, zero, suc, ◌≤◌, ◌<◌, ◌≡◌, refl, sym, ap, ap₂, ◌∙◌, arith, ◌&&◌, ◌||◌, not, Bool, true, false,
  some, List, [], ◌∷◌, length, ◌==◌, ℤ,
}
use mmog.Common.Bytes.{Bytes}
use mmog.Glob.{
  strip, star, one, same, in_class_range, class_loop, nothing, read_class, read_escaped, item,
  stringmatchlen,
}
use mmog.Glob.Tokens.{Token, stars, single, some_suffix, matches, every, tokens_loop, tokens}
use mmog.Glob.Loop.{stringmatchlen_lem}
use mmog.Glob.Classes.{negated_item}
use mmog.Glob.Grammar.{
  Member, lone, quoted, range, Taker, any_one, plain, escaped, class, Word, anything, takes,
  class_text, taker_text, text, IsPlain, ArePlainMembers, IsWritten, has, some_has, accepts, means,
  same-alike, range-has,
}

-- A text that begins with neither a dash nor a caret.
abbrev Starts : Bytes → Type 0
Starts [] = ⊥
Starts (x ∷ p) = ((x == b'-') ≡ false) × ((x == b'^') ≡ false)

class_text-Starts :
    (ms : List Member) (rest : Bytes) → ArePlainMembers ms → Starts (class_text ms rest)
unfolding class_text
class_text-Starts [] rest h = (refl, refl)
class_text-Starts (lone c ∷ ms) rest h = (h.0.2, h.0.3)
class_text-Starts (quoted c ∷ ms) rest h = (refl, refl)
class_text-Starts (range a b ∷ ms) rest h = (h.0.2, h.0.3)

length-class_text : (ms : List Member) (rest : Bytes) → length rest < length (class_text ms rest)
unfolding class_text
length-class_text [] rest = omega arith
length-class_text (lone c ∷ ms) rest = omega (arith, length-class_text ms rest)
length-class_text (quoted c ∷ ms) rest = omega (arith, length-class_text ms rest)
length-class_text (range a b ∷ ms) rest = omega (arith, length-class_text ms rest)

or_assoc : (a b d : Bool) → ((a || b) || d) ≡ (a || (b || d))
or_assoc true b d = refl
or_assoc false b d = refl

length-taker_text : (t : Taker) (rest : Bytes) → length rest < length (taker_text t rest)
unfolding taker_text
length-taker_text any_one rest = omega arith
length-taker_text (plain c) rest = omega arith
length-taker_text (escaped c) rest = omega arith
length-taker_text (class true ms) rest = omega (arith, length-class_text ms rest)
length-taker_text (class false ms) rest = omega (arith, length-class_text ms rest)

-- The words without the stars that they begin with.
strip_words : List Word → List Word
strip_words [] = []
strip_words (anything ∷ ws) = strip_words ws
strip_words (takes t ∷ ws) = takes t ∷ ws

strip-text : (ws : List Word) → IsWritten ws → strip (text ws) ≡ text (strip_words ws)
unfolding strip text strip_words taker_text
strip-text [] h = refl
strip-text (anything ∷ ws) h = strip-text ws h
strip-text (takes any_one ∷ ws) h = refl
strip-text (takes (plain c) ∷ ws) h = rw h.0.0 refl
strip-text (takes (escaped c) ∷ ws) h = refl
strip-text (takes (class true ms) ∷ ws) h = refl
strip-text (takes (class false ms) ∷ ws) h = refl

strip_words-IsWritten : (ws : List Word) → IsWritten ws → IsWritten (strip_words ws)
unfolding strip_words
strip_words-IsWritten [] h = tt
strip_words-IsWritten (anything ∷ ws) h = strip_words-IsWritten ws h
strip_words-IsWritten (takes t ∷ ws) h = h

length-text_strip_words : (ws : List Word) → length (text (strip_words ws)) ≤ length (text ws)
unfolding strip_words text
length-text_strip_words [] = omega arith
length-text_strip_words (anything ∷ ws) = omega (arith, length-text_strip_words ws)
length-text_strip_words (takes t ∷ ws) = omega arith

some_suffix_cong :
    (f g : Bytes → Bool) (s : Bytes) → ((t : Bytes) → f t ≡ g t) → some_suffix f s ≡ some_suffix g s
unfolding some_suffix
some_suffix_cong f g [] h = h []
some_suffix_cong f g (c ∷ s) h = ap₂ (λ a b. a || b) (h (c ∷ s)) (some_suffix_cong f g s h)

some_suffix_twice : (f : Bytes → Bool) (s : Bytes) → some_suffix (some_suffix f) s ≡ some_suffix f s
unfolding some_suffix
some_suffix_twice f [] = refl
some_suffix_twice f (c ∷ s) =
    ap (λ b. some_suffix f (c ∷ s) || b) (some_suffix_twice f s)
    ∙ absorb (f (c ∷ s)) (some_suffix f s)
  where
    absorb : (a b : Bool) → ((a || b) || b) ≡ (a || b)
    absorb true b = refl
    absorb false true = refl
    absorb false false = refl

module _ (tolower : ℤ → ℤ) (nocase : Bool) where
  class_end :
      (rest : Bytes) (m : ℕ → Bool) → class_loop tolower nocase (b']' ∷ rest) m ≡ some (m, rest)
  unfolding class_loop
  class_end [] m = refl
  class_end (y ∷ []) m = refl
  class_end (y ∷ z ∷ p) m = refl

  class_lone :
      (c : ℕ) (tail : Bytes) (m : ℕ → Bool)
      → (c == b'\\') ≡ false
      → (c == b']') ≡ false
      → Starts tail
      → class_loop tolower nocase (c ∷ tail) m
        ≡ class_loop tolower nocase tail (λ d. m d || same tolower nocase c d)
  unfolding class_loop
  class_lone c [] m e f h = elim h [ ]
  class_lone c (y ∷ []) m e f h = rw (e, f) refl
  class_lone c (y ∷ z ∷ p) m e f h = rw (e, f, h.0) refl

  class_quoted :
      (c : ℕ) (tail : Bytes) (m : ℕ → Bool)
      → class_loop tolower nocase (b'\\' ∷ c ∷ tail) m
        ≡ class_loop tolower nocase tail (λ d. m d || c == d)
  unfolding class_loop
  class_quoted c [] m = refl
  class_quoted c (y ∷ p) m = refl

  class_range :
      (a b : ℕ) (tail : Bytes) (m : ℕ → Bool)
      → (a == b'\\') ≡ false
      → (a == b']') ≡ false
      → class_loop tolower nocase (a ∷ b'-' ∷ b ∷ tail) m
        ≡ class_loop tolower nocase tail (λ d. m d || in_class_range tolower nocase a b d)
  unfolding class_loop
  class_range a b tail m e f = rw (e, f) refl

  -- A class is read to its end, with the characters that its members have.
  abbrev Read : List Member → Bytes → (ℕ → Bool) → Type 0
  Read ms rest m =
      (m' : ℕ → Bool) × (class_loop tolower nocase (class_text ms rest) m ≡ some (m', rest))
      × ((d : ℕ) → m' d ≡ (m d || some_has tolower nocase ms d))

  member-Read :
      (x : Member) (ms : List Member) (rest : Bytes) (m : ℕ → Bool) (test : ℕ → Bool)
      → class_loop tolower nocase (class_text (x ∷ ms) rest) m
        ≡ class_loop tolower nocase (class_text ms rest) (λ d. m d || test d)
      → ((d : ℕ) → test d ≡ has tolower nocase x d)
      → Read ms rest (λ d. m d || test d)
      → Read (x ∷ ms) rest m
  unfolding some_has
  member-Read x ms rest m test e same_test (m', ran, law) = (
    m',
    e ∙ ran,
    λ d.
        law d
        ∙ or_assoc (m d) (test d) (some_has tolower nocase ms d)
        ∙ ap (λ t. m d || (t || some_has tolower nocase ms d)) (same_test d),
  )

  class_text-Read :
      (ms : List Member) (rest : Bytes) (m : ℕ → Bool) → ArePlainMembers ms → Read ms rest m
  unfolding class_text
  class_text-Read [] rest m h = unfold some_has in (m, class_end rest m, λ d. or_false (m d))
    where
      or_false : (b : Bool) → b ≡ (b || false)
      or_false true = refl
      or_false false = refl
  class_text-Read (lone c ∷ ms) rest m h =
      member-Read (lone c) ms rest m (same tolower nocase c)
        (class_lone c (class_text ms rest) m h.0.0 h.0.1 (class_text-Starts ms rest h.1))
        (λ d. unfold has in same-alike tolower nocase c d) (class_text-Read ms rest _ h.1)
  class_text-Read (quoted c ∷ ms) rest m h =
      member-Read (quoted c) ms rest m (λ d. c == d) (class_quoted c (class_text ms rest) m)
        (λ d. unfold has in refl) (class_text-Read ms rest _ h)
  class_text-Read (range a b ∷ ms) rest m h =
      member-Read (range a b) ms rest m (in_class_range tolower nocase a b)
        (class_range a b (class_text ms rest) m h.0.0 h.0.1) (λ d. range-has tolower nocase a b d)
        (class_text-Read ms rest _ h.1)

  -- A text is read as something that takes one character.
  abbrev Takes : Bytes → (ℕ → Bool) → Bytes → Type 0
  Takes [] f rest = ⊥
  Takes (x ∷ p) f rest =
      ((x == b'*') ≡ false)
      × ((a : ℕ → Bool) × (item tolower nocase x p ≡ one a rest) × ((d : ℕ) → a d ≡ f d))

  class_item :
      (p q : Bytes) (m : ℕ → Bool)
      → Starts p
      → class_loop tolower nocase p nothing ≡ some (m, q)
      → item tolower nocase b'[' p ≡ one m q
  unfolding item read_class
  class_item [] q m h e = elim h [ ]
  class_item (x ∷ p) q m h e = rw (h.1, e, read_class) refl

  -- What is asked of a part other than `?`.
  abbrev IsTaker : Taker → Type 0
  IsTaker any_one = ⊥
  IsTaker (plain c) = IsPlain c
  IsTaker (escaped c) = Unit
  IsTaker (class b ms) = ArePlainMembers ms

  taker_text-Takes :
      (t : Taker) (rest : Bytes)
      → IsTaker t
      → Takes (taker_text t rest) (accepts tolower nocase t) rest
  unfolding taker_text accepts item read_escaped
  taker_text-Takes any_one rest h = elim h [ ]
  taker_text-Takes (plain c) rest h = (
    h.0,
    (same tolower nocase c, rw (h.0, h.1, h.2, h.3) refl, λ d. same-alike tolower nocase c d),
  )
  taker_text-Takes (escaped c) rest h =
      (refl, (same tolower nocase c, refl, λ d. same-alike tolower nocase c d))
  taker_text-Takes (class true ms) rest h =
      let (m, ran, law) = class_text-Read ms rest nothing h in
      (refl, (_, negated_item tolower nocase _ rest m ran, λ d. ap not (law d)))
  taker_text-Takes (class false ms) rest h =
      let (m, ran, law) = class_text-Read ms rest nothing h in
      (refl, (m, class_item _ rest m (class_text-Starts ms rest h) ran, law))

  -- A text has tokens, and these match what the words mean.
  abbrev Meaning : ℕ → Bytes → List Word → Type 0
  Meaning fuel p ws =
      (ts : List Token) × (tokens_loop tolower nocase fuel p ≡ some ts)
      × ((s : Bytes) → matches ts s ≡ means tolower nocase ws s)

  single-means :
      (a : ℕ → Bool) (us : List Token) (t : Taker) (ws : List Word) (s : Bytes)
      → ((d : ℕ) → a d ≡ accepts tolower nocase t d)
      → ((s : Bytes) → matches us s ≡ means tolower nocase ws s)
      → matches (single a ∷ us) s ≡ means tolower nocase (takes t ∷ ws) s
  unfolding matches means
  single-means a us t ws [] h k = refl
  single-means a us t ws (c ∷ s) h k = ap₂ (λ x y. x && y) (h c) (k s)

  takes-Meaning :
      (fuel : ℕ) (q : Bytes) (t : Taker) (ws : List Word)
      → Takes q (accepts tolower nocase t) (text ws)
      → Meaning fuel (text ws) ws
      → Meaning (suc fuel) q (takes t ∷ ws)
  unfolding tokens_loop
  takes-Meaning fuel [] t ws h m = elim h [ ]
  takes-Meaning fuel (x ∷ p) t ws (first, (a, i, law)) (us, ran, same_means) =
      (single a ∷ us, rw (i, tokens_loop, ran) refl, λ s. single-means a us t ws s law same_means)

  any_one-Meaning :
      (fuel : ℕ) (ws : List Word)
      → Meaning fuel (text ws) ws
      → Meaning (suc fuel) (taker_text any_one (text ws)) (takes any_one ∷ ws)
  unfolding tokens_loop taker_text item accepts
  any_one-Meaning fuel ws (us, ran, same_means) = (
    single every ∷ us,
    rw ran refl,
    λ s. single-means every us any_one ws s (λ d. refl) same_means,
  )

  stars-means :
      (us : List Token) (ws : List Word) (s : Bytes)
      → ((s : Bytes) → matches us s ≡ means tolower nocase (strip_words ws) s)
      → matches (stars ∷ us) s ≡ means tolower nocase (anything ∷ ws) s
  unfolding matches means strip_words
  stars-means us ws s h =
      some_suffix_cong (matches us) (means tolower nocase (strip_words ws)) s h ∙ absorbed ws s
    where
      absorbed :
          (ws : List Word) (s : Bytes)
          → some_suffix (means tolower nocase (strip_words ws)) s
            ≡ some_suffix (means tolower nocase ws) s
      absorbed [] s = refl
      absorbed (anything ∷ ws) s =
          absorbed ws s ∙ sym (some_suffix_twice (means tolower nocase ws) s)
      absorbed (takes t ∷ ws) s = refl

  text-Meaning :
      (fuel : ℕ) (ws : List Word)
      → length (text ws) < fuel
      → IsWritten ws
      → Meaning fuel (text ws) ws
  unfolding text tokens_loop
  text-Meaning zero ws h w = absurd (omega arith)
  text-Meaning (suc fuel) [] h w = ([], refl, λ s. no_words s)
    where
      no_words : (s : Bytes) → matches [] s ≡ means tolower nocase [] s
      no_words [] = unfold matches means in refl
      no_words (c ∷ s) = unfold matches means in refl
  text-Meaning (suc fuel) (anything ∷ ws) h w =
      let (us, ran, same_means) =
        text-Meaning fuel (strip_words ws) (omega (arith, length-text_strip_words ws))
          (strip_words-IsWritten ws w) in
      let i : item tolower nocase b'*' (text ws) ≡ star (text (strip_words ws)) =
        unfold item in ap star (strip-text ws w) in
      (stars ∷ us, rw (i, tokens_loop, ran) refl, λ s. stars-means us ws s same_means)
  text-Meaning (suc fuel) (takes any_one ∷ ws) h w =
      any_one-Meaning fuel ws
        (text-Meaning fuel ws (omega (arith, length-taker_text any_one (text ws))) w)
  text-Meaning (suc fuel) (takes (plain c) ∷ ws) h w =
      takes-Meaning fuel (taker_text (plain c) (text ws)) (plain c) ws
        (taker_text-Takes (plain c) (text ws) w.0)
        (text-Meaning fuel ws (omega (arith, length-taker_text (plain c) (text ws))) w.1)
  text-Meaning (suc fuel) (takes (escaped c) ∷ ws) h w =
      takes-Meaning fuel (taker_text (escaped c) (text ws)) (escaped c) ws
        (taker_text-Takes (escaped c) (text ws) tt)
        (text-Meaning fuel ws (omega (arith, length-taker_text (escaped c) (text ws))) w)
  text-Meaning (suc fuel) (takes (class b ms) ∷ ws) h w =
      takes-Meaning fuel (taker_text (class b ms) (text ws)) (class b ms) ws
        (taker_text-Takes (class b ms) (text ws) w.0)
        (text-Meaning fuel ws (omega (arith, length-taker_text (class b ms) (text ws))) w.1)

  -- Take a pattern as the parts that it is written from: stars, `?`, characters, characters behind
  -- backslashes, and classes, negated or not, of characters and ranges, where a character that is
  -- special there stands behind a backslash. On a string that is not empty, `stringmatchlen` ends, reads
  -- nothing behind the string or the pattern, and returns whether the parts, one after the other, take
  -- the whole string: stars any number of characters, and each of the others one. Characters are
  -- compared as they are, or in lower case if `nocase` is set, but for those behind a backslash in a
  -- class.
  pub stringmatchlen-text :
      (ws : List Word) (s : Bytes)
      → IsWritten ws
      → 0 < length s
      → stringmatchlen tolower nocase (text ws) s ≡ some (means tolower nocase ws s)
  stringmatchlen-text ws s w h =
      let (ts, ran, same_means) = text-Meaning (suc (length (text ws))) ws (omega arith) w in
      stringmatchlen_lem tolower nocase (text ws) s ts h (unfold tokens in ran)
      ∙ ap some (same_means s)
