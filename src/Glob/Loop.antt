-- ===== src/Glob/Loop.antt =====
-- The loop of `stringmatchlen` against the tokens of a pattern.
use mmog.Common.{
  ℕ, zero, suc, ◌<◌, ◌≡◌, refl, sym, ap, ◌∙◌, subst, arith, inl, inr, ◌&&◌, Bool, true, false,
  Option, none, some, List, [], ◌∷◌, length, ◌==◌, if◌then◌else◌, ℤ, Bool-cases,
}
use mmog.Common.Bytes.{Bytes}
use mmog.Glob.{
  strip, is_empty, Item, star, any, one, astray, try_suffixes, advance, item, match_loop,
  stringmatchlen,
}
use mmog.Glob.Tokens.{
  Token, stars, single, some_suffix, matches, every, prepend, tokens_loop, tokens, Stripped,
  strip-Stripped, some_suffix-matches, try_suffixes_lem, is_star, item_no_star, item_star,
}

prepend_lem :
    (t : Token) (o : Option (List Token)) (ts : List Token)
    → prepend t o ≡ some ts
    → (us : List Token) × (o ≡ some us) × (ts ≡ t ∷ us)
prepend_lem t none ts e = absurd (cc e)
prepend_lem t (some us) ts e = (us, refl, cc e)

module _ (tolower : ℤ → ℤ) (nocase : Bool) where
  -- Without stars at its beginning, a pattern matches the empty string only if it is empty itself.
  stripped_lem :
      (fuel : ℕ) (q : Bytes) (ts : List Token)
      → Stripped q
      → tokens_loop tolower nocase fuel q ≡ some ts
      → matches ts [] ≡ is_empty q
  unfolding tokens_loop matches is_empty
  stripped_lem zero q ts h e = absurd (cc e)
  stripped_lem (suc fuel) [] [] h e = refl
  stripped_lem (suc fuel) [] (t ∷ ts) h e = absurd (cc e)
  stripped_lem (suc fuel) (x ∷ p) ts h e = by_item (item tolower nocase x p) refl
    where
      none_left :
          (t : ℕ → Bool) (q : Bytes)
          → prepend (single t) (tokens_loop tolower nocase fuel q) ≡ some ts
          → matches ts [] ≡ false
      none_left t q e' =
          let (us, _, same_tokens) = prepend_lem (single t) _ ts e' in
          ap (λ l. matches l []) same_tokens

      by_item : (i : Item) → item tolower nocase x p ≡ i → matches ts [] ≡ false
      by_item (star q) i = absurd (cc (ap is_star i, item_no_star tolower nocase x p h))
      by_item (any q) i = none_left every q (rw (i, tokens_loop) at e)
      by_item (one accepts q) i = none_left accepts q (rw (i, tokens_loop) at e)
      by_item astray i = absurd (cc (rw (i, tokens_loop) at e))

  -- Where the string ends, only stars may be left.
  at_end :
      (fuel : ℕ) (q : Bytes) (ts : List Token)
      → tokens_loop tolower nocase fuel q ≡ some ts
      → matches ts [] ≡ is_empty (strip q)
  unfolding tokens_loop matches is_empty some_suffix strip
  at_end zero q ts e = absurd (cc e)
  at_end (suc fuel) [] [] e = refl
  at_end (suc fuel) [] (t ∷ ts) e = absurd (cc e)
  at_end (suc fuel) (x ∷ p) ts e = elim (Bool-cases (x == b'*')) [
    | inl h ↦
        let i : item tolower nocase x p ≡ star (strip p) = unfold item in rw h refl in
        let (us, rest, same_tokens) = prepend_lem stars _ ts (rw (i, tokens_loop) at e) in
        rw h (
          ap (λ l. matches l []) same_tokens
          ∙ stripped_lem fuel (strip p) us (strip-Stripped p) rest)
    | inr h ↦ rw h (stripped_lem (suc fuel) (x ∷ p) ts h e)
  ]

  abbrev Loops : ℕ → Type 0
  Loops fuel =
      (p : Bytes) (c : ℕ) (s : Bytes) (ts : List Token)
      → tokens_loop tolower nocase fuel p ≡ some ts
      → match_loop tolower nocase fuel p (c ∷ s) ≡ some (matches ts (c ∷ s))

  advance_lem :
      (fuel : ℕ) (q s : Bytes) (ts : List Token)
      → Loops fuel
      → tokens_loop tolower nocase fuel q ≡ some ts
      → advance (match_loop tolower nocase fuel q) q s ≡ some (matches ts s)
  advance_lem fuel q [] ts ih e = ap some (sym (at_end fuel q ts e))
  advance_lem fuel q (c ∷ s) ts ih e = ih q c s ts e

  no_tokens : (fuel : ℕ) (us : List Token) → tokens_loop tolower nocase fuel [] ≡ some us → us ≡ []
  unfolding tokens_loop
  no_tokens zero us e = absurd (cc e)
  no_tokens (suc fuel) us e = cc e

  only_stars : (us : List Token) (s : Bytes) → us ≡ [] → matches (stars ∷ us) s ≡ true
  unfolding matches
  only_stars us s e = rw e (some_suffix-matches s)

  -- A round of the loop.
  round_lem :
      (fuel : ℕ) (x : ℕ) (p : Bytes) (c : ℕ) (s : Bytes) (ts : List Token) (i : Item)
      → Loops fuel
      → item tolower nocase x p ≡ i
      → tokens_loop tolower nocase (suc fuel) (x ∷ p) ≡ some ts
      → match_loop tolower nocase (suc fuel) (x ∷ p) (c ∷ s) ≡ some (matches ts (c ∷ s))
  unfolding matches is_empty tokens_loop match_loop
  round_lem fuel x p c s ts (star q) ih i e =
      let (us, rest, same_tokens) = prepend_lem stars _ ts (rw (i, tokens_loop) at e) in
      rw (i, match_loop)
        (star_lem q us rest (item_star tolower nocase x p q i)
          ∙ ap (λ l. some (matches l (c ∷ s))) (sym same_tokens))
    where
      star_lem :
          (q : Bytes) (us : List Token)
          → tokens_loop tolower nocase fuel q ≡ some us
          → q ≡ strip p
          → (if is_empty q
              then some true
              else try_suffixes (match_loop tolower nocase fuel q) (c ∷ s))
            ≡ some (matches (stars ∷ us) (c ∷ s))
      star_lem [] us rest same_pattern =
          ap some (sym (only_stars us (c ∷ s) (no_tokens fuel us rest)))
      star_lem (y ∷ q) us rest same_pattern =
          try_suffixes_lem (match_loop tolower nocase fuel (y ∷ q)) (matches us) (c ∷ s)
            (stripped_lem fuel (y ∷ q) us (subst Stripped (sym same_pattern) (strip-Stripped p))
              rest)
            (λ c' t. ih (y ∷ q) c' t us rest)
  round_lem fuel x p c s ts (any q) ih i e =
      let (us, rest, same_tokens) = prepend_lem (single every) _ ts (rw (i, tokens_loop) at e) in
      rw (i, match_loop)
        (advance_lem fuel q s us ih rest ∙ ap (λ l. some (matches l (c ∷ s))) (sym same_tokens))
  round_lem fuel x p c s ts (one accepts q) ih i e =
      let (us, rest, same_tokens) = prepend_lem (single accepts) _ ts (rw (i, tokens_loop) at e) in
      rw (i, match_loop)
        (taken (accepts c) us rest ∙ ap (λ l. some (matches l (c ∷ s))) (sym same_tokens))
    where
      taken :
          (b : Bool) (us : List Token)
          → tokens_loop tolower nocase fuel q ≡ some us
          → (if b then advance (match_loop tolower nocase fuel q) q s else some false)
            ≡ some (b && matches us s)
      taken true us rest = advance_lem fuel q s us ih rest
      taken false us rest = refl
  round_lem fuel x p c s ts astray ih i e = absurd (cc (rw (i, tokens_loop) at e))

  match_loop_lem : (fuel : ℕ) → Loops fuel
  unfolding match_loop tokens_loop matches is_empty
  match_loop_lem zero p c s ts e = absurd (cc e)
  match_loop_lem (suc fuel) [] c s [] e = refl
  match_loop_lem (suc fuel) [] c s (t ∷ ts) e = absurd (cc e)
  match_loop_lem (suc fuel) (x ∷ p) c s ts e =
      round_lem fuel x p c s ts (item tolower nocase x p) (match_loop_lem fuel) refl e

  -- On a string that is not empty, and a pattern that has tokens, `stringmatchlen` reads nothing behind
  -- the string or the pattern, and returns whether the tokens match the whole string.
  pub stringmatchlen_lem :
      (p s : Bytes) (ts : List Token)
      → 0 < length s
      → tokens tolower nocase p ≡ some ts
      → stringmatchlen tolower nocase p s ≡ some (matches ts s)
  unfolding stringmatchlen tokens
  stringmatchlen_lem p [] ts h e = absurd (omega arith)
  stringmatchlen_lem p (c ∷ s) ts h e = match_loop_lem (suc (length p)) p c s ts e
