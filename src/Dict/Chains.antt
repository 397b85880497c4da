-- ===== src/Dict/Chains.antt =====
-- What the chain loops do to the entries of a chain.
use mmog.Common.{
  ℕ, ◌+◌, ◌≤◌, ◌≡◌, refl, ap, arith, true, Option, none, some, [], ◌∷◌, length, if◌then◌else◌,
}
use mmog.Dict.Types.{DictType, Chain, find, assign, unlink}

-- The first of two results.
abbrev pub or_else {ℓ} : {A : Type ℓ} → Option A → Option A → Option A
or_else none y = y
or_else (some a) y = some a

module _ {ℓ} {K : Type ℓ} (type : DictType K) where
  -- Keys that compare equal are interchangeable.
  pub same_left : (q k j : K) → type.same q k ≡ true → type.same q j ≡ type.same k j
  same_left q k j h = ap (λ x. type.same x j) ((type.same_iff q k).0 h)

  pub same_right : (q k j : K) → type.same k j ≡ true → type.same q k ≡ type.same q j
  same_right q k j h = ap (λ x. type.same q x) ((type.same_iff k j).0 h)

module _ {ℓ} {K V : Type ℓ} (type : DictType K) where
  -- How many entries have the key.
  unfoldable pub count : K → Chain K V → ℕ
  count k [] = 0
  count k ((j, v) ∷ c) = (if type.same k j then 1 else 0) + count k c

  pub find-none : (k : K) (c : Chain K V) → count k c ≡ 0 → find type k c ≡ none
  unfolding count find
  find-none k [] h = refl
  find-none k ((j, v) ∷ c) h = ground (arith, find-none k c)

  pub count-zero : (k : K) (c : Chain K V) → find type k c ≡ none → count k c ≡ 0
  unfolding count find
  count-zero k [] h = refl
  count-zero k ((j, v) ∷ c) h = ground (arith, count-zero k c)

  pub find-assign :
      (k q : K) (v old : V) (c : Chain K V)
      → find type k c ≡ some old
      → find type q (assign type k v c) ≡ (if type.same q k then some v else find type q c)
  unfolding find assign
  find-assign k q v old [] h = cc
  find-assign k q v old ((j, w) ∷ c) h =
      ground (arith, find-assign k q v old c, same_left type q k j, same_right type q k j)

  pub count-assign : (k q : K) (v : V) (c : Chain K V) → count q (assign type k v c) ≡ count q c
  unfolding count assign
  count-assign k q v [] = refl
  count-assign k q v ((j, w) ∷ c) = ground (arith, count-assign k q v c)

  pub length-assign : (k : K) (v : V) (c : Chain K V) → length (assign type k v c) ≡ length c
  unfolding assign
  length-assign k v [] = refl
  length-assign k v ((j, w) ∷ c) = ground (arith, length-assign k v c)

  pub find-unlink :
      (k q : K) (c : Chain K V)
      → count q c ≤ 1
      → find type q (unlink type k c) ≡ (if type.same q k then none else find type q c)
  unfolding find unlink count
  find-unlink k q [] h = ground arith
  find-unlink k q ((j, w) ∷ c) h =
      ground (arith, find-unlink k q c, find-none q c, same_left type q k j, same_right type q k j)

  pub count-unlink-le : (k q : K) (c : Chain K V) → count q (unlink type k c) ≤ count q c
  unfolding count unlink
  count-unlink-le k q [] = omega arith
  count-unlink-le k q ((j, w) ∷ c) = ground (arith, count-unlink-le k q c)

  pub length-unlink :
      (k : K) (old : V) (c : Chain K V)
      → find type k c ≡ some old
      → length (unlink type k c) + 1 ≡ length c
  unfolding find unlink
  length-unlink k old [] h = ground arith
  length-unlink k old ((j, w) ∷ c) h = ground (arith, length-unlink k old c)
