-- ===== src/Keyspace/Map.antt =====
-- A dictionary by its promise: at most one value under each key. Pairs stand in the order of their
-- first insertion.
use mmog.Common.{◌≡◌, refl, arith, Option, none, some, List, [], ◌∷◌, if◌then◌else◌}
use mmog.Common.Bytes.{Bytes, equal_strings, equal_strings_iff}

module _ {V : Type 0} where
  -- `dictFind`
  unfoldable pub lookup : Bytes → List (Bytes × V) → Option V
  lookup k [] = none
  lookup k ((j, v) ∷ m) = if equal_strings j k then some v else lookup k m

  -- `dictReplace`
  unfoldable pub insert : Bytes → V → List (Bytes × V) → List (Bytes × V)
  insert k v [] = (k, v) ∷ []
  insert k v ((j, w) ∷ m) = if equal_strings j k then (k, v) ∷ m else (j, w) ∷ insert k v m

  -- `dictDelete`
  unfoldable pub remove : Bytes → List (Bytes × V) → List (Bytes × V)
  remove k [] = []
  remove k ((j, w) ∷ m) = if equal_strings j k then remove k m else (j, w) ∷ remove k m

  pub lookup-insert :
      (k j : Bytes) (v : V) (m : List (Bytes × V))
      → lookup j (insert k v m) ≡ (if equal_strings k j then some v else lookup j m)
  unfolding lookup insert
  lookup-insert k j v [] = refl
  lookup-insert k j v ((i, w) ∷ m) = ground (
    arith,
    equal_strings_iff k j,
    equal_strings_iff i k,
    equal_strings_iff i j,
    lookup-insert k j v m,
  )

  pub lookup-remove :
      (k j : Bytes) (m : List (Bytes × V))
      → lookup j (remove k m) ≡ (if equal_strings k j then none else lookup j m)
  unfolding lookup remove
  lookup-remove k j [] = ground arith
  lookup-remove k j ((i, w) ∷ m) = ground (
    arith,
    equal_strings_iff k j,
    equal_strings_iff i k,
    equal_strings_iff i j,
    lookup-remove k j m,
  )
