-- ===== src/Dict/Types.antt =====
-- `dictType`, `dictEntry`, `dictht` and `dict` of redis-stable/src/dict.h. A chain of entries is the
-- list of its keys and values; a pointer to an entry is the key that stands there.
use Prim.Native.Nat.{bit_and}
use mmog.Common.{
  ℕ, ◌+◌, ◌≡◌, ◌↔◌, Bool, true, false, Option, none, some, List, [], ◌∷◌, get_or, if◌then◌else◌,
}

-- The hash and the comparison of a `dictType`. `keyDup`, `valDup` and the destructors only manage
-- memory. Keys are compared by content, so two that compare equal are one key here.
pub record DictType {ℓ} (K : Type ℓ) : Type ℓ where
  pub hash : K → ℕ
  pub same : K → K → Bool
  pub same_iff : (a b : K) → (same a b ≡ true) ↔ (a ≡ b)

abbrev pub Chain {ℓ} : Type ℓ → Type ℓ → Type ℓ
Chain K V = List (K × V)

-- `dictht`; a null `table` is the empty list.
pub record Table {ℓ} (K V : Type ℓ) : Type ℓ where
  pub buckets : List (Chain K V)
  pub size : ℕ
  pub sizemask : ℕ
  pub used : ℕ

-- `dict`; a `rehashidx` of -1 is `none`, and any other is an `int` that is not negative.
pub record Dict {ℓ} (K V : Type ℓ) : Type ℓ where
  pub ht0 : Table K V
  pub ht1 : Table K V
  pub rehashidx : Option ℕ
  pub iterators : ℕ

abbrev pub is_rehashing {ℓ} : {K V : Type ℓ} → Dict K V → Bool
is_rehashing d = elim d.rehashidx [ none ↦ false | some r ↦ true ]

-- `dictSize`
abbrev pub dict_size {ℓ} : {K V : Type ℓ} → Dict K V → ℕ
dict_size d = d.ht0.used + d.ht1.used

abbrev pub bucket {ℓ} : {K V : Type ℓ} → Table K V → ℕ → Chain K V
bucket t i = get_or t.buckets i []

module _ {ℓ} {K V : Type ℓ} (type : DictType K) where
  -- `dictHashKey(d, key) & ht->sizemask`
  unfoldable pub index : Table K V → K → ℕ
  index t k = bit_and (type.hash k) t.sizemask

  -- The `while(he)` loop over a chain: the value of the first entry with the key.
  unfoldable pub find : K → Chain K V → Option V
  find k [] = none
  find k ((j, v) ∷ c) = if type.same k j then some v else find k c

  -- The chain with the value of that entry replaced.
  unfoldable pub assign : K → V → Chain K V → Chain K V
  assign k v [] = []
  assign k v ((j, w) ∷ c) = if type.same k j then (j, v) ∷ c else (j, w) ∷ assign k v c

  -- The chain with that entry unlinked.
  unfoldable pub unlink : K → Chain K V → Chain K V
  unlink k [] = []
  unlink k ((j, v) ∷ c) = if type.same k j then c else (j, v) ∷ unlink k c
