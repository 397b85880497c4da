-- ===== src/Dict/Ops.antt =====
-- The functions of redis-stable/src/dict.c. One that changes `*d` returns the new dictionary. A result of
-- none is a failed assertion, an `int` that overflows or an access outside of a table.
use mmog.Common.{
  ℕ, zero, suc, ◌+◌, ◌-◌, ◌*◌, ◌/◌, ◌%◌, ◌^◌, ◌&&◌, ◌||◌, Bool, true, false, Option, none, some,
  List, [], ◌∷◌, length, get_or, set, replicate, ltb, leb, ◌==◌, if◌then◌else◌,
}
use mmog.Dict.Types.{
  DictType, Chain, Table, Dict, is_rehashing, bucket, index, find, assign, unlink,
}

-- DICT_HT_INITIAL_SIZE
abbrev pub initial_size : ℕ
initial_size = 4

abbrev pub force_resize_ratio : ℕ
force_resize_ratio = 5

-- The loop of `_dictNextPower`: from 4 to 2 ^ 63 are 61 doublings.
unfoldable pub next_power_loop : ℕ → ℕ → ℕ → ℕ
next_power_loop zero i size = i
next_power_loop (suc fuel) i size =
    let rest = next_power_loop fuel (i * 2) size in if leb size i then i else rest

-- `_dictNextPower`
unfoldable pub next_power : ℕ → ℕ
next_power size = if leb (2 ^ 63 - 1) size then 2 ^ 63 - 1 else next_power_loop 62 initial_size size

module _ {ℓ} {K V : Type ℓ} where
  -- `_dictReset`
  unfoldable pub reset : Table K V
  reset = record { buckets = []; size = 0; sizemask = 0; used = 0 }

  -- `dictCreate` and `_dictInit`
  unfoldable pub create : Dict K V
  create = record { ht0 = reset; ht1 = reset; rehashidx = none; iterators = 0 }

  -- The new table of `dictExpand`.
  unfoldable pub fresh_table : ℕ → Table K V
  fresh_table n = record { buckets = replicate n []; size = n; sizemask = n - 1; used = 0 }

  -- `dictExpand`: DICT_OK is true.
  unfoldable pub expand : Dict K V → ℕ → Bool × Dict K V
  expand d size =
      let n = fresh_table (next_power size) in
      if is_rehashing d || ltb size d.ht0.used then (false, d) else elim d.ht0.buckets [
        | [] ↦ (true, record d { ht0 = n })
        | _ ∷ _ ↦ (true, record d { ht1 = n; rehashidx = some 0 })
      ]

  -- `dictResize`, given `dict_can_resize`. `minimal` is an `int`.
  unfoldable pub resize : Bool → Dict K V → Bool × Dict K V
  resize false d = (false, d)
  resize true d =
      let minimal = d.ht0.used % 2 ^ 32 in
      if is_rehashing d
      then (false, d)
      else if leb (2 ^ 31) minimal || ltb minimal initial_size
      then expand d initial_size
      else expand d minimal

  -- `_dictExpandIfNeeded`
  unfoldable pub expand_if_needed : Bool → Dict K V → Bool × Dict K V
  expand_if_needed can_resize d =
      if is_rehashing d
      then (true, d)
      else if d.ht0.size == 0
      then expand d initial_size
      else if leb d.ht0.size d.ht0.used
          && (can_resize || ltb force_resize_ratio (d.ht0.used / d.ht0.size))
      then expand d ((if ltb d.ht0.used d.ht0.size then d.ht0.size else d.ht0.used) * 2)
      else (true, d)

  -- `while(d->ht[0].table[d->rehashidx] == NULL) d->rehashidx++`, with fuel for the whole table.
  unfoldable pub skip_empty : ℕ → List (Chain K V) → ℕ → ℕ
  skip_empty zero bs r = r
  skip_empty (suc fuel) bs r = elim (get_or bs r []) [ [] ↦ skip_empty fuel bs (r + 1) | _ ∷ _ ↦ r ]

  -- `_dictClear`: every entry is freed and the table reset.
  unfoldable pub clear : Table K V → Table K V
  clear t = reset

  -- `dictEmpty`
  unfoldable pub empty : Dict K V → Dict K V
  empty d = record { ht0 = clear d.ht0; ht1 = clear d.ht1; rehashidx = none; iterators = 0 }

module _ {ℓ} {K V : Type ℓ} (type : DictType K) where
  -- One entry put in front of its chain.
  unfoldable pub push : Table K V → K → V → Table K V
  push t k v =
      let i = index type t k in
      record t { buckets = set t.buckets i ((k, v) ∷ bucket t i); used = t.used + 1 }

  -- The `while(de)` loop of `dictRehash` over a bucket: the new table. The old one's `used` falls by
  -- the same number of entries.
  unfoldable pub move_chain : Chain K V → Table K V → Table K V
  move_chain [] t = t
  move_chain ((k, v) ∷ c) t = move_chain c (push t k v)

  -- One round of `dictRehash`, where a bucket is left to move: the assertion, then the bucket, and
  -- `rehashidx++`, which must stay an `int` up to behind the bucket.
  unfoldable pub move_bucket : Dict K V → ℕ → Option (Dict K V)
  move_bucket d start =
      let r = skip_empty d.ht0.size d.ht0.buckets start in
      let c = bucket d.ht0 r in
      if ltb start d.ht0.size && ltb (r + 1) (2 ^ 31)
      then some (record d {
        ht0 = record (d.ht0) { buckets = set d.ht0.buckets r []; used = d.ht0.used - length c };
        ht1 = move_chain c d.ht1;
        rehashidx = some (r + 1);
      })
      else none

  -- `dictRehash`: whether keys are left to move. Its test at the start is repeated in each round, and
  -- has no effect there.
  unfoldable pub rehash : Dict K V → ℕ → Option (Bool × Dict K V)
  rehash d zero = some (is_rehashing d, d)
  rehash d (suc n) = elim d.rehashidx [
    | none ↦ some (false, d)
    | some r ↦
        if d.ht0.used == 0
        then some (false, record d { ht0 = d.ht1; ht1 = reset; rehashidx = none })
        else elim (move_bucket d r) [ none ↦ none | some d' ↦ rehash d' n ]
  ]

  -- `_dictRehashStep`, under the test of its callers that a rehashing goes on.
  unfoldable pub rehash_step : Dict K V → Option (Dict K V)
  rehash_step d =
      if is_rehashing d
      then if d.iterators == 0
        then elim (rehash d 1) [ none ↦ none | some r ↦ some r.1 ]
        else some d
      else some d

  -- The search of both tables that `dictFind`, `_dictKeyIndex` and `dictGenericDelete` share.
  unfoldable pub lookup : Dict K V → K → Option V
  lookup d k = elim (find type k (bucket d.ht0 (index type d.ht0 k))) [
    | some v ↦ some v
    | none ↦ if is_rehashing d then find type k (bucket d.ht1 (index type d.ht1 k)) else none
  ]

  -- `dictFind`, with the value of the entry that it returns (`dictFetchValue`).
  unfoldable pub dict_find : Dict K V → K → Option (Option V × Dict K V)
  dict_find d k =
      if d.ht0.size == 0
      then some (none, d)
      else elim (rehash_step d) [ none ↦ none | some d' ↦ some (lookup d' k, d') ]

  -- The table that a new entry goes to.
  abbrev pub target : Dict K V → Table K V
  target d = if is_rehashing d then d.ht1 else d.ht0

  -- The end of `dictAddRaw`, for the `unsigned int` that `_dictKeyIndex` returns as an `int`: 2 ^ 32 - 1
  -- becomes -1, which is taken for a refusal, and other indexes from 2 ^ 31 on lie before the table.
  unfoldable pub insert_at_index : Dict K V → K → V → ℕ → Option (Bool × Dict K V)
  insert_at_index d k v i =
      if i == 2 ^ 32 - 1
      then some (false, d)
      else if leb (2 ^ 31) i
      then none
      else if is_rehashing d
      then some (true, record d { ht1 = push d.ht1 k v })
      else some (true, record d { ht0 = push d.ht0 k v })

  -- `dictAddRaw` behind the step, where `v` is the value that the caller writes into the new entry.
  -- `_dictKeyIndex` is its middle: it expands the table and looks for the key.
  unfoldable pub add_entry : Bool → Dict K V → K → V → Option (Bool × Dict K V)
  add_entry can_resize d k v =
      let (ok, d') = expand_if_needed can_resize d in
      if ok
      then elim (lookup d' k) [
        | some _ ↦ some (false, d')
        | none ↦ insert_at_index d' k v (index type (target d') k)
      ]
      else some (false, d')

  -- `dictAddRaw`
  unfoldable pub dict_add_raw : Bool → Dict K V → K → V → Option (Bool × Dict K V)
  dict_add_raw can_resize d k v = elim (rehash_step d) [
    | none ↦ none
    | some d' ↦ add_entry can_resize d' k v
  ]

  -- `dictAdd`: DICT_OK is true.
  unfoldable pub dict_add : Bool → Dict K V → K → V → Option (Bool × Dict K V)
  dict_add = dict_add_raw

  -- `dictSetVal` on the entry that `dictFind` returned.
  unfoldable pub set_val : Dict K V → K → V → Dict K V
  set_val d k v =
      let i = index type d.ht0 k in
      let j = index type d.ht1 k in
      elim (find type k (bucket d.ht0 i)) [
        | some _ ↦ record d {
          ht0 = record (d.ht0) { buckets = set d.ht0.buckets i (assign type k v (bucket d.ht0 i)) };
        }
        | none ↦ record d {
          ht1 = record (d.ht1) { buckets = set d.ht1.buckets j (assign type k v (bucket d.ht1 j)) };
        }
      ]

  -- `dictReplace`: true if the key is new.
  unfoldable pub dict_replace : Bool → Dict K V → K → V → Option (Bool × Dict K V)
  dict_replace can_resize d k v = elim (dict_add can_resize d k v) [
    | none ↦ none
    | some r ↦
        if r.0
        then some (true, r.1)
        else elim (dict_find r.1 k) [ none ↦ none | some e ↦ some (false, set_val e.1 k v) ]
  ]

  -- An entry unlinked from one table.
  unfoldable pub delete_from : Table K V → K → Table K V
  delete_from t k =
      let i = index type t k in
      record t { buckets = set t.buckets i (unlink type k (bucket t i)); used = t.used - 1 }

  -- The search of `dictGenericDelete` in both tables, and what it unlinks.
  unfoldable pub unlink_entry : Dict K V → K → Bool × Dict K V
  unlink_entry d k = elim (find type k (bucket d.ht0 (index type d.ht0 k))) [
    | some _ ↦ (true, record d { ht0 = delete_from d.ht0 k })
    | none ↦
        if is_rehashing d
        then elim (find type k (bucket d.ht1 (index type d.ht1 k))) [
          | some _ ↦ (true, record d { ht1 = delete_from d.ht1 k })
          | none ↦ (false, d)
        ]
        else (false, d)
  ]

  -- `dictGenericDelete` (`dictDelete`, `dictDeleteNoFree`): DICT_OK is true.
  unfoldable pub dict_delete : Dict K V → K → Option (Bool × Dict K V)
  dict_delete d k =
      if d.ht0.size == 0
      then some (false, d)
      else elim (rehash_step d) [ none ↦ none | some d' ↦ some (unlink_entry d' k) ]
