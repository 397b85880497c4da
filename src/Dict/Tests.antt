-- ===== src/Dict/Tests.antt =====
-- Concrete runs of the dictionary, with numbers for keys and values.
use mmog.Common.{
  ℕ, ◌+◌, ◌*◌, ◌^◌, ◌<◌, ◌≤◌, ◌≡◌, refl, arith, inl, inr, Bool, true, false, Option, none, some,
  Option-cases, ◌==◌, ==_iff,
}
use mmog.Dict.Types.{DictType, Dict, is_rehashing, dict_size, index, find}
use mmog.Dict.Ops.{
  next_power_loop, next_power, reset, create, fresh_table, expand, expand_if_needed, skip_empty,
  push, move_chain, move_bucket, rehash, rehash_step, lookup, dict_find, dict_add_raw, dict_add,
  add_entry, insert_at_index, dict_replace, dict_delete,
}
use mmog.Dict.Rehash.{IsValid, IsBounded, view}
use mmog.Dict.Migrate.{Same, Rehashed, rehash-Rehashed}
use mmog.Dict.Expand.{Expanded, expand_if_needed-Expanded}
use mmog.Dict.Contract.{create-IsValid, dict_find-view, Adds, dict_add-Adds}
use mmog.Dict.Delete.{Deletes, dict_delete-Deletes}
use mmog.Dict.Replace.{Replaces, dict_replace-Replaces}

abbrev numbers : DictType ℕ
numbers = record { hash = λ k. k * 5; same = λ a b. a == b; same_iff = ==_iff }

abbrev d0 : Dict ℕ ℕ
d0 = create

-- The dictionary after an addition, or the one before if that fails.
abbrev put : ℕ → ℕ → Dict ℕ ℕ → Dict ℕ ℕ
put k x d = elim (dict_add numbers true d k x) [ none ↦ d | some r ↦ r.1 ]

-- Four keys fill the first table.
abbrev full : Dict ℕ ℕ
full = put 8 80 (put 3 30 (put 4 40 (put 0 10 d0)))

-- The fifth starts a rehashing.
abbrev busy : Dict ℕ ℕ
busy = put 12 120 full

abbrev value_of : Option (Option ℕ × Dict ℕ ℕ) → Option ℕ
value_of none = none
value_of (some r) = r.0

busy_rehashes : is_rehashing busy ≡ true
unfolding create reset dict_add dict_add_raw add_entry insert_at_index rehash_step expand_if_needed
    expand fresh_table next_power next_power_loop lookup find index push rehash move_bucket
    move_chain skip_empty
busy_rehashes = refl

busy_finds : value_of (dict_find numbers busy 8) ≡ some 80
unfolding create reset dict_add dict_add_raw add_entry insert_at_index rehash_step expand_if_needed
    expand fresh_table next_power next_power_loop lookup find index push rehash move_bucket
    move_chain skip_empty dict_find
busy_finds = refl

-- The laws of the dictionaries here, with their bounds and few entries.
abbrev IsTested : Dict ℕ ℕ → Type 0
IsTested d = IsValid numbers d × IsBounded numbers d × (dict_size d < 2 ^ 29)

put-IsTested :
    (k x n : ℕ) (d : Dict ℕ ℕ)
    → IsValid numbers d × IsBounded numbers d × (dict_size d ≤ n)
    → n < 100
    → IsValid numbers (put k x d) × IsBounded numbers (put k x d) × (dict_size (put k x d) ≤ n + 1)
put-IsTested k x n d (v, h, few) small =
    let (r, ran, a) = dict_add-Adds numbers true d k x v h (omega arith) in
    rw (ran, put)
      (
        a.valid,
        a.bounded,
        elim (Option-cases (view numbers d k)) [
          | inl e ↦ omega (arith, (a.added e).2)
          | inr (old, e) ↦ omega (arith, (a.kept old e).1.size)
        ],
      )

full_lem : IsValid numbers full × IsBounded numbers full × (dict_size full ≤ 4)
full_lem =
    put-IsTested 8 80 3 _
      (put-IsTested 3 30 2 _
        (put-IsTested 4 40 1 _
          (put-IsTested 0 10 0 d0
            (
              (create-IsValid numbers).0,
              (unfold create reset in (omega arith, omega arith)),
              (unfold create reset in omega arith),
            )
            (omega arith))
          (omega arith))
        (omega arith))
      (omega arith)

busy-IsTested : IsTested busy
busy-IsTested =
    let (v, h, few) = put-IsTested 12 120 4 full full_lem (omega arith) in (v, h, omega arith)

dict_add-Adds_example :
    (r : Bool × Dict ℕ ℕ) × (dict_add numbers true busy 7 70 ≡ some r) × Adds numbers busy 7 70 r
dict_add-Adds_example =
    dict_add-Adds numbers true busy 7 70 busy-IsTested.0 busy-IsTested.1 busy-IsTested.2

dict_delete-Deletes_example :
    (r : Bool × Dict ℕ ℕ) × (dict_delete numbers busy 8 ≡ some r)
    × Deletes numbers busy 8 r
    × IsBounded numbers r.1
dict_delete-Deletes_example = dict_delete-Deletes numbers busy 8 busy-IsTested.0 busy-IsTested.1

dict_replace-Replaces_example :
    (r : Bool × Dict ℕ ℕ) × (dict_replace numbers false busy 8 81 ≡ some r)
    × Replaces numbers busy 8 81 r
dict_replace-Replaces_example =
    dict_replace-Replaces numbers false busy 8 81 busy-IsTested.0 busy-IsTested.1 busy-IsTested.2

dict_find-view_example :
    (d' : Dict ℕ ℕ) × (dict_find numbers busy 8 ≡ some (view numbers busy 8, d'))
    × Same numbers busy d'
    × IsBounded numbers d'
dict_find-view_example = dict_find-view numbers busy 8 busy-IsTested.0 busy-IsTested.1

rehash-Rehashed_example :
    (r : Bool × Dict ℕ ℕ) × (rehash numbers busy 5 ≡ some r) × Rehashed numbers busy 5 r
rehash-Rehashed_example = rehash-Rehashed numbers busy 5 busy-IsTested.0 busy-IsTested.1

expand_if_needed-Expanded_example : Expanded numbers full (expand_if_needed true full)
expand_if_needed-Expanded_example = expand_if_needed-Expanded numbers true full full_lem.0
