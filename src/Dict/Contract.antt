-- ===== src/Dict/Contract.antt =====
-- What `dictFind` and `dictAdd` do to the map that a dictionary stands
-- for, in every state of a rehashing.
use mmog.Common.{
  ℕ, ◌+◌, ◌≤◌, ◌<◌, ◌^◌, ◌-◌, leb, ◌≡◌, refl, sym, ap, ◌∙◌, ◌⊎◌, inl, inr, arith, Bool, true, false,
  Option, none, some, ◌==◌, if◌then◌else◌, Bool-cases, Option-cases, ℕ_discrete, none≢some,
  false≢true,
}
use mmog.Dict.Types.{DictType, Table, Dict, is_rehashing, dict_size, bucket, index, find}
use mmog.Dict.Ops.{
  reset, create, push, lookup, dict_find, expand_if_needed, dict_add_raw, dict_add, add_entry,
  insert_at_index, target,
}
use mmog.Dict.Chains.{or_else, count, find-none, count-zero}
use mmog.Dict.Tables.{here, seen, seen_null, reset-Placed, index-lt}
use mmog.Dict.Writes.{push-Wrote}
use mmog.Dict.Rehash.{IsValid, IsBounded, view}
use mmog.Dict.Migrate.{Same, Same-refl, Same-trans, rehash_step-Same, lookup-view}
use mmog.Dict.Expand.{expand_if_needed-Expanded, expand_if_needed-IsBounded, not_rehashing}
use mmog.Dict.Update.{write_old, write_new}

pub none_both {ℓ} : {A : Type ℓ} (a b : Option A) → or_else a b ≡ none → (a ≡ none) × (b ≡ none)
none_both none b e = (refl, e)
none_both (some x) b e = cc

module _ {ℓ} {K V : Type ℓ} (type : DictType K) where
  -- A new dictionary is valid and empty.
  pub create-IsValid :
      IsValid type (create {K = K} {V = V})
      × ((q : K) → view type (create {K = K} {V = V}) q ≡ none)
  unfolding create reset count find
  create-IsValid = (
    record {
      t0 = reset-Placed type;
      t1 = reset-Placed type;
      once = λ q. omega arith;
      idle = λ e. refl;
      moving = λ r e. cc;
    },
    λ q. refl,
  )

  -- Without a first table there is no element.
  pub view_null : (d : Dict K V) (k : K) → IsValid type d → d.ht0.size ≡ 0 → view type d k ≡ none
  view_null d k v null = by_index d.rehashidx refl
    where
      by_index : (o : Option ℕ) → d.rehashidx ≡ o → view type d k ≡ none
      by_index none e =
          rw (seen_null type d.ht0 k v.t0 null).0 (seen_null type d.ht1 k v.t1 (v.idle e)).0
      by_index (some r) e = absurd (omega (arith, (v.moving r e).0))

  -- `dictFind` on a valid dictionary whose tables have fewer than 2 ^ 31 buckets returns what the map
  -- holds, and keeps the map and the bound.
  pub dict_find-view :
      (d : Dict K V) (k : K)
      → IsValid type d
      → IsBounded type d
      → (d' : Dict K V) × (dict_find type d k ≡ some (view type d k, d'))
        × Same type d d'
        × IsBounded type d'
  unfolding dict_find
  dict_find-view d k v h = elim (Bool-cases (d.ht0.size == 0)) [
    | inl null ↦
        rw null
          (d, ap (λ o. some (o, d)) (sym (view_null d k v (ground arith))), Same-refl type v, h)
    | inr filled ↦
        let (d', ran, s, h') = rehash_step-Same type d v h in
        rw (filled, ran)
          (d', ap (λ o. some (o, d')) (lookup-view type d' k s.valid ∙ s.sight k), s, h')
  ]

  pub present : (t : Table K V) (k : K) (x : V) → seen type t k ≡ some x → 1 ≤ here type t k
  present t k x e = elim (ℕ_discrete (here type t k) 0) [
    | yes z ↦ absurd (none≢some x (sym (find-none type k (bucket t (index type t k)) z) ∙ e))
    | no p ↦ omega arith
  ]

  -- What `dictAdd` returns and leaves behind.
  pub record Adds (d : Dict K V) (k : K) (x : V) (r : Bool × Dict K V) : Type ℓ where
    pub valid : IsValid type r.1
    pub added :
        view type d k ≡ none
        → (r.0 ≡ true)
          × ((q : K) → view type r.1 q ≡ (if type.same q k then some x else view type d q))
          × (dict_size r.1 ≡ dict_size d + 1)
    pub kept : (old : V) → view type d k ≡ some old → (r.0 ≡ false) × Same type d r.1
    pub bounded : IsBounded type r.1

  -- An addition that returns, with what it returns.
  abbrev Added : Dict K V → K → V → Option (Bool × Dict K V) → Type ℓ
  Added d k x o = (r : Bool × Dict K V) × (o ≡ some r) × Adds d k x r

  -- The index of the new entry is an `int`.
  insert_at_index_lem :
      (d : Dict K V) (k : K) (x : V)
      → IsValid type d
      → IsBounded type d
      → (is_rehashing d ≡ true) ⊎ (0 < d.ht0.size)
      → insert_at_index type d k x (index type (target type d) k)
        ≡ some (
            if is_rehashing d
            then (true, record d { ht1 = push type d.ht1 k x })
            else (true, record d { ht0 = push type d.ht0 k x }))
  unfolding insert_at_index
  insert_at_index_lem d k x v h room = elim (Bool-cases (is_rehashing d)) [
    | inl busy ↦
        let inside = index-lt type d.ht1 k v.t1 (new_room busy d.rehashidx refl) in
        let no_refusal : (index type d.ht1 k == 2 ^ 32 - 1) ≡ false = ground (arith, inside, h.1) in
        let positive : leb (2 ^ 31) (index type d.ht1 k) ≡ false = ground (arith, inside, h.1) in
        rw (busy, no_refusal, positive) refl
    | inr still ↦
        let inside = index-lt type d.ht0 k v.t0 (old_room still) in
        let no_refusal : (index type d.ht0 k == 2 ^ 32 - 1) ≡ false = ground (arith, inside, h.0) in
        let positive : leb (2 ^ 31) (index type d.ht0 k) ≡ false = ground (arith, inside, h.0) in
        rw (still, no_refusal, positive) refl
  ]
    where
      new_room : is_rehashing d ≡ true → (o : Option ℕ) → d.rehashidx ≡ o → 0 < d.ht1.size
      new_room busy (some r) q = (v.moving r q).1
      new_room busy none q = absurd (false≢true (rw q at busy))

      old_room : is_rehashing d ≡ false → 0 < d.ht0.size
      old_room still = ground arith

  insert-Adds :
      (d : Dict K V) (k : K) (x : V)
      → IsValid type d
      → IsBounded type d
      → (is_rehashing d ≡ true) ⊎ (0 < d.ht0.size)
      → Adds d k x (elim (lookup type d k) [
        | some _ ↦ (false, d)
        | none ↦
            if is_rehashing d
            then (true, record d { ht1 = push type d.ht1 k x })
            else (true, record d { ht0 = push type d.ht0 k x })
      ])
  insert-Adds d k x v h room = elim (Option-cases (lookup type d k)) [
    | inr (old, e) ↦
        let held : view type d k ≡ some old = sym (lookup-view type d k v) ∙ e in
        rw e (record {
          bounded = h;
          valid = v;
          added = λ q. absurd (none≢some old (sym q ∙ held));
          kept = λ o q. (refl, Same-refl type v);
        })
    | inl e ↦
        let free : view type d k ≡ none = sym (lookup-view type d k v) ∙ e in
        let (free0, free1) = none_both (seen type d.ht0 k) (seen type d.ht1 k) free in
        let none0 = count-zero type k (bucket d.ht0 (index type d.ht0 k)) free0 in
        let none1 = count-zero type k (bucket d.ht1 (index type d.ht1 k)) free1 in
        rw e (elim (Bool-cases (is_rehashing d)) [
          | inl busy ↦
              let u =
                write_new type d v k (some x) 1 (push type d.ht1 k x)
                  (push-Wrote type d.ht1 k v.t1 (new_room busy d.rehashidx refl) x) free0
                  (omega arith) in
              rw busy (record {
                bounded = unfold push in h;
                valid = u.valid;
                added = λ q. (refl, u.sight, unfold push in omega arith);
                kept = λ o q. absurd (none≢some o (sym free ∙ q));
              })
          | inr still ↦
              let u =
                write_old type d v k (some x) 1 (push type d.ht0 k x)
                  (push-Wrote type d.ht0 k v.t0 (old_room still) x) refl (omega arith)
                  (λ r q. absurd (none≢some r (sym (not_rehashing type d still) ∙ q))) in
              rw still (record {
                bounded = unfold push in h;
                valid = u.valid;
                added = λ q. (refl, u.sight, unfold push in omega arith);
                kept = λ o q. absurd (none≢some o (sym free ∙ q));
              })
        ])
  ]
    where
      new_room : is_rehashing d ≡ true → (o : Option ℕ) → d.rehashidx ≡ o → 0 < d.ht1.size
      new_room busy (some r) q = (v.moving r q).1
      new_room busy none q = absurd (false≢true (rw q at busy))

      old_room : is_rehashing d ≡ false → 0 < d.ht0.size
      old_room still = ground arith

  Adds-Same :
      {a b : Dict K V} (k : K) (x : V) (r : Bool × Dict K V)
      → Same type a b
      → Adds b k x r
      → Adds a k x r
  Adds-Same k x r s h = record {
    bounded = h.bounded;
    valid = h.valid;
    added = λ e.
        let (ok, sight, size) = h.added (s.sight k ∙ e) in
        (
          ok,
          λ q. sight q ∙ ap (λ o. if type.same q k then some x else o) (s.sight q),
          size ∙ ap (λ (n : ℕ). n + 1) s.size,
        );
    kept = λ old e. let (no_add, t) = h.kept old (s.sight k ∙ e) in (no_add, Same-trans type s t);
  }

  -- The search and the insertion, behind the expansion.
  entry-Added :
      (d : Dict K V) (k : K) (x : V)
      → IsValid type d
      → IsBounded type d
      → (is_rehashing d ≡ true) ⊎ (0 < d.ht0.size)
      → Added d k x (elim (lookup type d k) [
        | some _ ↦ some (false, d)
        | none ↦ insert_at_index type d k x (index type (target type d) k)
      ])
  entry-Added d k x v h room = elim (Option-cases (lookup type d k)) [
    | inr (old, e) ↦ let a = insert-Adds d k x v h room in rw e ((false, d), refl, (rw e at a))
    | inl e ↦
        let a = insert-Adds d k x v h room in
        rw (e, insert_at_index_lem d k x v h room) (_, refl, (rw e at a))
  ]

  add_entry-Added :
      (can_resize : Bool) (d : Dict K V) (k : K) (x : V)
      → IsValid type d
      → IsBounded type d
      → dict_size d < 2 ^ 29
      → Added d k x (add_entry type can_resize d k x)
  unfolding add_entry
  add_entry-Added can_resize d k x v h few =
      let e = expand_if_needed-Expanded type can_resize d v in
      let wide = expand_if_needed-IsBounded type can_resize d h few in
      let (r, added, a) =
        entry-Added (expand_if_needed can_resize d).1 k x e.same.valid wide e.room in
      rw e.granted (r, added, Adds-Same k x r e.same a)

  -- `dictAdd` on a valid dictionary of fewer than 2 ^ 29 entries, whose tables have fewer than 2 ^ 31
  -- buckets, whether or not tables may be resized: no assertion fails and no index overflows. A new key
  -- is added and nothing else changes in the map; under a key that is there, nothing changes. The
  -- tables stay within the bound.
  pub dict_add-Adds :
      (can_resize : Bool) (d : Dict K V) (k : K) (x : V)
      → IsValid type d
      → IsBounded type d
      → dict_size d < 2 ^ 29
      → (r : Bool × Dict K V) × (dict_add type can_resize d k x ≡ some r) × Adds d k x r
  unfolding dict_add dict_add_raw
  dict_add-Adds can_resize d k x v h few =
      let (d', ran, s, h') = rehash_step-Same type d v h in
      let (r, added, a) = add_entry-Added can_resize d' k x s.valid h' (omega (arith, s.size)) in
      rw (ran, dict_add, dict_add_raw) (r, added, Adds-Same k x r s a)
