-- ===== src/Dict/Expand.antt =====
-- The growth of the table: `_dictNextPower`, `dictExpand`, `dictResize`, `_dictExpandIfNeeded`.
use native.Mathlib.Nat.{pow-suc}
use mmog.Common.{
  ℕ, zero, suc, ◌-◌, ◌*◌, ◌/◌, ◌%◌, ◌^◌, ◌≤◌, ◌<◌, ◌≡◌, refl, sym, ap, ◌∙◌, ◌⊎◌, inl, inr, arith,
  Bool, true, false, ◌&&◌, ◌||◌, Option, none, some, List, [], ◌∷◌, length, ltb, leb, ◌==◌,
  Bool-cases, not_below,
}
use mmog.Dict.Types.{DictType, Chain, Dict, is_rehashing, dict_size}
use mmog.Dict.Ops.{
  initial_size, force_resize_ratio, next_power_loop, next_power, fresh_table, expand, resize,
  expand_if_needed,
}
use mmog.Dict.Chains.{or_else}
use mmog.Dict.Tables.{seen, seen_null, used_null, fresh_table-Placed, fresh_table-seen}
use mmog.Dict.Rehash.{IsValid, IsBounded}
use mmog.Dict.Migrate.{Same, Same-refl}

-- The loop doubles until the bound is reached, and no further.
next_power_loop_lem :
    (fuel i size : ℕ)
    → 0 < i
    → size ≤ i * 2 ^ fuel
    → (k : ℕ) × (next_power_loop fuel i size ≡ i * 2 ^ k)
      × (size ≤ next_power_loop fuel i size)
      × ((next_power_loop fuel i size ≡ i) ⊎ (next_power_loop fuel i size < 2 * size))
unfolding next_power_loop
next_power_loop_lem zero i size p h = (0, omega arith, omega arith, inl refl)
next_power_loop_lem (suc fuel) i size p h = elim (Bool-cases (leb size i)) [
  | inl enough ↦ rw enough (0, omega arith, ground arith, inl refl)
  | inr small ↦
      let less : i < size = ground arith in
      let (k, e, bound, tight) =
        next_power_loop_lem fuel (i * 2) size (omega arith)
          (omega (arith, ap (λ (t : ℕ). i * t) (pow-suc 2 fuel))) in
      rw small
        (suc k, e ∙ omega (arith, ap (λ (t : ℕ). i * t) (pow-suc 2 k)), bound, inr (ground arith))
]

-- `_dictNextPower` returns the least power of two that is at least 4 and the size, for every size
-- below LONG_MAX.
pub next_power_lem :
    (size : ℕ)
    → size < 2 ^ 63 - 1
    → (k : ℕ) × (next_power size ≡ 4 * 2 ^ k)
      × (size ≤ next_power size)
      × ((next_power size ≡ 4) ⊎ (next_power size < 2 * size))
unfolding next_power
next_power_lem size h =
    let small : leb (2 ^ 63 - 1) size ≡ false = ground arith in
    rw small (next_power_loop_lem 62 4 size (omega arith) (omega arith))

pub next_power-pos : (size : ℕ) → 0 < next_power size
unfolding next_power
next_power-pos size = elim (Bool-cases (leb (2 ^ 63 - 1) size)) [
  | inl e ↦ rw e (omega arith)
  | inr e ↦
      let (k, eq, bound, tight) =
        next_power_loop_lem 62 4 size (omega arith)
          (let lt : size < 2 ^ 63 - 1 = ground arith in omega arith) in
      rw e (grown (next_power_loop 62 4 size) bound tight)
]
  where
    grown : (n : ℕ) → size ≤ n → (n ≡ 4) ⊎ (n < 2 * size) → 0 < n
    grown n bound tight = omega arith

module _ {ℓ} {K V : Type ℓ} (type : DictType K) where
  pub not_rehashing : (d : Dict K V) → is_rehashing d ≡ false → d.rehashidx ≡ none
  not_rehashing d h = by_index d.rehashidx h
    where
      by_index : (o : Option ℕ) → elim o [ none ↦ false | some r ↦ true ] ≡ false → o ≡ none
      by_index none e = refl
      by_index (some r) e = cc

  -- What `dictExpand` returns and leaves behind, where it is not refused.
  pub record Expanded (d : Dict K V) (r : Bool × Dict K V) : Type ℓ where
    pub same : Same type d r.1
    pub granted : r.0 ≡ true
    pub room : (is_rehashing r.1 ≡ true) ⊎ (0 < r.1.ht0.size)

  first_table :
      (d : Dict K V) (n : ℕ)
      → IsValid type d
      → d.rehashidx ≡ none
      → d.ht0.buckets ≡ []
      → 0 < n
      → Same type d (record d { ht0 = fresh_table n })
  first_table d n v idle null p =
      let size : d.ht0.size ≡ 0 = sym v.t0.len ∙ ap length null in
      let unused : d.ht0.used ≡ 0 = used_null type d.ht0 v.t0 size in
      record {
        valid = record {
          t0 = fresh_table-Placed type n;
          t1 = v.t1;
          once = λ q. omega (arith, (fresh_table-seen {K = K} {V = V} type n q).1, v.once q);
          idle = v.idle;
          moving = λ r e. absurd (none≢some r (sym idle ∙ e));
        };
        sight = λ q.
            ap (λ o. or_else o (seen type d.ht1 q)) (fresh_table-seen type n q).0
            ∙ ap (λ o. or_else o (seen type d.ht1 q)) (sym (seen_null type d.ht0 q v.t0 size).0);
        size = omega (arith, used-fresh_table n);
        iterators = refl;
        room = λ h. unfold fresh_table in p;
      }
    where
      none≢some : (r : ℕ) → none ≡ some r → ⊥
      none≢some r e = cc

      used-fresh_table : (n : ℕ) → (fresh_table {K = K} {V = V} n).used ≡ 0
      used-fresh_table n = unfold fresh_table in refl

  second_table :
      (d : Dict K V) (n : ℕ)
      → IsValid type d
      → d.rehashidx ≡ none
      → 0 < d.ht0.size
      → 0 < n
      → Same type d (record d { ht1 = fresh_table n; rehashidx = some 0 })
  second_table d n v idle filled p = record {
    valid = record {
      t0 = v.t0;
      t1 = fresh_table-Placed type n;
      once = λ q. omega (arith, (fresh_table-seen {K = K} {V = V} type n q).1, v.once q);
      idle = λ e. cc;
      moving = λ r e. (filled, unfold fresh_table in p, λ i lt. absurd (ground arith));
    };
    sight = λ q.
        ap (or_else (seen type d.ht0 q)) (fresh_table-seen type n q).0
        ∙ ap (or_else (seen type d.ht0 q)) (sym (seen_null type d.ht1 q v.t1 (v.idle idle)).0);
    size = unfold fresh_table in omega (arith, used_null type d.ht1 v.t1 (v.idle idle));
    iterators = refl;
    room = λ h. h;
  }

  expand_round :
      (d : Dict K V) (n : ℕ) (bs : List (Chain K V))
      → IsValid type d
      → d.rehashidx ≡ none
      → d.ht0.buckets ≡ bs
      → 0 < n
      → Expanded d (elim bs [
        | [] ↦ (true, record d { ht0 = fresh_table n })
        | _ ∷ _ ↦ (true, record d { ht1 = fresh_table n; rehashidx = some 0 })
      ])
  expand_round d n [] v idle e p = record {
    same = first_table d n v idle e p;
    granted = refl;
    room = inr (unfold fresh_table in p);
  }
  expand_round d n (b ∷ bs) v idle e p = record {
    same = second_table d n v idle (omega (arith, v.t0.len, ap length e)) p;
    granted = refl;
    room = inl refl;
  }

  -- `dictExpand` changes the capacity only. It is refused exactly while a rehashing goes on or if
  -- the size asked for is below the number of elements.
  pub expand-Expanded :
      (d : Dict K V) (n : ℕ)
      → IsValid type d
      → ((is_rehashing d || ltb n d.ht0.used) ≡ true → expand d n ≡ (false, d))
        × ((is_rehashing d || ltb n d.ht0.used) ≡ false → Expanded d (expand d n))
  unfolding expand
  expand-Expanded d n v = (
    λ e. rw e,
    λ e. rw e (
        expand_round d (next_power n) d.ht0.buckets v (not_rehashing d (ground arith)) refl
          (next_power-pos n)),
  )

  expand-Same : (d : Dict K V) (n : ℕ) → IsValid type d → Same type d (expand d n).1
  expand-Same d n v = elim (Bool-cases (is_rehashing d || ltb n d.ht0.used)) [
    | inl no_room ↦ rw ((expand-Expanded d n v).0 no_room) (Same-refl type v)
    | inr free ↦ ((expand-Expanded d n v).1 free).same
  ]

  -- `_dictExpandIfNeeded` is never refused, and leaves a table to insert into.
  pub expand_if_needed-Expanded :
      (can_resize : Bool) (d : Dict K V)
      → IsValid type d
      → Expanded d (expand_if_needed can_resize d)
  unfolding expand_if_needed
  expand_if_needed-Expanded can_resize d v = elim (Bool-cases (is_rehashing d)) [
    | inl busy ↦ rw busy (record { same = Same-refl type v; granted = refl; room = inl busy })
    | inr free ↦ rw free (elim (Bool-cases (d.ht0.size == 0)) [
      | inl null ↦
          let unused = used_null type d.ht0 v.t0 (ground arith) in
          rw null ((expand-Expanded d initial_size v).1 (rw free (not_below _ _ (omega arith))))
      | inr filled ↦
          rw filled
            (elim (Bool-cases (
              leb d.ht0.size d.ht0.used
              && (can_resize || ltb force_resize_ratio (d.ht0.used / d.ht0.size)))) [
                | inl full ↦
                    rw full ((expand-Expanded d _ v).1 (rw free (not_below _ _ (ground arith))))
                | inr spare ↦
                    rw spare (record {
                      same = Same-refl type v;
                      granted = refl;
                      room = inr (ground arith);
                    })
              ])
    ])
  ]

  abbrev IsBoundedResult : Bool × Dict K V → Type 0
  IsBoundedResult r = IsBounded type r.1

  expand-IsBounded :
      (d : Dict K V) (n : ℕ) → IsBounded type d → n < 2 ^ 30 → IsBoundedResult (expand d n)
  unfolding expand
  expand-IsBounded d n h small = elim (Bool-cases (is_rehashing d || ltb n d.ht0.used)) [
    | inl refused ↦ rw refused h
    | inr free ↦ rw free (by_table d.ht0.buckets)
  ]
    where
      grown : next_power n < 2 ^ 31
      grown = (let (k, e, bound, tight) = next_power_lem n (omega arith) in omega arith)

      by_table :
          (bs : List (Chain K V))
          → IsBoundedResult (elim bs [
            | [] ↦ (true, record d { ht0 = fresh_table (next_power n) })
            | _ ∷ _ ↦ (true, record d { ht1 = fresh_table (next_power n); rehashidx = some 0 })
          ])
      by_table [] = unfold fresh_table in (grown, h.1)
      by_table (b ∷ bs) = unfold fresh_table in (h.0, grown)

  -- Below 2 ^ 29 entries the tables keep fewer than 2 ^ 31 buckets.
  pub expand_if_needed-IsBounded :
      (can_resize : Bool) (d : Dict K V)
      → IsBounded type d
      → dict_size d < 2 ^ 29
      → IsBounded type (expand_if_needed can_resize d).1
  unfolding expand_if_needed
  expand_if_needed-IsBounded can_resize d h few = elim (Bool-cases (is_rehashing d)) [
    | inl busy ↦ rw busy h
    | inr free ↦ rw free (elim (Bool-cases (d.ht0.size == 0)) [
      | inl null ↦ rw null (expand-IsBounded d initial_size h (omega arith))
      | inr filled ↦
          rw filled
            (elim (Bool-cases (
              leb d.ht0.size d.ht0.used
              && (can_resize || ltb force_resize_ratio (d.ht0.used / d.ht0.size)))) [
                | inl full ↦ rw full (expand-IsBounded d _ h (ground arith))
                | inr spare ↦ rw spare h
              ])
    ])
  ]

  -- `dictResize` keeps the map, whatever the flag and the load are.
  pub resize-Same :
      (can_resize : Bool) (d : Dict K V) → IsValid type d → Same type d (resize can_resize d).1
  unfolding resize
  resize-Same false d v = Same-refl type v
  resize-Same true d v = elim (Bool-cases (is_rehashing d)) [
    | inl busy ↦ rw busy (Same-refl type v)
    | inr free ↦
        rw free
          (elim (Bool-cases
            (leb (2 ^ 31) (d.ht0.used % 2 ^ 32) || ltb (d.ht0.used % 2 ^ 32) initial_size)) [
              | inl small ↦ rw small (expand-Same d initial_size v)
              | inr other ↦ rw other (expand-Same d (d.ht0.used % 2 ^ 32) v)
            ])
  ]
