-- ===== src/Dict/Migrate.antt =====
-- A round of `dictRehash`, and the call as a whole.
use mmog.Common.{
  ℕ, zero, suc, ◌+◌, ◌-◌, ◌≤◌, ◌<◌, ◌^◌, ltb, dec_lt, ◌≡◌, ◌≢◌, refl, sym, ap, ◌∙◌, inl, inr, arith,
  Bool, true, false, Option, none, some, List, [], ◌∷◌, length, ◌==◌, if◌then◌else◌, Bool-cases,
  ℕ_discrete,
}
use mmog.Dict.Types.{DictType, Chain, Table, Dict, is_rehashing, dict_size, bucket, index, find}
use mmog.Dict.Ops.{reset, skip_empty, move_chain, move_bucket, rehash, rehash_step, lookup}
use mmog.Dict.Chains.{or_else, count, find-none}
use mmog.Dict.Tables.{
  here, seen, Placed, seen_null, reset-Placed, written, written-Placed, bucket-written_self,
  bucket-written_ne, length-le-total,
}
use mmog.Dict.Rehash.{
  IsValid, IsBounded, view, Skipped, skip_empty-Skipped, empty_next, Moved, move_chain-Moved,
}

length-pos {ℓ} : {A : Type ℓ} (c : List A) → c ≢ [] → 0 < length c
length-pos [] h = absurd (h refl)
length-pos (x ∷ c) h = omega arith

or_else-none {ℓ} : {A : Type ℓ} (o : Option A) → or_else o none ≡ o
or_else-none none = refl
or_else-none (some a) = refl

module _ {ℓ} {K V : Type ℓ} (type : DictType K) where
  -- `d'` stands for the same map as `d`.
  pub record Same (d d' : Dict K V) : Type ℓ where
    pub valid : IsValid type d'
    pub sight : (q : K) → view type d' q ≡ view type d q
    pub size : dict_size d' ≡ dict_size d
    pub iterators : d'.iterators ≡ d.iterators
    pub room : 0 < d.ht0.size → 0 < d'.ht0.size

  pub Same-refl : {d : Dict K V} → IsValid type d → Same d d
  Same-refl v = record {
    valid = v;
    sight = λ q. refl;
    size = refl;
    iterators = refl;
    room = λ h. h;
  }

  pub Same-trans : {a b c : Dict K V} → Same a b → Same b c → Same a c
  Same-trans s t = record {
    valid = t.valid;
    sight = λ q. t.sight q ∙ s.sight q;
    size = t.size ∙ s.size;
    iterators = t.iterators ∙ s.iterators;
    room = λ h. t.room (s.room h);
  }

  -- A bucket `r` of the old table given up to the new one.
  module _ (d : Dict K V) (v : IsValid type d) (start : ℕ) (at : d.rehashidx ≡ some start) (r : ℕ)
      (sk : Skipped d.ht0.buckets r) where
    b : Chain K V
    b = bucket d.ht0 r

    t0' : Table K V
    unfolding b
    t0' = written type d.ht0 r [] (d.ht0.used - length b)

    t1' : Table K V
    unfolding b
    t1' = move_chain type b d.ht1

    in_range : r < d.ht0.size
    in_range = omega (arith, sk.inside, v.t0.len)

    t0'-Placed : Placed type t0'
    unfolding t0' count
    t0'-Placed =
        written-Placed type d.ht0 v.t0 r [] (d.ht0.used - length b) in_range
          (omega (arith, v.t0.used, length-le-total d.ht0.buckets r)) (λ q ne. refl)

    -- The bucket of a key, before and after.
    data Side (q : K) : Type ℓ where
      moved : bucket t0' (index type t0' q) ≡ [] → bucket d.ht0 (index type d.ht0 q) ≡ b → Side q
      stayed :
          bucket t0' (index type t0' q) ≡ bucket d.ht0 (index type d.ht0 q)
          → count type q b ≡ 0
          → Side q

    side : (q : K) → Side q
    unfolding t0' index b
    side q = elim (ℕ_discrete r (index type d.ht0 q)) [
      | yes e ↦
          moved
            (ap (bucket t0') (sym e)
              ∙ bucket-written_self type d.ht0 v.t0 r [] (d.ht0.used - length b) in_range)
            (ap (bucket d.ht0) (sym e))
      | no ne ↦
          stayed
            (bucket-written_ne type d.ht0 v.t0 r [] (d.ht0.used - length b) (index type d.ht0 q) ne)
            (v.t0.home q r ne)
    ]

    b-once : (q : K) → count type q b + here type d.ht1 q ≤ 1
    b-once q = by_side (side q)
      where
        by_side : Side q → count type q b + here type d.ht1 q ≤ 1
        by_side (moved new old) = rw (← old) (v.once q)
        by_side (stayed new none_here) = rw none_here (omega (arith, v.once q))

    Moved-chain : Moved type b d.ht1 t1'
    unfolding t1'
    Moved-chain = move_chain-Moved type b d.ht1 v.t1 (v.moving start at).1 b-once

    after : Dict K V
    after = record d { ht0 = t0'; ht1 = t1'; rehashidx = some (r + 1) }

    once' : (q : K) → Side q → here type t0' q + here type t1' q ≤ 1
    unfolding count
    once' q (moved new old) = rw new (omega (arith, Moved-chain.share q, b-once q))
    once' q (stayed new none_here) = rw new (omega (arith, Moved-chain.share q, v.once q))

    emptied : (i : ℕ) → i < r + 1 → bucket t0' i ≡ []
    unfolding t0'
    emptied =
        empty_next t0'.buckets r
          (λ i lt.
            bucket-written_ne type d.ht0 v.t0 r [] (d.ht0.used - length b) i (omega arith)
            ∙ sk.empty_below i lt)
          (bucket-written_self type d.ht0 v.t0 r [] (d.ht0.used - length b) in_range)

    after-IsValid : IsValid type after
    unfolding after t0'
    after-IsValid = record {
      t0 = t0'-Placed;
      t1 = Moved-chain.placed;
      once = λ q. once' q (side q);
      idle = λ e. cc;
      moving = λ s e. (
        (v.moving start at).0,
        rw Moved-chain.size (v.moving start at).1,
        λ i lt. emptied i (ground arith),
      );
    }

    after-sight : (q : K) → view type after q ≡ view type d q
    unfolding after find
    after-sight q = by_side (side q)
      where
        absent :
            count type q b ≡ 0 → or_else (find type q b) (seen type d.ht1 q) ≡ seen type d.ht1 q
        absent e = rw (find-none type q b e)

        by_side : Side q → or_else (seen type t0' q) (seen type t1' q) ≡ view type d q
        by_side (moved new old) = rw (new, old) (Moved-chain.sight q)
        by_side (stayed new none_here) =
            rw new (ap (or_else (seen type d.ht0 q)) (Moved-chain.sight q ∙ absent none_here))

    after-size : dict_size after ≡ dict_size d
    unfolding after t0' t1' b
    after-size = omega (arith, Moved-chain.used, v.t0.used, length-le-total d.ht0.buckets r)

    after-Same : Same d after
    after-Same = record {
      valid = after-IsValid;
      sight = after-sight;
      size = after-size;
      iterators = unfold after in refl;
      room = λ h. unfold after t0' in h;
    }

    after_fewer : after.ht0.used < d.ht0.used
    unfolding after t0' b
    after_fewer = omega (arith, length-pos _ sk.filled, v.t0.used, length-le-total d.ht0.buckets r)

  pub move_bucket-Same :
      (d : Dict K V) (start : ℕ)
      → IsValid type d
      → IsBounded type d
      → d.rehashidx ≡ some start
      → d.ht0.used ≢ 0
      → (d' : Dict K V) × (move_bucket type d start ≡ some d')
        × Same d d'
        × IsBounded type d'
        × (d'.ht0.used < d.ht0.used)
  unfolding move_bucket after t0' t1' b
  move_bucket-Same d start v h at left =
      let r = skip_empty d.ht0.size d.ht0.buckets start in
      let sk =
        skip_empty-Skipped d.ht0.size d.ht0.buckets start (omega (arith, v.t0.len))
          (omega (arith, v.t0.used)) (v.moving start at).2 in
      let asserted : ltb start d.ht0.size ≡ true = elim (dec_lt r start) [
        | yes below ↦ absurd (sk.filled ((v.moving start at).2 r below))
        | no above ↦ (let inside = in_range d v start at r sk in ground arith)
      ] in
      let no_overflow : ltb (r + 1) (2 ^ 31) ≡ true =
        (let inside = in_range d v start at r sk in ground (arith, h.0)) in
      (
        after d v start at r sk,
        rw (asserted, no_overflow) refl,
        after-Same d v start at r sk,
        (h.0, omega (arith, h.1, (Moved-chain d v start at r sk).size)),
        after_fewer d v start at r sk,
      )

  -- The old table is empty: the new one takes its place.
  finished : Dict K V → Dict K V
  finished d = record d { ht0 = d.ht1; ht1 = reset; rehashidx = none }

  finished-Same :
      (d : Dict K V) → IsValid type d → d.ht0.used ≡ 0 → 0 < d.ht1.size → Same d (finished d)
  unfolding finished
  finished-Same d v zero_used filled = record {
    valid = record {
      t0 = v.t1;
      t1 = reset-Placed type;
      once = λ q. omega (arith, (nothing q).1, v.once q);
      idle = λ e. unfold reset in refl;
      moving = λ r e. cc;
    };
    sight = λ q.
        ap (or_else (seen type d.ht1 q)) (nothing q).0
        ∙ or_else-none (seen type d.ht1 q)
        ∙ ap (λ o. or_else o (seen type d.ht1 q)) (sym (gone q));
    size = unfold reset in omega arith;
    iterators = refl;
    room = λ h. filled;
  }
    where
      nothing :
          (q : K)
          → (seen type (reset {K = K} {V = V}) q ≡ none) × (here type (reset {K = K} {V = V}) q ≡ 0)
      nothing q =
          seen_null type (reset {K = K} {V = V}) q (reset-Placed type) (unfold reset in refl)

      no_entry : (c : Chain K V) → length c ≤ 0 → (q : K) → find type q c ≡ none
      no_entry [] h q = unfold find in refl
      no_entry (x ∷ c) h q = absurd (omega arith)

      gone : (q : K) → seen type d.ht0 q ≡ none
      gone q =
          no_entry (bucket d.ht0 (index type d.ht0 q))
            (omega (arith, length-le-total d.ht0.buckets (index type d.ht0 q), v.t0.used)) q

  -- What `dictRehash` returns and leaves behind.
  pub record Rehashed (d : Dict K V) (n : ℕ) (r : Bool × Dict K V) : Type ℓ where
    pub same : Same d r.1
    pub bounded : IsBounded type r.1
    pub more : r.0 ≡ is_rehashing r.1
    pub ends : d.ht0.used < n → is_rehashing r.1 ≡ false

  -- A call that returns `r`, with what is known of it.
  abbrev Runs : Dict K V → ℕ → Option (Bool × Dict K V) → Type ℓ
  Runs d n o = (r : Bool × Dict K V) × (o ≡ some r) × Rehashed d n r

  rehash_round :
      (d : Dict K V) (n : ℕ) (o : Option ℕ)
      → IsValid type d
      → IsBounded type d
      → d.rehashidx ≡ o
      → ((d' : Dict K V) → IsValid type d' → IsBounded type d' → Runs d' n (rehash type d' n))
      → Runs d (suc n) (elim o [
        | none ↦ some (false, d)
        | some r ↦
            if d.ht0.used == 0
            then some (false, finished d)
            else elim (move_bucket type d r) [ none ↦ none | some d' ↦ rehash type d' n ]
      ])
  rehash_round d n none v small e rest = (
    (false, d),
    refl,
    record { same = Same-refl v; bounded = small; more = rw e; ends = λ h. rw e },
  )
  rehash_round d n (some r) v small e rest = elim (Bool-cases (d.ht0.used == 0)) [
    | inl zero_used ↦ rw zero_used (
      (false, finished d),
      refl,
      record {
        same = finished-Same d v (ground arith) (v.moving r e).1;
        bounded = unfold finished reset in (small.1, omega arith);
        more = unfold finished in refl;
        ends = λ h. unfold finished in refl;
      },
    )
    | inr left ↦
        let (d', ran', step, b', fewer) = move_bucket-Same d r v small e (ground arith) in
        let (p, ran, next) = rest d' step.valid b' in
        rw (left, ran')
          (
            p,
            ran,
            record {
              same = Same-trans step next.same;
              bounded = next.bounded;
              more = next.more;
              ends = λ h. next.ends (omega arith);
            },
          )
  ]

  -- `dictRehash` on a valid dictionary whose tables have fewer than 2 ^ 31 buckets: no assertion fails
  -- and no index overflows, the dictionary stays valid and within that bound, and the map that it stands
  -- for is unchanged. It returns whether a rehashing is still going on, and finishes it in as many
  -- rounds as the old table has entries, and one more.
  pub rehash-Rehashed :
      (d : Dict K V) (n : ℕ)
      → IsValid type d
      → IsBounded type d
      → (r : Bool × Dict K V) × (rehash type d n ≡ some r) × Rehashed d n r
  unfolding rehash finished
  rehash-Rehashed d zero v b =
      (_, refl, record { same = Same-refl v; bounded = b; more = refl; ends = λ h. elim h [ ] })
  rehash-Rehashed d (suc n) v b =
      rehash_round d n d.rehashidx v b refl (λ d' v' b'. rehash-Rehashed d' n v' b')

  -- What a step returns.
  abbrev pub Stepped : Dict K V → Option (Dict K V) → Type ℓ
  Stepped d o = (d' : Dict K V) × (o ≡ some d') × Same d d' × IsBounded type d'

  pub rehash_step-Same :
      (d : Dict K V) → IsValid type d → IsBounded type d → Stepped d (rehash_step type d)
  unfolding rehash_step
  rehash_step-Same d v b = elim (Bool-cases (is_rehashing d)) [
    | inl e ↦ rw e (elim (Bool-cases (d.iterators == 0)) [
      | inl free ↦
          let (r, ran, h) = rehash-Rehashed d 1 v b in rw (free, ran) (r.1, refl, h.same, h.bounded)
      | inr held ↦ rw held (d, refl, Same-refl v, b)
    ])
    | inr e ↦ rw e (d, refl, Same-refl v, b)
  ]

  -- The search of the two tables finds what the map says.
  pub lookup-view : (d : Dict K V) (k : K) → IsValid type d → lookup type d k ≡ view type d k
  unfolding lookup
  lookup-view d k v = by_case (seen type d.ht0 k) d.rehashidx refl
    where
      by_case :
          (o : Option V) (i : Option ℕ)
          → d.rehashidx ≡ i
          → elim o [
            | some x ↦ some x
            | none ↦ if (elim i [ none ↦ false | some r ↦ true ]) then seen type d.ht1 k else none
          ]
            ≡ or_else o (seen type d.ht1 k)
      by_case (some x) i e = refl
      by_case none (some r) e = refl
      by_case none none e = sym (seen_null type d.ht1 k v.t1 (v.idle e)).0
